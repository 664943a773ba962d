-- ===== src/Manifest/Dedup.antt =====
-- dedup_archive.py: `serialize_dedup_manifest` and `parse_dedup_manifest` of MSC3 to MSC6.
pub mod Records
pub mod RoundTrip
mod Tests
use mosaic_archive.Base.{
  ℕ, zero, suc, ◌+◌, List, [], ◌∷◌, ◌++◌, Bytes, length, take, drop, bytes_eq, ltb, leb, ◌==◌, ◌&&◌,
  ◌||◌, not, if◌then◌else◌, Result, ok, err, raise_if, ◌>>=◌, ◌>>◌, archive_format,
}
use mosaic_archive.Struct.{Format, uint, str, size, pack, unpack}
use mosaic_archive.Text.{Text, Unicode, text_eq, has, is_member}
use mosaic_archive.Format.DedupHeader.{Msc3Header}
use mosaic_archive.Dedup.Frames.{read_exact}
use mosaic_archive.Dedup.Chunks.{ChunkRecord, check_record}
use mosaic_archive.Manifest.{
  kind_file, kind_folder, entry_file, entry_directory, zero_hash, Entry, entry_fixed, check_shape,
  encode_text, write_entries, read_path,
}

-- `b"M3MF"`
abbrev pub manifest_magic : Bytes
manifest_magic = 77 ∷ 51 ∷ 77 ∷ 70 ∷ []

-- `MANIFEST_PREFIX`, of the format ">4sBHIQ"
abbrev pub manifest_prefix : Format
manifest_prefix = str 4 ∷ uint 1 ∷ uint 2 ∷ uint 4 ∷ uint 8 ∷ []

-- `CHUNK_RECORD`, of the format ">32sIQ"
abbrev pub chunk_record : Format
chunk_record = str 32 ∷ uint 4 ∷ uint 8 ∷ []

abbrev pub max_chunk_records : ℕ
max_chunk_records = 16777215

pub record DedupManifest : Type 0 where
  pub kind : ℕ
  pub root_name : Text
  pub entries : List Entry
  pub chunks : List ChunkRecord

pub write_chunks : List ChunkRecord → Result Bytes
write_chunks [] = ok []
write_chunks (r ∷ rs) = do
  first ← pack chunk_record (r.digest, (r.size, (r.source_index, tt)))
  rest ← write_chunks rs
  ok (first ++ rest)

-- `for index in range(chunk_count)`: the chunks, how many are unique, and what is left of the data.
pub parse_chunks : ℕ → ℕ → List ChunkRecord → ℕ → Bytes → Result (List ChunkRecord × (ℕ × Bytes))
parse_chunks zero max_chunk_size chunks unique_count buf = ok (chunks, (unique_count, buf))
parse_chunks (suc n) max_chunk_size chunks unique_count buf = do
  (bytes, rest) ← read_exact buf (size chunk_record)
  (digest, (chunk_size, (source, _))) ← unpack chunk_record bytes
  let r : ChunkRecord = record { digest = digest; size = chunk_size; source_index = source }
  unique_count' ← check_record max_chunk_size chunks unique_count r
  parse_chunks n max_chunk_size (chunks ++ (r ∷ [])) unique_count' rest

-- `sum(chunk.size for chunk in chunks)`
abbrev pub total_size : List ChunkRecord → ℕ
total_size [] = 0
total_size (r ∷ rs) = r.size + total_size rs

-- The sizes of a file's chunks add up to its size.
pub check_sums : List ChunkRecord → List Entry → Result (Unit {0})
check_sums chunks [] = ok tt
check_sums chunks (e ∷ es) = do
  raise_if
      (e.entry_type == entry_file
        && not (total_size (take e.count (drop e.first chunks)) == e.size))
      archive_format
  check_sums chunks es

-- The tests on the range of chunks of an entry, and the chunk that is expected next.
pub check_range : ℕ → Entry → Result ℕ
check_range next e =
    if e.entry_type == entry_directory
    then (do
      raise_if
          (not (e.size == 0)
            || not (e.first == 0)
            || not (e.count == 0)
            || not (bytes_eq e.digest zero_hash))
          archive_format
      ok next)
    else (do
      raise_if
          (not (e.first == next) || (if e.size == 0 then not (e.count == 0) else (e.count == 0)))
          archive_format
      ok (next + e.count))

module _ (unicode : Unicode) where
  unfoldable pub serialize_dedup_manifest : DedupManifest → Result Bytes
  unfolding write_chunks
  serialize_dedup_manifest m = do
    root ← encode_text unicode m.root_name
    prefix ←
        pack manifest_prefix
          (manifest_magic, (m.kind, (length root, (length m.entries, (length m.chunks, tt)))))
    entries ← write_entries unicode m.entries
    chunks ← write_chunks m.chunks
    ok (prefix ++ (root ++ (entries ++ chunks)))

  -- One round of the loop over the entries: the entry, the next chunk, and what is left of the data.
  pub parse_entry : List Text → ℕ → Bytes → Result (Entry × (ℕ × Bytes))
  unfolding check_range
  parse_entry collisions next buf = do
    (fixed, after) ← read_exact buf (size entry_fixed)
    (entry_type, (path_length, (mode, (mtime_ns, (total, (first, (count, (digest, _)))))))) ←
        unpack entry_fixed fixed
    raise_if (not (entry_type == entry_file || entry_type == entry_directory) || ltb 511 mode)
        archive_format
    ((raw_path, relative), rest) ← read_path unicode after path_length
    raise_if (not (text_eq relative raw_path) || is_member (unicode.casefold relative) collisions)
        archive_format
    let e : Entry = record {
      entry_type = entry_type;
      relative_path = relative;
      mode = mode;
      mtime_ns = mtime_ns;
      size = total;
      first = first;
      count = count;
      digest = digest;
    }
    next' ← check_range next e
    ok (e, (next', rest))

  pub parse_entries : ℕ → List Text → ℕ → Bytes → Result (List Entry × (ℕ × Bytes))
  unfolding parse_entry
  parse_entries zero collisions next buf = ok ([], (next, buf))
  parse_entries (suc n) collisions next buf = do
    (e, (next', rest)) ← parse_entry collisions next buf
    (es, left) ← parse_entries n (unicode.casefold e.relative_path ∷ collisions) next' rest
    ok (e ∷ es, left)

  unfoldable pub parse_dedup_manifest : Bytes → Msc3Header → Result DedupManifest
  unfolding parse_entries parse_chunks check_sums
  parse_dedup_manifest buf header = do
    (prefix, after) ← read_exact buf (size manifest_prefix)
    (magic, (kind, (root_length, (entry_count, (chunk_count, _))))) ← unpack manifest_prefix prefix
    raise_if (not (bytes_eq magic manifest_magic) || not (kind == kind_file || kind == kind_folder))
        archive_format
    raise_if (ltb 1000000 entry_count || ltb max_chunk_records chunk_count) archive_format
    ((raw_root, root_name), rest) ← read_path unicode after root_length
    raise_if (not (text_eq raw_root root_name) || has 47 root_name) archive_format
    (entries, (next, after_entries)) ← parse_entries entry_count [] 0 rest
    raise_if (not (next == chunk_count)) archive_format
    (chunks, (unique_count, left)) ←
        parse_chunks chunk_count header.max_chunk_size [] 0 after_entries
    raise_if (not (length left == 0)) archive_format
    raise_if (not (unique_count + 1 == header.frame_count)) archive_format
    check_sums chunks entries
    check_shape kind root_name entries
    ok (record { kind = kind; root_name = root_name; entries = entries; chunks = chunks })
