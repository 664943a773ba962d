-- ===== src/Manifest/Stream.antt =====
-- stream_archive.py: `serialize_manifest` and `parse_manifest` of MSC2.
pub mod RoundTrip
mod Tests
use mosaic_archive.Base.{
  ℕ, zero, suc, ◌+◌, ◌-◌, ◌/◌, List, [], ◌∷◌, ◌++◌, Bytes, length, bytes_eq, ltb, ◌==◌, ◌&&◌, ◌||◌,
  not, if◌then◌else◌, Result, ok, err, raise_if, ◌>>=◌, ◌>>◌, archive_format,
}
use mosaic_archive.Struct.{Format, uint, str, size, pack, unpack}
use mosaic_archive.Text.{Text, Unicode, text_eq, has, is_member}
use mosaic_archive.Format.StreamHeader.{Msc2Header}
use mosaic_archive.Dedup.Frames.{read_exact}
use mosaic_archive.Manifest.{
  kind_file, kind_folder, entry_file, entry_directory, zero_hash, Entry, entry_fixed, check_shape,
  encode_text, write_entries, read_path,
}

-- `b"M2MF"`
abbrev pub manifest_magic : Bytes
manifest_magic = 77 ∷ 50 ∷ 77 ∷ 70 ∷ []

-- `MANIFEST_PREFIX`, of the format ">4sBHI"
abbrev pub manifest_prefix : Format
manifest_prefix = str 4 ∷ uint 1 ∷ uint 2 ∷ uint 4 ∷ []

abbrev pub max_entry_count : ℕ
max_entry_count = 1000000

pub record Manifest : Type 0 where
  pub kind : ℕ
  pub root_name : Text
  pub entries : List Entry

-- The tests on the range of frames of an entry, and the frame that is expected next.
pub check_range : ℕ → ℕ → Entry → Result ℕ
check_range chunk_size next e =
    if e.entry_type == entry_directory
    then (do
      raise_if
          (not (e.size == 0)
            || not (e.first == 0)
            || not (e.count == 0)
            || not (bytes_eq e.digest zero_hash))
          archive_format
      ok next)
    else (do
      raise_if (not (e.count == (e.size + chunk_size - 1) / chunk_size) || not (e.first == next))
          archive_format
      ok (next + e.count))

module _ (unicode : Unicode) where
  unfoldable pub serialize_manifest : Manifest → Result Bytes
  serialize_manifest m = do
    root ← encode_text unicode m.root_name
    prefix ← pack manifest_prefix (manifest_magic, (m.kind, (length root, (length m.entries, tt))))
    entries ← write_entries unicode m.entries
    ok (prefix ++ (root ++ entries))

  -- One round of the loop over the entries: the entry, the next frame, and what is left of the data.
  pub parse_entry : ℕ → List Text → ℕ → Bytes → Result (Entry × (ℕ × Bytes))
  unfolding check_range
  parse_entry chunk_size collision_keys next buf = do
    (fixed, after) ← read_exact buf (size entry_fixed)
    (entry_type, (path_length, (mode, (mtime_ns, (total, (first, (count, (digest, _)))))))) ←
        unpack entry_fixed fixed
    raise_if (not (entry_type == entry_file || entry_type == entry_directory)) archive_format
    ((raw_path, relative_path), rest) ← read_path unicode after path_length
    raise_if (not (text_eq relative_path raw_path)) archive_format
    raise_if (is_member (unicode.casefold relative_path) collision_keys) archive_format
    raise_if (ltb 511 mode) archive_format
    let e : Entry = record {
      entry_type = entry_type;
      relative_path = relative_path;
      mode = mode;
      mtime_ns = mtime_ns;
      size = total;
      first = first;
      count = count;
      digest = digest;
    }
    next' ← check_range chunk_size next e
    ok (e, (next', rest))

  pub parse_entries : ℕ → ℕ → List Text → ℕ → Bytes → Result (List Entry × (ℕ × Bytes))
  unfolding parse_entry
  parse_entries zero chunk_size collision_keys next buf = ok ([], (next, buf))
  parse_entries (suc n) chunk_size collision_keys next buf = do
    (e, (next', rest)) ← parse_entry chunk_size collision_keys next buf
    (es, left) ←
        parse_entries n chunk_size (unicode.casefold e.relative_path ∷ collision_keys) next' rest
    ok (e ∷ es, left)

  unfoldable pub parse_manifest : Bytes → Msc2Header → Result Manifest
  unfolding parse_entries
  parse_manifest buf header = do
    (prefix, after) ← read_exact buf (size manifest_prefix)
    (magic, (kind, (root_length, (entry_count, _)))) ← unpack manifest_prefix prefix
    raise_if (not (bytes_eq magic manifest_magic) || not (kind == kind_file || kind == kind_folder))
        archive_format
    raise_if (ltb max_entry_count entry_count) archive_format
    ((raw_root_name, root_name), rest) ← read_path unicode after root_length
    raise_if (has 47 root_name || not (text_eq root_name raw_root_name)) archive_format
    (entries, (next, left)) ← parse_entries entry_count header.chunk_size [] 1 rest
    raise_if (not (length left == 0)) archive_format
    raise_if (not (next == header.frame_count)) archive_format
    check_shape kind root_name entries
    ok (record { kind = kind; root_name = root_name; entries = entries })
