-- ===== src/Dedup/Chunks.antt =====
-- The table of chunks of dedup_archive.py: its plan in `_scan_manifest`, where a chunk that was met
-- before refers back to its first occurrence, and the tests on it in `parse_dedup_manifest`.
pub mod Table
pub mod Lookup
pub mod Planning
mod Tests
use mosaic_archive.Base.{
  ℕ, suc, ◌+◌, List, [], ◌∷◌, ◌++◌, Bytes, length, get_elem?, Bool, true, false, not, ◌&&◌, ◌||◌,
  leb, ◌==◌, bytes_eq, if◌then◌else◌, Option, none, some, Result, ok, err, raise_if, ◌>>=◌, ◌>>◌,
  archive_format, index_error,
}

pub record ChunkRecord : Type 0 where
  pub digest : Bytes
  pub size : ℕ
  pub source_index : ℕ

-- `canonical`: the index of the first chunk with a digest and a size.
abbrev pub Canonical : Type 0
Canonical = List ((Bytes × ℕ) × ℕ)

unfoldable pub lookup : Bytes → ℕ → Canonical → Option ℕ
unfolding bytes_eq
lookup digest size [] = none
lookup digest size (((digest', size'), index) ∷ rest) =
    let later = lookup digest size rest in
    if bytes_eq digest digest' && size == size' then some index else later

-- `canonical.setdefault(key, index)`
unfoldable pub set_default : Bytes → ℕ → ℕ → Canonical → ℕ × Canonical
unfolding lookup
set_default digest size index canonical = elim (lookup digest size canonical) [
  | some found ↦ (found, canonical)
  | none ↦ (index, ((digest, size), index) ∷ canonical)
]

pub record Plan : Type 0 where
  pub canonical : Canonical
  pub chunks : List ChunkRecord

-- `sha256` stands for `hashlib.sha256(chunk).digest()`.
module _ (sha256 : Bytes → Bytes) where
  abbrev pub plan_chunk : Plan → Bytes → Plan
  plan_chunk s chunk =
      let digest = sha256 chunk in
      let found = set_default digest (length chunk) (length s.chunks) s.canonical in
      record {
        canonical = found.1;
        chunks =
            s.chunks
            ++ (record { digest = digest; size = length chunk; source_index = found.0 } ∷ []);
      }

  -- The chunks of all files, in their order.
  unfoldable pub plan_chunks : Plan → List Bytes → Plan
  plan_chunks s [] = s
  plan_chunks s (chunk ∷ rest) = plan_chunks (plan_chunk s chunk) rest

-- `sum(chunk.source_index == index for index, chunk in enumerate(chunks))`
unfoldable pub count_unique : ℕ → List ChunkRecord → ℕ
count_unique index [] = 0
count_unique index (r ∷ rest) =
    (if r.source_index == index then 1 else 0) + count_unique (index + 1) rest

-- The tests on one record, behind the records before it; the unique chunks are counted.
unfoldable pub check_record : ℕ → List ChunkRecord → ℕ → ChunkRecord → Result ℕ
unfolding bytes_eq
check_record max_chunk_size chunks unique_count r = do
  raise_if (not (leb 1 r.size && leb r.size max_chunk_size)) archive_format
  if r.source_index == length chunks then ok (unique_count + 1) else do
    raise_if (leb (length chunks) r.source_index) archive_format
    elim (get_elem? chunks r.source_index) [
      | none ↦ err index_error
      | some canonical ↦ do
        raise_if (not (canonical.source_index == r.source_index)) archive_format
        raise_if (not (bytes_eq canonical.digest r.digest) || not (canonical.size == r.size))
            archive_format
        ok unique_count
    ]

unfoldable pub check_records : ℕ → List ChunkRecord → ℕ → List ChunkRecord → Result ℕ
unfolding check_record
check_records max_chunk_size chunks unique_count [] = ok unique_count
check_records max_chunk_size chunks unique_count (r ∷ rest) = do
  unique_count' ← check_record max_chunk_size chunks unique_count r
  check_records max_chunk_size (chunks ++ (r ∷ [])) unique_count' rest
