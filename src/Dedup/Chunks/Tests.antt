-- ===== src/Dedup/Chunks/Tests.antt =====
-- The plan and its tests on three chunks, of which the last repeats the first.
use mosaic_archive.Base.{
  ℕ, ◌+◌, ◌≡◌, refl, ◌↔◌, List, [], ◌∷◌, map, Bytes, All, ok, err, archive_format, bytes_eq, arith,
}
use mosaic_archive.Dedup.Chunks.{
  ChunkRecord, lookup, set_default, plan_chunks, count_unique, check_record, check_records,
}
use mosaic_archive.Dedup.Chunks.Table.{IsTable, check_records_iff}
use mosaic_archive.Dedup.Chunks.Planning.{chunk_key, record_key, no_chunks, plan_chunks_lem}

-- A stand-in for the digest: the first byte.
abbrev first_byte : Bytes → Bytes
first_byte [] = []
first_byte (b ∷ bs) = b ∷ []

abbrev pieces : List Bytes
pieces = (7 ∷ 8 ∷ []) ∷ (9 ∷ []) ∷ (7 ∷ 8 ∷ []) ∷ []

abbrev record_of : ℕ → ℕ → ℕ → ChunkRecord
record_of byte size source = record { digest = byte ∷ []; size = size; source_index = source }

abbrev table : List ChunkRecord
table = record_of 7 2 0 ∷ record_of 9 1 1 ∷ record_of 7 2 0 ∷ []

plan-sample : (plan_chunks first_byte no_chunks pieces).chunks ≡ table
unfolding plan_chunks set_default lookup bytes_eq
plan-sample = refl

-- A reference to a record that refers on is refused.
chain_refused :
    check_records 4 [] 0 (record_of 7 2 0 ∷ record_of 7 2 0 ∷ record_of 7 2 1 ∷ [])
    ≡ err archive_format
unfolding check_records check_record bytes_eq
chain_refused = refl

check_records_iff_example :
    (check_records 4 [] 0 table ≡ ok 2) ↔ (IsTable 4 [] table × (2 ≡ 0 + count_unique 0 table))
check_records_iff_example = check_records_iff 4 [] 0 table 2

plan_chunks_lem_example :
    (map record_key (plan_chunks first_byte no_chunks pieces).chunks
      ≡ map (chunk_key first_byte) pieces)
    × (check_records 4 [] 0 (plan_chunks first_byte no_chunks pieces).chunks
        ≡ ok (count_unique 0 (plan_chunks first_byte no_chunks pieces).chunks))
    × All
        (λ q.
          All
            (λ r. q.digest ≡ r.digest → q.size ≡ r.size → q.source_index ≡ r.source_index)
            (plan_chunks first_byte no_chunks pieces).chunks)
        (plan_chunks first_byte no_chunks pieces).chunks
plan_chunks_lem_example =
    plan_chunks_lem first_byte 4 pieces
      ((omega arith, omega arith), ((omega arith, omega arith), ((omega arith, omega arith), tt)))
