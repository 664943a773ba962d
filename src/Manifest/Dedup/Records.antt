-- ===== src/Manifest/Dedup/Records.antt =====
-- MSC3: the records of a chunk table are written, and read back with their tests.
use mosaic_archive.Base.{
  ℕ, ◌^◌, ◌<◌, ◌≡◌, refl, sym, ap, List, [], ◌∷◌, ◌++◌, append-nil, append_assoc, Bytes, All,
  length, ok, ok-inj, >>=-eq-ok,
}
use mosaic_archive.Struct.{size}
use mosaic_archive.Struct.RoundTrip.{pack_total, unpack-sized}
use mosaic_archive.Dedup.Frames.RoundTrip.{read_exact-append}
use mosaic_archive.Dedup.Chunks.{ChunkRecord, check_record, check_records}
use mosaic_archive.Manifest.Dedup.{chunk_record, write_chunks, parse_chunks}

-- The numbers of a record fit their fields.
pub record FitsRecord (r : ChunkRecord) : Type 0 where
  pub digest_fits : length r.digest ≡ 32
  pub size_fits : r.size < 2 ^ 32
  pub source_fits : r.source_index < 2 ^ 64

pub record WrittenChunks (max_chunk_size : ℕ) (chunks : List ChunkRecord) (unique : ℕ)
    (rs : List ChunkRecord) (found : ℕ) : Type 0 where
  pub bytes : Bytes
  pub writes : write_chunks rs ≡ ok bytes
  pub parses :
      (tail : Bytes)
      → parse_chunks (length rs) max_chunk_size chunks unique (bytes ++ tail)
        ≡ ok (chunks ++ rs, (found, tail))

written_one :
    (max_chunk_size : ℕ) (chunks : List ChunkRecord) (unique unique' : ℕ) (r : ChunkRecord)
    (rs : List ChunkRecord) (found : ℕ)
    → FitsRecord r
    → check_record max_chunk_size chunks unique r ≡ ok unique'
    → WrittenChunks max_chunk_size (chunks ++ (r ∷ [])) unique' rs found
    → WrittenChunks max_chunk_size chunks unique (r ∷ rs) found
unfolding write_chunks parse_chunks
written_one max_chunk_size chunks unique unique' r rs found h checked more =
    let p =
      pack_total chunk_record (r.digest, (r.size, (r.source_index, tt)))
        (h.digest_fits, (h.size_fits, (h.source_fits, tt))) in
    record {
      bytes = p.bytes ++ more.bytes;
      writes = rw (p.packs, more.writes);
      parses = λ tail. rw (
        append_assoc p.bytes more.bytes tail,
        read_exact-append p.bytes (more.bytes ++ tail) (size chunk_record) (sym p.sized),
        unpack-sized chunk_record p.bytes p.sized,
        p.reads,
        checked,
        more.parses tail,
        append_assoc chunks (r ∷ []) rs,
      );
    }

pub written_chunks :
    (max_chunk_size : ℕ) (chunks : List ChunkRecord) (unique : ℕ) (rs : List ChunkRecord)
    (found : ℕ)
    → All FitsRecord rs
    → check_records max_chunk_size chunks unique rs ≡ ok found
    → WrittenChunks max_chunk_size chunks unique rs found
unfolding write_chunks parse_chunks check_records
written_chunks max_chunk_size chunks unique [] found h k = record {
  bytes = [];
  writes = refl;
  parses = λ tail. rw append-nil (ap (λ n. ok (chunks, (n, tail))) (ok-inj k));
}
written_chunks max_chunk_size chunks unique (r ∷ rs) found h k =
    let (unique', first, rest) =
      >>=-eq-ok (check_record max_chunk_size chunks unique r)
        (λ u. check_records max_chunk_size (chunks ++ (r ∷ [])) u rs) k in
    written_one max_chunk_size chunks unique unique' r rs found h.0 first
      (written_chunks max_chunk_size (chunks ++ (r ∷ [])) unique' rs found h.1 rest)
