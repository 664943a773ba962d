-- ===== src/Cdc/Iteration.antt =====
-- The rounds of a block, the blocks of a stream, and the chunks that come of them.
use mosaic_archive.Base.{
  All, ℕ, zero, suc, ◌+◌, ◌-◌, min, ◌≤◌, ◌<◌, ◌≡◌, refl, ap, sym, ◌∙◌, List, [], ◌∷◌, ◌++◌,
  append-nil, append_assoc, Bytes, length, take, drop, join, ltb, leb, drop-split,
  length-take_within, drop_all, Bool-cases, le→ltb_false, ltb→lt, ltb_false→le, leb→le, inl, inr,
  arith, Result, ok,
}
use mosaic_archive.Cdc.{
  post_init, ChunkingConfig, Chunker, find_boundary, skip_bytes, scan_bytes, block_round,
  block_loop, begin_block, end_block, read_blocks, last_chunk, iter_content_defined_chunks,
}
use mosaic_archive.Cdc.Boundaries.{
  chunks_from, join-chunks_from, chunks_from-max, chunks_from-min, AllButLast,
}
use mosaic_archive.Cdc.Scan.{next, chunks, skip_run, find_boundary_lem}
use mosaic_archive.Cdc.Refinement.{
  Buffered, Buffered-move, Advanced, all_chunks, after_scan_advances,
}

-- Bytes that are skipped, where there are any, leave the chunk shorter than the least size.
skip_any :
    (gear : ℕ → ℕ) (config : ChunkingConfig) (fingerprint : ℕ) (pending xs ys : Bytes)
    → (0 < length xs → length pending + length xs < config.min_size)
    → chunks gear config fingerprint pending (xs ++ ys)
      ≡ chunks gear config fingerprint (pending ++ xs) ys
skip_any gear config fingerprint pending [] ys h =
    ap (λ p. chunks gear config fingerprint p ys) (sym (append-nil pending))
skip_any gear config fingerprint pending (x ∷ xs) ys h =
    skip_run gear config fingerprint pending (x ∷ xs) ys (h (omega arith))

post_init→sizes :
    (config : ChunkingConfig)
    → post_init config ≡ ok tt
    → (64 ≤ config.min_size) × (config.min_size ≤ config.max_size)
unfolding post_init
post_init→sizes config h = (ground arith, ground arith)

module _ (gear : ℕ → ℕ) (config : ChunkingConfig) (low : 1 ≤ config.min_size)
    (high : config.min_size ≤ config.max_size) where
  module _ (block later : Bytes) where
    scan_advances :
        (s : Chunker) (pending : Bytes)
        → Buffered block s pending
        → s.position < length block
        → s.chunk_size < config.max_size
        → config.min_size ≤ s.chunk_size + 1
        → Advanced gear config block later s pending (scan_bytes gear config block s)
    scan_advances s pending b inside small long =
        let scan_end = min (length block) (s.position + config.max_size - s.chunk_size) in
        let n = scan_end - s.position in
        let place : s.position + n ≡ scan_end = omega arith in
        let xs = take n (drop s.position block) in
        let xs_length = length-take_within s.position n block (omega arith) in
        rw place at (
          after_scan_advances gear config block later s pending n b (omega arith) (omega arith)
            (omega arith) (find_boundary gear config s.fingerprint xs)
            (find_boundary_lem gear config s.fingerprint pending xs
              (drop (s.position + n) block ++ later) (omega (arith, b.sized))
              (omega (arith, b.sized, xs_length))))

    block_round_advances :
        (s : Chunker) (pending : Bytes)
        → Buffered block s pending
        → s.position < length block
        → s.chunk_size < config.max_size
        → Advanced gear config block later s pending (block_round gear config block s)
    unfolding block_round
    block_round_advances s pending b inside small =
        let skip = min (config.min_size - 1 - s.chunk_size) (length block - s.position) in
        let skipped = skip_bytes gear config block s in
        let xs = take skip (drop s.position block) in
        let ys = drop (s.position + skip) block ++ later in
        let xs_length = length-take_within s.position skip block (omega arith) in
        let moved : Buffered block skipped (pending ++ xs) =
          Buffered-move block s skipped pending skip b (omega arith) (refl, refl) (refl, refl) in
        let same : all_chunks gear config block later s pending
            ≡ all_chunks gear config block later skipped (pending ++ xs) =
          ap (λ r. s.yielded ++ chunks gear config s.fingerprint pending r)
            (ap (λ r. r ++ later) (drop-split s.position skip block)
              ∙ append_assoc xs (drop (s.position + skip) block) later)
          ∙ ap (λ r. s.yielded ++ r)
              (skip_any gear config s.fingerprint pending xs ys
                (λ pos. omega (arith, xs_length, b.sized))) in
        elim (Bool-cases (leb (length block) skipped.position)) [
          | inl done ↦ rw done (record {
            now_pending = pending ++ xs;
            keeps = moved;
            small = omega arith;
            ahead = omega (arith, leb→le (length block) skipped.position done);
            same = same;
          })
          | inr more ↦ rw more (
              let here : skipped.position < length block = ground arith in
              let next =
                scan_advances skipped (pending ++ xs) moved here (omega arith) (omega arith) in
              record {
                now_pending = next.now_pending;
                keeps = next.keeps;
                small = next.small;
                ahead = omega (arith, next.ahead);
                same = same ∙ next.same;
              })
        ]

    -- Where a block has been read to its end.
    record Finished (s : Chunker) (pending : Bytes) (result : Result Chunker) : Type 0 where
      last : Chunker
      last_pending : Bytes
      returns : result ≡ ok last
      keeps : Buffered block last last_pending
      small : last.chunk_size < config.max_size
      at_end : last.position ≡ length block
      same :
          all_chunks gear config block later s pending
          ≡ all_chunks gear config block later last last_pending

    block_loop_finishes :
        (fuel : ℕ) (s : Chunker) (pending : Bytes)
        → Buffered block s pending
        → s.chunk_size < config.max_size
        → length block ≤ s.position + fuel
        → Finished s pending (block_loop gear config fuel block s)
    unfolding block_loop
    block_loop_finishes zero s pending b small enough = record {
      last = s;
      last_pending = pending;
      returns = rw (le→ltb_false (length block) s.position (omega arith)) refl;
      keeps = b;
      small = small;
      at_end = omega (arith, b.inside);
      same = refl;
    }
    block_loop_finishes (suc fuel) s pending b small enough =
        elim (Bool-cases (ltb s.position (length block))) [
          | inl more ↦
              let next =
                block_round_advances s pending b (ltb→lt s.position (length block) more) small in
              let rest =
                block_loop_finishes fuel (block_round gear config block s) next.now_pending
                  next.keeps next.small (omega (arith, next.ahead)) in
              record {
                last = rest.last;
                last_pending = rest.last_pending;
                returns = rw (block_loop, more) rest.returns;
                keeps = rest.keeps;
                small = rest.small;
                at_end = rest.at_end;
                same = next.same ∙ rest.same;
              }
          | inr done ↦ record {
            last = s;
            last_pending = pending;
            returns = rw (block_loop, done) refl;
            keeps = b;
            small = small;
            at_end = omega (arith, b.inside, ltb_false→le s.position (length block) done);
            same = refl;
          }
        ]

  -- Between two blocks the buffer holds what is pending.
  read_blocks_lem :
      (blocks : List Bytes) (s : Chunker)
      → s.emitted_size ≡ 0
      → s.chunk_size ≡ length s.chunk
      → s.chunk_size < config.max_size
      → (t : Chunker) × (read_blocks gear config blocks s ≡ ok t)
        × (s.yielded ++ chunks gear config s.fingerprint s.chunk (join blocks)
            ≡ t.yielded ++ last_chunk t.chunk)
  unfolding read_blocks
  read_blocks_lem [] s e sized small = (s, refl, unfold chunks_from in refl)
  read_blocks_lem (block ∷ blocks) s e sized small =
      let began : Buffered block (begin_block block s) s.chunk = record {
        buffer = rw e refl;
        sized = sym sized;
        inside = omega arith;
      } in
      let f =
        block_loop_finishes block (join blocks) (length block) (begin_block block s) s.chunk began
          small (omega arith) in
      let left : drop f.last.position block ≡ [] =
        drop_all f.last.position block (omega (arith, f.at_end)) in
      let kept : drop f.last.emitted_size f.last.chunk ≡ f.last_pending =
        f.keeps.buffer ∙ rw left (append-nil f.last_pending) in
      let rest =
        read_blocks_lem blocks (end_block f.last) refl (rw kept (sym f.keeps.sized)) f.small in
      (
        rest.0,
        rw f.returns rest.1,
        f.same
            ∙ ap
                (λ r.
                  f.last.yielded
                  ++ chunks gear config f.last.fingerprint f.last_pending (r ++ join blocks))
                left
            ∙ ap (λ p. f.last.yielded ++ chunks gear config f.last.fingerprint p (join blocks))
                (sym kept)
            ∙ rest.2,
      )

-- In whatever blocks a stream is read, the chunker ends and yields the chunks that the bytes of the
-- whole stream determine, provided that the sizes of the configuration are in order.
pub iter_content_defined_chunks_lem :
    (gear : ℕ → ℕ) (config : ChunkingConfig) (blocks : List Bytes)
    → post_init config ≡ ok tt
    → iter_content_defined_chunks gear config blocks ≡ ok (chunks gear config 0 [] (join blocks))
unfolding iter_content_defined_chunks
iter_content_defined_chunks_lem gear config blocks valid =
    let sizes = post_init→sizes config valid in
    let start : Chunker = record {
      chunk = [];
      chunk_size = 0;
      emitted_size = 0;
      fingerprint = 0;
      position = 0;
      yielded = [];
    } in
    let run =
      read_blocks_lem gear config (omega (arith, sizes.0)) sizes.1 blocks start refl refl
        (omega (arith, sizes)) in
    rw run.1 (ap ok (sym run.2))

-- The chunks put together are the stream; none is longer than the greatest size, and none
-- but the last is shorter than the least size.
pub iter_content_defined_chunks_bounds :
    (gear : ℕ → ℕ) (config : ChunkingConfig) (blocks : List Bytes)
    → post_init config ≡ ok tt
    → (chunks : List Bytes) × (iter_content_defined_chunks gear config blocks ≡ ok chunks)
      × (join chunks ≡ join blocks)
      × All (λ c. length c ≤ config.max_size) chunks
      × AllButLast (λ c. config.min_size ≤ length c) chunks
iter_content_defined_chunks_bounds gear config blocks valid =
    let sizes = post_init→sizes config valid in
    let step = next gear config in
    (
      chunks gear config 0 [] (join blocks),
      iter_content_defined_chunks_lem gear config blocks valid,
      join-chunks_from step config.min_size config.max_size 0 [] (join blocks),
      chunks_from-max step config.min_size config.max_size 0 [] (join blocks) sizes.1
          (omega (arith, sizes)),
      chunks_from-min step config.min_size config.max_size 0 [] (join blocks),
    )
