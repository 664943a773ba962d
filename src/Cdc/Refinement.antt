-- ===== src/Cdc/Refinement.antt =====
-- One round of the chunker, against the chunks that the bytes alone determine.
use mosaic_archive.Base.{
  ℕ, suc, ◌+◌, ◌-◌, ◌≤◌, ◌<◌, ◌≡◌, refl, ap, sym, ◌∙◌, List, [], ◌∷◌, ◌++◌, append_assoc, Bytes,
  length, length-append, take, drop, take-append, drop-append, ltb, drop-drop, drop-split,
  length-take_within, drop-append_front, take-append_front, Option, none, some, Bool-cases, ltb→lt,
  ltb_false→le, inl, inr, arith,
}
use mosaic_archive.Cdc.{ChunkingConfig, Chunker, emit, after_scan}
use mosaic_archive.Cdc.Scan.{chunks, Outcome}

-- The buffer holds what is pending and the rest of the block.
pub record Buffered (block : Bytes) (s : Chunker) (pending : Bytes) : Type 0 where
  pub buffer : drop s.emitted_size s.chunk ≡ pending ++ drop s.position block
  pub sized : length pending ≡ s.chunk_size
  pub inside : s.position ≤ length block

-- After `n` more bytes of the block were taken into the chunk.
pub Buffered-move :
    (block : Bytes) (s t : Chunker) (pending : Bytes) (n : ℕ)
    → Buffered block s pending
    → s.position + n ≤ length block
    → (t.chunk ≡ s.chunk) × (t.emitted_size ≡ s.emitted_size)
    → (t.chunk_size ≡ s.chunk_size + n) × (t.position ≡ s.position + n)
    → Buffered block t (pending ++ take n (drop s.position block))
Buffered-move block s t pending n b room kept moved =
    let taken = take n (drop s.position block) in
    record {
      buffer =
          rw (kept.0, kept.1, moved.1)
            (b.buffer
              ∙ ap (λ r. pending ++ r) (drop-split s.position n block)
              ∙ sym (append_assoc pending taken (drop (s.position + n) block)));
      sized = omega (
        arith,
        length-append pending taken,
        length-take_within s.position n block room,
        b.sized,
        moved.0,
      );
      inside = omega (arith, moved.1);
    }

-- Emitting takes what is pending out of the buffer.
emitted_chunk :
    (block : Bytes) (s : Chunker) (pending : Bytes)
    → Buffered block s pending
    → take s.chunk_size (drop s.emitted_size s.chunk) ≡ pending
emitted_chunk block s pending b =
    rw (b.buffer) (take-append s.chunk_size pending (drop s.position block) (sym b.sized))

Buffered-emit :
    (block : Bytes) (s : Chunker) (pending : Bytes)
    → Buffered block s pending
    → Buffered block (emit s) []
Buffered-emit block s pending b = record {
  buffer =
      sym (drop-drop s.chunk_size s.emitted_size s.chunk)
      ∙ ap (λ r. drop s.chunk_size r) b.buffer
      ∙ drop-append s.chunk_size pending (drop s.position block) (sym b.sized);
  sized = refl;
  inside = b.inside;
}

module _ (gear : ℕ → ℕ) (config : ChunkingConfig) (block later : Bytes) where
  -- All chunks of the stream, those to come included.
  abbrev pub all_chunks : Chunker → Bytes → List Bytes
  all_chunks s pending =
      s.yielded ++ chunks gear config s.fingerprint pending (drop s.position block ++ later)

  -- A state that is ahead of `s` in the block, with the same chunks in all.
  pub record Advanced (s : Chunker) (pending : Bytes) (t : Chunker) : Type 0 where
    pub now_pending : Bytes
    pub keeps : Buffered block t now_pending
    pub small : t.chunk_size < config.max_size
    pub ahead : s.position < t.position
    pub same : all_chunks s pending ≡ all_chunks t now_pending

  emit_advances :
      (s t : Chunker) (pending grown : Bytes)
      → 0 < config.max_size
      → Buffered block t grown
      → s.position < t.position
      → s.yielded ≡ t.yielded
      → chunks gear config s.fingerprint pending (drop s.position block ++ later)
        ≡ grown ∷ chunks gear config 0 [] (drop t.position block ++ later)
      → Advanced s pending (emit t)
  emit_advances s t pending grown pos b ahead yields cut = record {
    now_pending = [];
    keeps = Buffered-emit block t grown b;
    small = pos;
    ahead = ahead;
    same =
        rw (cut, yields, emitted_chunk block t grown b)
          (sym (
            append_assoc t.yielded (grown ∷ [])
              (chunks gear config 0 [] (drop t.position block ++ later))));
  }

  -- The bytes up to the end of the scan, and what their scan leads to.
  module _ (s : Chunker) (pending : Bytes) (n : ℕ) (b : Buffered block s pending) (positive : 0 < n)
      (room : s.position + n ≤ length block) (upper : s.chunk_size + n ≤ config.max_size) where
    abbrev pub scanned : Bytes
    scanned = take n (drop s.position block)

    abbrev pub rest : Bytes
    rest = drop (s.position + n) block ++ later

    split : drop s.position block ++ later ≡ scanned ++ rest
    split =
        ap (λ r. r ++ later) (drop-split s.position n block)
        ∙ append_assoc (take n (drop s.position block)) (drop (s.position + n) block) later

    scanned-length : length scanned ≡ n
    scanned-length = length-take_within s.position n block room

    take-scanned : (m : ℕ) → m ≤ n → take m scanned ≡ take m (drop s.position block)
    take-scanned m le = sym (
        ap (λ r. take m r) (drop-split s.position n block)
        ∙ take-append_front m scanned (drop (s.position + n) block) (omega (arith, scanned-length)))

    drop-scanned : (m : ℕ) → m ≤ n → drop m scanned ++ rest ≡ drop (s.position + m) block ++ later
    drop-scanned m le =
        let tail = drop (s.position + n) block in
        sym (append_assoc (drop m scanned) tail later)
        ∙ ap (λ r. r ++ later)
            (sym (drop-append_front m scanned tail (omega (arith, scanned-length)))
              ∙ ap (λ r. drop m r) (sym (drop-split s.position n block))
              ∙ drop-drop m s.position block)

    pub after_scan_advances :
        (r : ℕ × Option ℕ)
        → Outcome gear config s.fingerprint pending scanned rest r
        → Advanced s pending (after_scan gear config (s.position + n) s r)
    after_scan_advances (f, none) h =
        let t : Chunker = record {
          chunk = s.chunk;
          chunk_size = s.chunk_size + (s.position + n - s.position);
          emitted_size = s.emitted_size;
          fingerprint = f;
          position = s.position + n;
          yielded = s.yielded;
        } in
        let grown : Buffered block t (pending ++ scanned) =
          Buffered-move block s t pending n b room (refl, refl) (omega arith, refl) in
        elim (Bool-cases (ltb t.chunk_size config.max_size)) [
          | inl small ↦ rw small (record {
            now_pending = pending ++ scanned;
            keeps = grown;
            small = ltb→lt t.chunk_size config.max_size small;
            ahead = omega arith;
            same =
                ap (λ r. s.yielded ++ r)
                  (ap (λ r. chunks gear config s.fingerprint pending r) split
                    ∙ h.0 (
                        omega (
                          arith,
                          ltb→lt t.chunk_size config.max_size small,
                          b.sized,
                          scanned-length,
                        )));
          })
          | inr full ↦ rw full (
              emit_advances s t pending (pending ++ scanned) (omega arith) grown (omega arith) refl
                (ap (λ r. chunks gear config s.fingerprint pending r) split
                  ∙ h.1
                      (omega (
                        arith,
                        ltb_false→le t.chunk_size config.max_size full,
                        b.sized,
                        scanned-length,
                      ))
                      (omega (arith, scanned-length))))
        ]
    after_scan_advances (f, some k) h =
        let t : Chunker = record {
          chunk = s.chunk;
          chunk_size = s.chunk_size + k + 1;
          emitted_size = s.emitted_size;
          fingerprint = f;
          position = s.position + k + 1;
          yielded = s.yielded;
        } in
        let same_place : s.position + suc k ≡ s.position + k + 1 = omega arith in
        let lt : k < n = omega (arith, h.0, scanned-length) in
        emit_advances s t pending (pending ++ take (suc k) (drop s.position block)) (omega arith)
          (Buffered-move block s t pending (suc k) b (omega arith) (refl, refl)
            (omega arith, omega arith))
          (omega arith) refl
          (ap (λ r. chunks gear config s.fingerprint pending r) split
            ∙ h.1
            ∙ ap (λ c. (pending ++ c) ∷ chunks gear config 0 [] (drop (suc k) scanned ++ rest))
                (take-scanned (suc k) (omega arith))
            ∙ ap
                (λ r. (pending ++ take (suc k) (drop s.position block)) ∷ chunks gear config 0 [] r)
                (drop-scanned (suc k) (omega arith) ∙ ap (λ m. drop m block ++ later) same_place))
