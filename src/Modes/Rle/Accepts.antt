-- ===== src/Modes/Rle/Accepts.antt =====
-- RLE: which payloads the decoder accepts, and what they mean.
use mosaic_archive.Base.{
  ℕ, ◌+◌, ◌%◌, ◌≤◌, ◌<◌, ◌≡◌, ◌↔◌, refl, [], ◌∷◌, ◌++◌, append-nil, append_assoc, Bytes, length,
  length-append, length-replicate, replicate, ◌==◌, not, ok, archive_format, arith, ==_refl,
  >>=-eq-ok, raise_if-eq-ok,
}
use mosaic_archive.Modes.Rle.{decode_loop, decode}

-- The meaning of a payload: its pairs, written out.
abbrev pub expand : Bytes → Bytes
expand [] = []
expand (n ∷ []) = []
expand (n ∷ b ∷ rest) = replicate n b ++ expand rest

-- Whole pairs, none of which is empty.
abbrev pub Runs : Bytes → Type 0
Runs [] = Unit
Runs (n ∷ []) = ⊥
Runs (n ∷ b ∷ rest) = (0 < n) × Runs rest

decode_loop_sound :
    (payload : Bytes) (size : ℕ) (out block : Bytes)
    → length payload % 2 ≡ 0
    → decode_loop payload size out ≡ ok block
    → Runs payload × (block ≡ out ++ expand payload)
unfolding decode_loop
decode_loop_sound [] size out block even h = (tt, rw append-nil (cc))
decode_loop_sound (n ∷ []) size out block even h = absurd (omega arith)
decode_loop_sound (n ∷ b ∷ rest) size out block even h = ground (
  arith,
  decode_loop_sound rest size (out ++ replicate n b) block (omega arith),
  append_assoc out (replicate n b) (expand rest),
)

decode_loop_complete :
    (payload : Bytes) (size : ℕ) (out : Bytes)
    → Runs payload
    → length out + length (expand payload) ≤ size
    → decode_loop payload size out ≡ ok (out ++ expand payload)
unfolding decode_loop
decode_loop_complete [] size out h k = rw append-nil
decode_loop_complete (n ∷ []) size out h k = absurd h
decode_loop_complete (n ∷ b ∷ rest) size out h k = ground (
  arith,
  length-append (replicate n b) (expand rest),
  length-append out (replicate n b),
  length-replicate n b,
  append_assoc out (replicate n b) (expand rest),
  decode_loop_complete rest size (out ++ replicate n b) h.1,
)

Runs-even : (payload : Bytes) → Runs payload → length payload % 2 ≡ 0
Runs-even [] h = refl
Runs-even (n ∷ []) h = absurd h
Runs-even (n ∷ b ∷ rest) h = omega (arith, Runs-even rest h.1)

-- The decoder accepts a payload exactly when it consists of whole non-empty runs that write out to
-- the expected size, and then it returns what they write out to.
pub rle_decode_iff :
    (payload : Bytes) (size : ℕ) (block : Bytes)
    → (decode payload size ≡ ok block)
      ↔ (Runs payload × (block ≡ expand payload) × (length block ≡ size))
unfolding decode
rle_decode_iff payload size block = (forward, backward)
  where
    forward :
        decode payload size ≡ ok block
        → Runs payload × (block ≡ expand payload) × (length block ≡ size)
    forward h =
        let (even, h1) = raise_if-eq-ok (not (length payload % 2 == 0)) archive_format _ h in
        let (output, e, h2) = >>=-eq-ok (decode_loop payload size []) _ h1 in
        let (r, w) = decode_loop_sound payload size [] output (ground arith) e in
        (r, ground arith, ground arith)

    backward :
        Runs payload × (block ≡ expand payload) × (length block ≡ size)
        → decode payload size ≡ ok block
    backward (r, e, k) = rw (
      Runs-even payload r,
      decode_loop_complete payload size [] r (rw (← e, k) (omega arith)),
      ← e,
      k,
      ==_refl,
    )
