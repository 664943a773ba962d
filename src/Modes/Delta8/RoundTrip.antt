-- ===== src/Modes/Delta8/RoundTrip.antt =====
-- DELTA8: the round trip, on top of that of RLE.
use mosaic_archive.Base.{
  ℕ, suc, ◌+◌, ◌-◌, ◌*◌, ◌%◌, ◌≤◌, ◌<◌, ◌≡◌, refl, sym, ap, ◌∙◌, [], ◌∷◌, ◌++◌, append-nil,
  append_assoc, Bytes, IsByte, All, length, length-append, ok, arith,
}
use mosaic_archive.Modes.Rle
use mosaic_archive.Modes.Rle.RoundTrip
use mosaic_archive.Modes.Delta8.{deltas, encode, sums, decode}

length-deltas : (p : ℕ) (rest : Bytes) → length (deltas p rest) ≡ length rest
unfolding deltas
length-deltas p [] = refl
length-deltas p (c ∷ rest) = ap suc (length-deltas c rest)

deltas-IsByte : (p : ℕ) (rest : Bytes) → All IsByte (deltas p rest)
unfolding deltas
deltas-IsByte p [] = tt
deltas-IsByte p (c ∷ rest) = (omega arith, deltas-IsByte c rest)

-- Adding a byte's wrapped difference to its neighbour gives the byte.
undo : (p c : ℕ) → p < 256 → c < 256 → (p + (c + 256 - p) % 256) % 256 ≡ c
undo p c hp hc = omega arith

sums-deltas :
    (p : ℕ) (rest out : Bytes)
    → IsByte p
    → All IsByte rest
    → sums p (deltas p rest) out ≡ out ++ rest
unfolding sums deltas
sums-deltas p [] out hp h = sym (append-nil out)
sums-deltas p (c ∷ rest) out hp (hc, hs) =
    rw (undo p c hp hc, sums)
      (sums-deltas c rest (out ++ (c ∷ [])) hc hs ∙ append_assoc out (c ∷ []) rest)

-- Decoding what `encode` wrote for a byte string, with its length as the expected size, gives the
-- string back.
pub delta8_round_trip :
    (block : Bytes) → All IsByte block → decode (encode block) (length block) ≡ ok block
unfolding decode encode
delta8_round_trip [] h = refl
delta8_round_trip (first ∷ rest) (hf, hs) =
    let ds = deltas first rest in
    let n : suc (length rest) - 1 ≡ length ds = omega (arith, length-deltas first rest) in
    let inner : Rle.decode (Rle.encode ds) (suc (length rest) - 1) ≡ ok ds =
      rw n (Rle.RoundTrip.rle_round_trip ds) in
    ground (arith, inner, sums-deltas first rest (first ∷ []) hf hs)

length-sums : (last : ℕ) (ds out : Bytes) → length (sums last ds out) ≡ length out + length ds
unfolding sums
length-sums last [] out = omega arith
length-sums last (d ∷ ds) out = omega (
  arith,
  length-sums ((last + d) % 256) ds (out ++ ((last + d) % 256 ∷ [])),
  length-append out ((last + d) % 256 ∷ []),
)

-- What `encode` writes for bytes is bytes, and at most two for each byte of the block.
pub delta8_encode_bounds :
    (block : Bytes)
    → All IsByte block
    → All IsByte (encode block) × (length (encode block) ≤ 2 * length block)
unfolding encode
delta8_encode_bounds [] h = (tt, omega arith)
delta8_encode_bounds (first ∷ rest) h =
    let (bytes, len) =
      Rle.RoundTrip.rle_encode_bounds (deltas first rest) (deltas-IsByte first rest) in
    ((h.0, bytes), omega (arith, len, length-deltas first rest))

-- A successful decode of a payload that is not empty returns as many bytes as expected, at least one.
pub delta8_decode_sized :
    (first : ℕ) (rest : Bytes) (size : ℕ) (block : Bytes)
    → decode (first ∷ rest) size ≡ ok block
    → (length block ≡ size) × (0 < size)
unfolding decode
delta8_decode_sized first rest size block h = ground arith
