-- ===== src/Modes/Rle/RoundTrip.antt =====
-- RLE: the round trip, and what a successful decode says of its payload.
use mosaic_archive.Base.{
  ℕ, zero, suc, ◌+◌, ◌*◌, ◌%◌, ◌≤◌, ◌<◌, ◌≡◌, refl, ap, ◌∙◌, [], ◌∷◌, ◌++◌, append-nil,
  append_assoc, Bytes, IsByte, All, length, length-append, length-replicate, replicate, ltb, ◌==◌,
  ◌&&◌, Bool-cases, inl, inr, if◌then◌else◌, ok, arith, ==_refl,
}
use native.Mathlib.Numerals.{add-one}
use mosaic_archive.Modes.Rle.{encode_loop, encode, decode_loop, decode}

-- What is still to be emitted, with no accumulator.
runs : ℕ → ℕ → Bytes → Bytes
runs b n [] = n ∷ b ∷ []
runs b n (byte ∷ rest) =
    let extended = runs b (n + 1) rest in
    let flushed = runs byte 1 rest in if byte == b && ltb n 255 then extended else n ∷ b ∷ flushed

encode_loop-runs : (b n : ℕ) (rest out : Bytes) → encode_loop b n rest out ≡ out ++ runs b n rest
unfolding encode_loop runs
encode_loop-runs b n [] out = refl
encode_loop-runs b n (byte ∷ rest) out = ground (
  arith,
  encode_loop-runs b (n + 1) rest out,
  encode_loop-runs byte 1 rest (out ++ (n ∷ b ∷ [])),
  append_assoc out (n ∷ b ∷ []) (runs byte 1 rest),
)

runs_even : (b n : ℕ) (rest : Bytes) → length (runs b n rest) % 2 ≡ 0
unfolding runs
runs_even b n [] = refl
runs_even b n (byte ∷ rest) = ground (arith, runs_even b (n + 1) rest, runs_even byte 1 rest)

length-runs : (b n : ℕ) (rest : Bytes) → length (runs b n rest) ≤ 2 * length rest + 2
unfolding runs
length-runs b n [] = omega arith
length-runs b n (byte ∷ rest) = ground (arith, length-runs b (n + 1) rest, length-runs byte 1 rest)

runs-IsByte :
    (b n : ℕ) (rest : Bytes) → IsByte b → n ≤ 255 → All IsByte rest → All IsByte (runs b n rest)
unfolding runs
runs-IsByte b n [] hb hn h = omega arith
runs-IsByte b n (byte ∷ rest) hb hn (h, hs) =
    ground (arith, runs-IsByte b (n + 1) rest, runs-IsByte byte 1 rest)

replicate_snoc :
    (n b : ℕ) (rest : Bytes) → replicate (n + 1) b ++ rest ≡ replicate n b ++ (b ∷ rest)
replicate_snoc n b rest = rw add-one (go n)
  where
    go : (n : ℕ) → b ∷ (replicate n b ++ rest) ≡ replicate n b ++ (b ∷ rest)
    go zero = refl
    go (suc n) = ap (λ r. b ∷ r) (go n)

decode_run :
    (b n size : ℕ) (rest out : Bytes)
    → 0 < n
    → length out + n ≤ size
    → decode_loop (n ∷ b ∷ rest) size out ≡ decode_loop rest size (out ++ replicate n b)
unfolding decode_loop
decode_run b n size rest out h k = ground arith

decode_loop-runs :
    (b n size : ℕ) (rest out : Bytes)
    → 0 < n
    → length out + n + length rest ≤ size
    → decode_loop (runs b n rest) size out ≡ ok (out ++ (replicate n b ++ rest))
unfolding runs
decode_loop-runs b n size [] out h k =
    decode_run b n size [] out h (omega arith) ∙ unfold decode_loop in rw (append-nil)
decode_loop-runs b n size (byte ∷ rest) out h k = elim (Bool-cases (byte == b && ltb n 255)) [
  | inl e ↦
      let same : byte ≡ b = ground arith in
      rw (e, same)
        (decode_loop-runs b (n + 1) size rest out (omega arith) (omega arith)
          ∙ ap (λ r. ok (out ++ r)) (replicate_snoc n b rest))
  | inr e ↦ rw e (
      decode_run b n size (runs byte 1 rest) out h (omega arith)
      ∙ decode_loop-runs byte 1 size rest (out ++ replicate n b) (omega arith)
          (omega (arith, length-append out (replicate n b), length-replicate n b))
      ∙ ap ok (append_assoc out (replicate n b) (byte ∷ rest)))
]

-- `encode` writes the runs of the block.
encode-runs : (b : ℕ) (rest : Bytes) → encode (b ∷ rest) ≡ runs b 1 rest
unfolding encode
encode-runs b rest = encode_loop-runs b 1 rest []

-- Decoding what `encode` wrote for any byte string, with the length of that string as the expected
-- size, gives the string back.
pub rle_round_trip : (block : Bytes) → decode (encode block) (length block) ≡ ok block
unfolding decode
rle_round_trip [] = unfold encode decode_loop in refl
rle_round_trip (b ∷ rest) = rw (
  encode-runs b rest,
  runs_even b 1 rest,
  decode_loop-runs b 1 (suc (length rest)) rest [] (omega arith) (omega arith),
  ==_refl,
)

-- What `encode` writes for bytes is bytes, and at most two for each byte of the block.
pub rle_encode_bounds :
    (block : Bytes)
    → All IsByte block
    → All IsByte (encode block) × (length (encode block) ≤ 2 * length block)
rle_encode_bounds [] h = unfold encode in (tt, omega arith)
rle_encode_bounds (b ∷ rest) h =
    rw encode-runs (runs-IsByte b 1 rest h.0 (omega arith) h.1, omega (arith, length-runs b 1 rest))
