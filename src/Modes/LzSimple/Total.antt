-- ===== src/Modes/LzSimple/Total.antt =====
-- LZ_SIMPLE: the decoder ends on every payload, and never grows its output beyond the expected size.
use mosaic_archive.Base.{
  ℕ, zero, suc, ◌+◌, ◌≤◌, ◌≡◌, ◌⊎◌, refl, [], ◌∷◌, ◌++◌, Bytes, length, length-append, length-take,
  length-drop, take, drop, arith, ltb, ◌==◌, ◌||◌, Bool, true, false, Bool-cases, inl, inr, Result,
  ok, err, raise_if, Result-cases, ◌>>◌, ◌>>=◌, ltb_false→le, archive_format,
}
use mosaic_archive.Struct.{uint, unpack_values}
use mosaic_archive.Struct.RoundTrip.{unpack_from-ok}
use mosaic_archive.Modes.LzSimple.Copied.{length-copied, copy-ok}
use mosaic_archive.Modes.LzSimple.{
  minimum_match, copy, decode_literal, decode_match, decode_token, decode_loop, decode,
}

-- What a token leaves: no more of the payload, and an output within the size; or a format error.
abbrev TokenResult : ℕ → Bytes → Result (Bytes × Bytes) → Type 0
TokenResult size payload (ok (rest, out)) = (length rest ≤ length payload) × (length out ≤ size)
TokenResult size payload (err e) = e ≡ archive_format

-- A guard that raises the format error keeps the promise.
raise_if-TokenResult :
    (size : ℕ) (payload : Bytes) (b : Bool) (m : Result (Bytes × Bytes))
    → (b ≡ false → TokenResult size payload m)
    → TokenResult size payload (raise_if b archive_format >> m)
raise_if-TokenResult size payload true m h = refl
raise_if-TokenResult size payload false m h = h refl

decode_literal_bounds :
    (size : ℕ) (payload out : Bytes) → TokenResult size payload (decode_literal size payload out)
unfolding decode_literal
decode_literal_bounds size payload out =
    raise_if-TokenResult size payload (ltb (length payload) 2) _ λ short.
      rw (unpack_from-ok (uint 2 ∷ []) payload (ltb_false→le (length payload) 2 short)) (
        raise_if-TokenResult size payload (n == 0 || ltb (length (drop 2 payload)) n) _ λ valid.
          raise_if-TokenResult size payload (ltb size (length out + n)) _ λ fits. (
            omega (arith, length-drop n (drop 2 payload), length-drop 2 payload),
            grown (ground arith),
          ))
  where
    n : ℕ
    n = (unpack_values (uint 2 ∷ []) payload).0

    grown : length out + n ≤ size → length (out ++ take n (drop 2 payload)) ≤ size
    grown h =
        omega (arith, length-append out (take n (drop 2 payload)), length-take n (drop 2 payload))

decode_match_bounds :
    (size : ℕ) (payload out : Bytes) → TokenResult size payload (decode_match size payload out)
unfolding decode_match
decode_match_bounds size payload out =
    raise_if-TokenResult size payload (ltb (length payload) 4) _ λ short.
      rw (unpack_from-ok (uint 2 ∷ uint 2 ∷ []) payload (ltb_false→le (length payload) 4 short)) (
        raise_if-TokenResult size payload
          (distance == 0
            || ltb (length out) distance
            || ltb n minimum_match
            || ltb size (length out + n))
          (do extended ← copy n distance out; ok (drop 4 payload, extended))
          λ valid.
            rw (copy-ok n distance out (ground arith) (ground arith))
              (omega (arith, length-drop 4 payload), ground (arith, length-copied n distance out)))
  where
    distance : ℕ
    distance = (unpack_values (uint 2 ∷ uint 2 ∷ []) payload).0

    n : ℕ
    n = (unpack_values (uint 2 ∷ uint 2 ∷ []) payload).1.0

decode_token_bounds :
    (size tag : ℕ) (payload out : Bytes)
    → TokenResult size payload (decode_token size tag payload out)
unfolding decode_token
decode_token_bounds size tag payload out = elim (Bool-cases (tag == 0)) [
  | inl e ↦ rw e (decode_literal_bounds size payload out)
  | inr e ↦ elim (Bool-cases (tag == 1)) [
    | inl f ↦ rw (e, f) (decode_match_bounds size payload out)
    | inr f ↦ rw (e, f)
  ]
]

abbrev LoopResult : ℕ → Result Bytes → Type 0
LoopResult size (ok out) = length out ≤ size
LoopResult size (err e) = e ≡ archive_format

-- As much fuel as bytes is enough on every payload, well formed or not.
decode_loop_bounds :
    (fuel size : ℕ) (payload out : Bytes)
    → length payload ≤ fuel
    → length out ≤ size
    → LoopResult size (decode_loop fuel size payload out)
unfolding decode_loop
decode_loop_bounds zero size [] out h k = k
decode_loop_bounds (suc fuel) size [] out h k = k
decode_loop_bounds zero size (tag ∷ payload) out h k = absurd (omega arith)
decode_loop_bounds (suc fuel) size (tag ∷ payload) out h k =
    elim (Result-cases (decode_token size tag payload out)) [
      | inl ((rest, out'), e) ↦
          let (fewer, fits) = rw e at (decode_token_bounds size tag payload out) in
          rw e (decode_loop_bounds fuel size rest out' (omega arith) fits)
      | inr (x, e) ↦ rw e (rw e at (decode_token_bounds size tag payload out))
    ]

-- On every payload, well formed or not, the decoder ends: it returns exactly as many bytes as
-- expected, or it raises the format error.
pub lz_simple_decode_total :
    (payload : Bytes) (size : ℕ)
    → ((block : Bytes) × (decode payload size ≡ ok block) × (length block ≡ size))
      ⊎ (decode payload size ≡ err archive_format)
unfolding decode
lz_simple_decode_total payload size =
    elim (Result-cases (decode_loop (length payload) size payload [])) [
      | inl (out, e) ↦ elim (Bool-cases (length out == size)) [
        | inl same ↦ inl (out, rw (e, same), ground arith)
        | inr other ↦ inr (rw (e, other))
      ]
      | inr (x, e) ↦
          let bad : x ≡ archive_format =
            rw e at
              (decode_loop_bounds (length payload) size payload [] (omega arith) (omega arith)) in
          inr (rw (e, bad))
    ]
