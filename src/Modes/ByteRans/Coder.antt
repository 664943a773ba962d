-- ===== src/Modes/ByteRans/Coder.antt =====
-- One symbol of the coder: the decoder's step undoes the encoder's, with the bytes that it emitted.
use mathlib.Core.List.{reverse, reverse-append}
use native.Mathlib.Numerals.{unary_clauses}
use native.Mathlib.Nat.{div-add-mod, mod-lt, div-lt_iff_lt-mul, le-div_iff_mul-le}
use mosaic_archive.Base.{
  ℕ, zero, suc, ◌+◌, ◌-◌, ◌*◌, ◌/◌, ◌%◌, ◌^◌, ◌≤◌, ◌<◌, ◌≡◌, ◌∙◌, [], ◌∷◌, ◌++◌, Bytes, arith, leb,
  Bool-cases, inl, inr, Result, ok, lt→ltb, length, length-append,
}
use mosaic_archive.Modes.ByteRans.{scale, lower, Dict, renormalize, encode_symbol, refill}

-- A state between two symbols.
abbrev pub InRange : ℕ → Type 0
InRange state = (lower ≤ state) × (state < 2 ^ 31)

pub refill_done :
    (state : ℕ) (payload : Bytes) → lower ≤ state → refill state payload ≡ ok (state, payload)
unfolding refill
refill_done state [] h = ground arith
refill_done state (b ∷ payload) h = ground arith

refill_step :
    (state : ℕ) (payload : Bytes)
    → state < 2 ^ 31
    → refill (state / 256) ((state % 256) ∷ payload) ≡ refill state payload
unfolding refill
refill_step state payload h =
    let low : state / 256 < lower = omega arith in
    let whole : state / 256 * 256 + state % 256 ≡ state = omega arith in rw (lt→ltb _ _ low, whole)

record Renormalized (frequency : ℕ) (target : Bytes → Result (ℕ × Bytes)) (r : ℕ × Bytes)
    : Type 0 where
  below : r.0 < 524288 * frequency
  above : 2048 * frequency ≤ r.0
  back : (tail : Bytes) → refill r.0 (reverse r.1 ++ tail) ≡ target tail

renormalize_lem :
    (fuel frequency state : ℕ) (out : Bytes) (target : Bytes → Result (ℕ × Bytes))
    → 0 < frequency
    → state ≤ fuel
    → state < 2 ^ 31
    → 2048 * frequency ≤ state
    → ((tail : Bytes) → refill state (reverse out ++ tail) ≡ target tail)
    → Renormalized frequency target (renormalize fuel (524288 * frequency) state out)
unfolding renormalize
renormalize_lem zero frequency state out target pos le hi lo back = absurd (omega arith)
renormalize_lem (suc fuel) frequency state out target pos le hi lo back =
    elim (Bool-cases (leb (524288 * frequency) state)) [
      | inr e ↦ rw e (record { below = ground arith; above = lo; back = back })
      | inl e ↦
          let big : 524288 * frequency ≤ state = ground arith in
          rw e (
            renormalize_lem fuel frequency (state / 256) (out ++ (state % 256 ∷ [])) target pos
              (omega arith) (omega arith) (omega (arith, big)) further)
    ]
  where
    further :
        (tail : Bytes)
        → refill (state / 256) (reverse (out ++ (state % 256 ∷ [])) ++ tail) ≡ target tail
    further tail =
        rw (reverse-append out (state % 256 ∷ []))
          (refill_step state (reverse out ++ tail) hi ∙ back tail)

quotient_bounds :
    (x frequency : ℕ)
    → 0 < frequency
    → x < 524288 * frequency
    → 2048 * frequency ≤ x
    → (x / frequency < 524288) × (2048 ≤ x / frequency)
quotient_bounds x frequency pos hi lo = ((div-lt_iff_lt-mul pos).1 hi, (le-div_iff_mul-le pos).1 lo)

-- The two parts of a packed state.
packed :
    (q r start frequency : ℕ)
    → r < frequency
    → start + frequency ≤ scale
    → q < 524288
    → 2048 ≤ q
    → let y = q * 2 ^ 12 + r + start in (y % scale ≡ r + start) × (y / 2 ^ 12 ≡ q) × InRange y
packed q r start frequency small fits hi lo = (omega arith, omega arith, (omega arith, omega arith))

-- What the encoder leaves after a symbol: a state in range, in whose lowest bits stands a slot of
-- the symbol's interval, and from which the decoder's step gets back the state and the bytes.
pub record Coded (f starts : Dict) (symbol state : ℕ) (out : Bytes) (r : ℕ × Bytes) : Type 0 where
  pub range : InRange r.0
  pub first : starts symbol ≤ r.0 % scale
  pub last : r.0 % scale < starts symbol + f symbol
  pub back :
      (tail : Bytes)
      → refill (f symbol * (r.0 / 2 ^ 12) + r.0 % scale - starts symbol) (reverse r.1 ++ tail)
        ≡ ok (state, reverse out ++ tail)

pub encode_symbol_lem :
    (f starts : Dict) (symbol state : ℕ) (out : Bytes)
    → 0 < f symbol
    → starts symbol + f symbol ≤ scale
    → InRange state
    → Coded f starts symbol state out (encode_symbol f starts symbol (state, out))
unfolding encode_symbol
encode_symbol_lem f starts symbol state out pos fits (lo, hi) =
    let fr = f symbol in
    let x = renormalize state (524288 * fr) state out in
    let r =
      renormalize_lem state fr state out (λ tail. ok (state, reverse out ++ tail)) pos (omega arith)
        hi (omega arith) (λ tail. refill_done state (reverse out ++ tail) lo) in
    let (q_hi, q_lo) = quotient_bounds x.0 fr pos r.below r.above in
    let small : x.0 % fr < fr = mod-lt x.0 pos in
    let (slot, quotient, range) =
      packed (x.0 / fr) (x.0 % fr) (starts symbol) fr small fits q_hi q_lo in
    let undone : fr * (x.0 / fr) + (x.0 % fr + starts symbol) - starts symbol ≡ x.0 =
      omega (arith, div-add-mod x.0 fr) in
    record {
      range = range;
      first = omega (arith, slot);
      last = omega (arith, slot, small);
      back = λ tail. rw (quotient, slot, undone) (r.back tail);
    }

-- A state below 2 ^ 19 times 256 ^ k is renormalised with at most k bytes.
renormalize-few :
    (k fuel maximum state : ℕ) (out : Bytes)
    → 524288 ≤ maximum
    → state < 524288 * 256 ^ k
    → length (renormalize fuel maximum state out).1 ≤ length out + k
unfolding renormalize
renormalize-few k zero maximum state out big h = omega arith
renormalize-few zero (suc fuel) maximum state out big h = elim (Bool-cases (leb maximum state)) [
  | inl e ↦ absurd (ground arith)
  | inr e ↦ rw e (omega arith)
]
renormalize-few (suc k) (suc fuel) maximum state out big h = elim (Bool-cases (leb maximum state)) [
  | inl e ↦ rw e (
      omega (
        arith,
        renormalize-few k fuel maximum (state / 256) (out ++ (state % 256 ∷ [])) big
            (shrinks (256 ^ k) state (simp unary_clauses at h)),
        length-append out (state % 256 ∷ []),
      ))
  | inr e ↦ rw e (omega arith)
]
  where
    shrinks : (t state : ℕ) → state < 524288 * (t * 256) → state / 256 < 524288 * t
    shrinks t state h = omega arith

pub encode_symbol-length :
    (f starts : Dict) (symbol state : ℕ) (out : Bytes)
    → 0 < f symbol
    → state < 2 ^ 31
    → length (encode_symbol f starts symbol (state, out)).1 ≤ length out + 2
unfolding encode_symbol
encode_symbol-length f starts symbol state out pos hi =
    renormalize-few 2 state (524288 * f symbol) state out (omega arith) (omega arith)
