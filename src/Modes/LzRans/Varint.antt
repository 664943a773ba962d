-- ===== src/Modes/LzRans/Varint.antt =====
-- `_encode_varint` and `_decode_varints` of modes/lz_rans.py: seven bits to a byte, lowest first.
use native.Mathlib.Nat.{add-mul, mul_assoc, pow-suc}
use native.Mathlib.Numerals.{towards_suc}
use mosaic_archive.Base.{
  ℕ, zero, suc, ◌+◌, ◌*◌, ◌/◌, ◌%◌, ◌^◌, ◌≤◌, ◌<◌, ◌≡◌, refl, sym, ap, ◌∙◌, List, [], ◌∷◌, ◌++◌,
  append_assoc, Bytes, IsByte, All, length, join, map, ltb, leb, ◌==◌, not, if◌then◌else◌,
  Bool-cases, inl, inr, Result, ok, err, raise_if, ◌>>=◌, ◌>>◌, archive_format, arith, lt→ltb,
  le→ltb_false, le→leb, leb→le, false, ltb→lt, ltb_false→le, append-nil,
}

-- `value & 0x7F` is the remainder by 128, `| 0x80` a sum and `>>= 7` the quotient. A value that is
-- not 0 shrinks, so the fuel `value` is enough.
varint_loop : ℕ → ℕ → Bytes → Bytes
varint_loop zero value output = output ++ (value ∷ [])
varint_loop (suc fuel) value output =
    let more = varint_loop fuel (value / 128) (output ++ ((value % 128 + 128) ∷ [])) in
    if leb 128 value then more else output ++ (value ∷ [])

unfoldable pub encode_varint : ℕ → Bytes → Bytes
unfolding varint_loop
encode_varint value output = varint_loop value value output

-- The inner loop; the list is `data[position:]`. `value |= (byte & 0x7F) << shift` is a sum, as the
-- bits of `value` are below `shift`.
read_varint : ℕ → ℕ → Bytes → Result (ℕ × Bytes)
read_varint value shift [] = err archive_format
read_varint value shift (byte ∷ rest) =
    let value' = value + byte % 128 * 2 ^ shift in
    let more = read_varint value' (shift + 7) rest in
    do raise_if (ltb 28 shift) archive_format; if ltb byte 128 then ok (value', rest) else more

pub read_varints : ℕ → Bytes → Result (List ℕ × Bytes)
unfolding read_varint
read_varints zero bytes = ok ([], bytes)
read_varints (suc count) bytes = do
  (value, rest) ← read_varint 0 0 bytes
  (values, rest') ← read_varints count rest
  ok (value ∷ values, rest')

unfoldable pub decode_varints : Bytes → ℕ → Result (List ℕ)
unfolding read_varints
decode_varints bytes count = do
  (values, rest) ← read_varints count bytes
  raise_if (not (length rest == 0)) archive_format
  ok values

-- The bytes of a value, on their own.
digits : ℕ → ℕ → Bytes
digits zero value = value ∷ []
digits (suc fuel) value =
    if leb 128 value then (value % 128 + 128) ∷ digits fuel (value / 128) else value ∷ []

pub varint : ℕ → Bytes
varint value = digits value value

varint_loop_lem :
    (fuel value : ℕ) (output : Bytes) → varint_loop fuel value output ≡ output ++ digits fuel value
unfolding varint_loop digits
varint_loop_lem zero value output = refl
varint_loop_lem (suc fuel) value output = elim (Bool-cases (leb 128 value)) [
  | inl e ↦ rw e (
      varint_loop_lem fuel (value / 128) (output ++ ((value % 128 + 128) ∷ []))
      ∙ append_assoc output ((value % 128 + 128) ∷ []) (digits fuel (value / 128)))
  | inr e ↦ rw e
]

pub encode_varint_lem :
    (value : ℕ) (output : Bytes) → encode_varint value output ≡ output ++ varint value
unfolding encode_varint varint
encode_varint_lem value output = varint_loop_lem value value output

-- Seven bits and those above them, at a place.
split_value :
    (value shift : ℕ) → value % 128 * 2 ^ shift + value / 128 * 2 ^ (shift + 7) ≡ value * 2 ^ shift
split_value value shift =
    let t = 2 ^ shift in
    let next : 2 ^ (shift + 7) ≡ 128 * t = simp towards_suc (omega arith) in
    let whole : value ≡ value % 128 + value / 128 * 128 = omega arith in
    let spread : (value % 128 + value / 128 * 128) * t ≡ value % 128 * t + value / 128 * (128 * t) =
      add-mul (value % 128) (value / 128 * 128) t
      ∙ ap (λ r. value % 128 * t + r) (mul_assoc (value / 128) 128 t) in
    rw next (sym (ap (λ v. v * t) whole ∙ spread))

last_byte :
    (acc shift value : ℕ) (tail : Bytes)
    → value < 128
    → shift ≤ 28
    → read_varint acc shift (value ∷ tail) ≡ ok (acc + value * 2 ^ shift, tail)
unfolding read_varint
last_byte acc shift value tail small place =
    let same : value % 128 ≡ value = omega arith in
    rw (le→ltb_false shift 28 place, lt→ltb value 128 small, same)

more_byte :
    (acc shift low : ℕ) (tail : Bytes)
    → low < 128
    → shift ≤ 28
    → read_varint acc shift ((low + 128) ∷ tail)
      ≡ read_varint (acc + low * 2 ^ shift) (shift + 7) tail
unfolding read_varint
more_byte acc shift low tail small place =
    let same : (low + 128) % 128 ≡ low = omega arith in
    let high : 128 ≤ low + 128 = omega arith in
    rw (le→ltb_false shift 28 place, le→ltb_false 128 (low + 128) high, same)

digits-last : (fuel value : ℕ) → value < 128 → digits fuel value ≡ value ∷ []
unfolding digits
digits-last zero value h = refl
digits-last (suc fuel) value h = let e : leb 128 value ≡ false = ground arith in rw (digits, e)

digits-more :
    (fuel value : ℕ)
    → 128 ≤ value
    → digits (suc fuel) value ≡ (value % 128 + 128) ∷ digits fuel (value / 128)
unfolding digits
digits-more fuel value h = rw (digits, le→leb 128 value h)

-- A value that takes at most `k + 1` bytes is read back, from a place with room for them.
read_digits :
    (k fuel acc shift value : ℕ) (tail : Bytes)
    → value < 128 ^ suc k
    → shift + 7 * k ≤ 28
    → value ≤ fuel
    → read_varint acc shift (digits fuel value ++ tail) ≡ ok (acc + value * 2 ^ shift, tail)
read_digits zero fuel acc shift value tail small place le =
    let low : value < 128 = omega arith in
    rw (digits-last fuel value low) (last_byte acc shift value tail low (omega arith))
read_digits (suc k) zero acc shift value tail small place le =
    let low : value < 128 = omega arith in
    rw (digits-last 0 value low) (last_byte acc shift value tail low (omega arith))
read_digits (suc k) (suc fuel) acc shift value tail small place le =
    elim (Bool-cases (ltb value 128)) [
      | inl e ↦
          let low : value < 128 = ltb→lt value 128 e in
          rw (digits-last (suc fuel) value low) (last_byte acc shift value tail low (omega arith))
      | inr e ↦
          let high : 128 ≤ value = ltb_false→le value 128 e in
          let sum : acc + value % 128 * 2 ^ shift + value / 128 * 2 ^ (shift + 7)
              ≡ acc + value * 2 ^ shift =
            omega (arith, split_value value shift) in
          rw (digits-more fuel value high) (
            more_byte acc shift (value % 128) (digits fuel (value / 128) ++ tail) (omega arith)
              (omega arith)
            ∙ read_digits k fuel (acc + value % 128 * 2 ^ shift) (shift + 7) (value / 128) tail
                (omega (arith, pow-suc 128 (suc k))) (omega arith) (omega arith)
            ∙ ap (λ n. ok (n, tail)) sum)
    ]

read_varint_lem :
    (value : ℕ) (tail : Bytes)
    → value < 2 ^ 32
    → read_varint 0 0 (varint value ++ tail) ≡ ok (value, tail)
unfolding varint
read_varint_lem value tail small =
    let one : 0 + value * 2 ^ 0 ≡ value = omega arith in
    read_digits 4 value 0 0 value tail (omega arith) (omega arith) (omega arith)
    ∙ ap (λ n. ok (n, tail)) one

pub read_varints-varint :
    (values : List ℕ) (tail : Bytes)
    → All (λ v. v < 2 ^ 32) values
    → read_varints (length values) (join (map varint values) ++ tail) ≡ ok (values, tail)
unfolding read_varints
read_varints-varint [] tail h = refl
read_varints-varint (v ∷ vs) tail h = rw (
  append_assoc (varint v) (join (map varint vs)) tail,
  read_varint_lem v (join (map varint vs) ++ tail) h.0,
  read_varints-varint vs tail h.1,
)

-- Reading as many values as were written gives them back.
pub decode_varints_lem :
    (values : List ℕ)
    → All (λ v. v < 2 ^ 32) values
    → decode_varints (join (map varint values)) (length values) ≡ ok values
unfolding decode_varints
decode_varints_lem values h = rw (rw append-nil at (read_varints-varint values [] h))

digits-IsByte : (fuel value : ℕ) → value ≤ fuel → All IsByte (digits fuel value)
unfolding digits
digits-IsByte zero value le = (omega arith, tt)
digits-IsByte (suc fuel) value le = elim (Bool-cases (leb 128 value)) [
  | inl e ↦ rw e (omega arith, digits-IsByte fuel (value / 128) (ground arith))
  | inr e ↦ rw e (ground arith, tt)
]

pub varint-IsByte : (value : ℕ) → All IsByte (varint value)
unfolding varint
varint-IsByte value = digits-IsByte value value (omega arith)

-- A varint is no longer than its value, and has at most three bytes below 2 ^ 16.
digits-le : (fuel value : ℕ) → 1 ≤ value → length (digits fuel value) ≤ value
unfolding digits
digits-le zero value pos = omega arith
digits-le (suc fuel) value pos = elim (Bool-cases (leb 128 value)) [
  | inl e ↦
      let high = leb→le 128 value e in
      rw e (omega (arith, digits-le fuel (value / 128) (omega arith)))
  | inr e ↦ rw e (omega arith)
]

pub length-varint_le : (value : ℕ) → 1 ≤ value → length (varint value) ≤ value
unfolding varint
length-varint_le value pos = digits-le value value pos

digits_few : (k fuel value : ℕ) → value < 128 ^ suc k → length (digits fuel value) ≤ suc k
digits_few zero fuel value small = rw (digits-last fuel value (omega arith)) (omega arith)
digits_few (suc k) zero value small = unfold digits in omega arith
digits_few (suc k) (suc fuel) value small = elim (Bool-cases (ltb value 128)) [
  | inl e ↦ rw (digits-last (suc fuel) value (ltb→lt value 128 e)) (omega arith)
  | inr e ↦
      rw (digits-more fuel value (ltb_false→le value 128 e))
        (omega (arith, digits_few k fuel (value / 128) (omega (arith, pow-suc 128 (suc k)))))
]

pub length-varint_three : (value : ℕ) → value < 2 ^ 16 → length (varint value) ≤ 3
unfolding varint
length-varint_three value h = digits_few 2 value value (omega arith)
