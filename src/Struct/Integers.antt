-- ===== src/Struct/Integers.antt =====
-- Unsigned big-endian integers of a fixed width, as `int.to_bytes` and `int.from_bytes`.
use native.Mathlib.Nat.{
  pow-suc, pow-succ', mul-le-mul_right, div-one, div-div-eq-div-mul, div-eq_of_lt-le, le_trans,
}
use mosaic_archive.Base.{
  ℕ, zero, suc, ◌+◌, ◌*◌, ◌/◌, ◌%◌, ◌^◌, ◌≤◌, ◌<◌, ◌≡◌, refl, [], ◌∷◌, ◌++◌, Bytes, IsByte, length,
  length-append, All, All-append, arith,
}

-- The low `w` bytes of `n`, highest first.
unfoldable pub be : ℕ → ℕ → Bytes
be zero n = []
be (suc w) n = be w (n / 256) ++ (n % 256 ∷ [])

-- The number that the bytes write, after what `acc` holds.
unfoldable pub from_be : ℕ → Bytes → ℕ
from_be acc [] = acc
from_be acc (b ∷ bs) = from_be (acc * 256 + b) bs

pub length-be : (w n : ℕ) → length (be w n) ≡ w
unfolding be
length-be zero n = refl
length-be (suc w) n =
    omega (arith, length-append (be w (n / 256)) (n % 256 ∷ []), length-be w (n / 256))

pub be-IsByte : (w n : ℕ) → All IsByte (be w n)
unfolding be
be-IsByte zero n = tt
be-IsByte (suc w) n = All-append IsByte (be w (n / 256)) _ (be-IsByte w (n / 256)) (omega arith)

from_be-snoc :
    (acc : ℕ) (bs : Bytes) (b : ℕ) → from_be acc (bs ++ b ∷ []) ≡ from_be acc bs * 256 + b
unfolding from_be
from_be-snoc acc [] b = refl
from_be-snoc acc (x ∷ bs) b = from_be-snoc (acc * 256 + x) bs b

-- Reading back what was written gives the number, if it fits the width.
pub from_be-be : (w n : ℕ) → n < 256 ^ w → from_be 0 (be w n) ≡ n
unfolding be
from_be-be zero n h = unfold from_be in omega arith
from_be-be (suc w) n h = omega (
  arith,
  from_be-snoc 0 (be w (n / 256)) (n % 256),
  from_be-be w (n / 256) (omega (arith, pow-suc 256 w)),
)

scale : (a b p : ℕ) → b < 256 → (a * 256 + b + 1) * p ≤ (a + 1) * (p * 256)
scale a b p h = omega (arith, mul-le-mul_right p (step a b h))
  where
    step : (a b : ℕ) → b < 256 → a * 256 + b + 1 ≤ (a + 1) * 256
    step a b h = omega arith

pub from_be-lt :
    (acc : ℕ) (bs : Bytes) → All IsByte bs → from_be acc bs < (acc + 1) * 256 ^ length bs
unfolding from_be
from_be-lt acc [] h = omega arith
from_be-lt acc (b ∷ bs) h =
    rw (pow-suc 256 (length bs))
      (le_trans (from_be-lt (acc * 256 + b) bs h.1) (scale acc b (256 ^ length bs) h.0))

from_be-acc : (acc : ℕ) (bs : Bytes) → from_be acc bs ≡ acc * 256 ^ length bs + from_be 0 bs
unfolding from_be
from_be-acc acc [] = omega arith
from_be-acc acc (b ∷ bs) =
    rw (pow-suc 256 (length bs), from_be-acc (acc * 256 + b) bs, from_be-acc (0 * 256 + b) bs)
      (omega arith)

-- The highest byte of a number that is written with one byte more.
be_front : (w n : ℕ) → be (suc w) n ≡ (n / 256 ^ w % 256) ∷ be w n
unfolding be
be_front zero n = rw div-one
be_front (suc w) n =
    rw (be_front w (n / 256), div-div-eq-div-mul n 256 (256 ^ w), ← pow-succ' 256 w)

high_byte :
    (acc b : ℕ) (bs : Bytes)
    → b < 256
    → All IsByte bs
    → from_be (acc * 256 + b) bs / 256 ^ length bs % 256 ≡ b
high_byte acc b bs hb h = omega (
  arith,
  div-eq_of_lt-le {k = acc * 256 + b} (256 ^ length bs) {m = from_be (acc * 256 + b) bs}
      (omega (arith, from_be-acc (acc * 256 + b) bs)) (from_be-lt (acc * 256 + b) bs h),
)

-- Writing what was read from bytes gives the bytes.
pub be-from_be : (acc : ℕ) (bs : Bytes) → All IsByte bs → be (length bs) (from_be acc bs) ≡ bs
unfolding from_be
be-from_be acc [] h = unfold be in refl
be-from_be acc (b ∷ bs) h =
    rw (be_front, high_byte acc b bs h.0 h.1, be-from_be (acc * 256 + b) bs h.1)
