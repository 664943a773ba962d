-- ===== src/Modes/LzSimple/Window.antt =====
-- A match copies from the output what stands in the block: windows that repeat with a distance.
-- The lemmas serve modes/lz_simple.py and modes/lz_rans.py.
use native.Mathlib.Nat.{mod-eq_of_lt, mod-eq-sub-mod}
use native.Mathlib.Decide.{dec_lt}
use mosaic_archive.Base.{
  ℕ, zero, suc, ◌+◌, ◌-◌, ◌%◌, ◌≤◌, ◌<◌, ◌≡◌, refl, sym, ap, ◌∙◌, [], ◌∷◌, ◌++◌, Bytes, length,
  length-take, take, drop, get_or, arith,
}
use mosaic_archive.Modes.LzSimple.Copied.{copied}

abbrev pub at : Bytes → ℕ → ℕ
at block i = get_or block i 0

pub at-take : (i n : ℕ) (xs : Bytes) → i < n → at (take n xs) i ≡ at xs i
at-take i zero xs h = absurd (omega arith)
at-take i (suc n) [] h = refl
at-take zero (suc n) (x ∷ xs) h = refl
at-take (suc i) (suc n) (x ∷ xs) h = at-take i n xs (omega arith)

at-drop_suc : (i n x : ℕ) (xs : Bytes) → at (x ∷ xs) (suc n + i) ≡ at xs (n + i)
at-drop_suc i n x xs = let e : suc n + i ≡ suc (n + i) = omega arith in rw e

pub at-drop : (i n : ℕ) (xs : Bytes) → at (drop n xs) i ≡ at xs (n + i)
at-drop i zero xs = let e : zero + i ≡ i = omega arith in rw e
at-drop i (suc n) [] = refl
at-drop i (suc n) (x ∷ xs) = at-drop i n xs ∙ sym (at-drop_suc i n x xs)

pub take_snoc : (n : ℕ) (xs : Bytes) → n < length xs → take n xs ++ (at xs n ∷ []) ≡ take (n + 1) xs
take_snoc n [] h = absurd (omega arith)
take_snoc zero (x ∷ xs) h = refl
take_snoc (suc n) (x ∷ xs) h =
    let e : suc n + 1 ≡ suc (n + 1) = omega arith in
    rw e (ap (λ r. x ∷ r) (take_snoc n xs (omega arith)))

-- From `start` on, `n` bytes of the block repeat what stands `distance` before them.
abbrev pub Repeats : Bytes → ℕ → ℕ → ℕ → Type 0
Repeats block start distance n =
    (j : ℕ) → j < n → at block (start + distance + j) ≡ at block (start + j)

-- Inside a window that repeats, a byte is found in the first period too.
pub Repeats-period :
    (block : Bytes) (start distance n : ℕ)
    → Repeats block start distance n
    → 0 < distance
    → (fuel j : ℕ) → j ≤ fuel
    → j < distance + n
    → at block (start + j) ≡ at block (start + j % distance)
Repeats-period block start distance n r pos zero j le h =
    ap (λ k. at block (start + k)) (sym (mod-eq_of_lt (omega arith)))
Repeats-period block start distance n r pos (suc fuel) j le h = elim (dec_lt j distance) [
  | yes first ↦ ap (λ k. at block (start + k)) (sym (mod-eq_of_lt first))
  | no later ↦
      let k = j - distance in
      ap (at block) (sum (omega arith))
      ∙ r k (omega arith)
      ∙ Repeats-period block start distance n r pos fuel k (omega arith) (omega arith)
      ∙ ap (λ m. at block (start + m)) (sym (mod-eq-sub-mod (omega arith)))
]
  where
    sum : j ≡ distance + (j - distance) → start + j ≡ start + distance + (j - distance)
    sum e = omega arith

Repeats-later :
    (block : Bytes) (start distance n : ℕ)
    → Repeats block start distance (suc n)
    → Repeats block (start + 1) distance n
Repeats-later block start distance n r j h =
    let left : start + 1 + distance + j ≡ start + distance + (j + 1) = omega arith in
    let right : start + 1 + j ≡ start + (j + 1) = omega arith in
    ap (at block) left ∙ r (j + 1) (omega arith) ∙ sym (ap (at block) right)

-- Copying from a repeating window extends the output along the block.
pub copy_window :
    (block : Bytes) (start distance n : ℕ)
    → Repeats block start distance n
    → 0 < distance
    → start + distance + n ≤ length block
    → copied n distance (take (start + distance) block) ≡ take (start + distance + n) block
unfolding copied
copy_window block start distance zero r pos h =
    let e : start + distance + zero ≡ start + distance = omega arith in rw e
copy_window block start distance (suc n) r pos h =
    let q = start + distance in
    let len : length (take q block) ≡ q = omega (arith, length-take q block) in
    let source : at (take q block) (length (take q block) - distance) ≡ at block q =
      ap (at (take q block)) (omega (arith, len))
      ∙ at-take start q block (omega arith)
      ∙ sym (ap (at block) (omega arith) ∙ r 0 (omega arith) ∙ ap (at block) (omega arith)) in
    let next : start + distance + 1 ≡ start + 1 + distance = omega arith in
    let end : start + distance + suc n ≡ start + 1 + distance + n = omega arith in
    rw (source, take_snoc q block (omega arith), next, end)
      (copy_window block (start + 1) distance n (Repeats-later block start distance n r) pos
        (omega arith))
