-- ===== src/Modes/ByteRans/Order.antt =====
-- The orders in which the normalisation visits the symbols: each holds the symbols of the block.
use mosaic_archive.Base.{
  ℕ, zero, suc, ◌≤◌, ◌<◌, ◌≡◌, ◌≢◌, refl, sym, List, [], ◌∷◌, ◌++◌, Bytes, All, length, get_or,
  arith, ltb, ◌==◌, if◌then◌else◌, Bool-cases, inl, inr, ◌⊎◌, All-append, ne→==_false,
}
use native.Mathlib.Decide.{dec_lt}
use mosaic_archive.Modes.ByteRans.{Dict, symbols, counter, insert_by, sort_by}

-- A byte of the block is counted, and what is counted is a byte.
abbrev pub Occurs : ℕ → Bytes → Type 0
Occurs s block = counter block s ≢ 0

-- A list that holds exactly the symbols of the block.
pub record Orders (block : Bytes) (order : List ℕ) : Type 0 where
  pub only : All (λ s. (s < 256) × Occurs s block) order
  pub each :
      (s : ℕ) → s < 256 → Occurs s block → (p : ℕ) × (p < length order) × (get_or order p 0 ≡ s)

symbols_only : (n : ℕ) (f : Dict) → n ≤ 256 → All (λ s. (s < 256) × (f s ≢ 0)) (symbols n f)
unfolding symbols
symbols_only zero f h = tt
symbols_only (suc n) f h = elim (Bool-cases (f n == 0)) [
  | inl e ↦ rw e (All-append _ (symbols n f) [] (symbols_only n f (omega arith)) tt)
  | inr e ↦ rw e (
      All-append _ (symbols n f) (n ∷ []) (symbols_only n f (omega arith))
        ((omega arith, ground arith), tt))
]

-- Where an element stands.
Place : ℕ → List ℕ → Type 0
Place s xs = (p : ℕ) × (p < length xs) × (get_or xs p 0 ≡ s)

Place-front : (s : ℕ) (xs ys : List ℕ) → Place s xs → Place s (xs ++ ys)
unfolding Place
Place-front s [] ys (p, lt, e) = absurd (omega arith)
Place-front s (x ∷ xs) ys (zero, lt, e) = (zero, omega arith, e)
Place-front s (x ∷ xs) ys (suc p, lt, e) =
    let (q, lt', e') = Place-front s xs ys (p, omega arith, e) in (suc q, omega arith, e')

Place-back : (s : ℕ) (xs ys : List ℕ) → Place s ys → Place s (xs ++ ys)
unfolding Place
Place-back s [] ys h = h
Place-back s (x ∷ xs) ys h = let (q, lt, e) = Place-back s xs ys h in (suc q, omega arith, e)

symbols_each : (n : ℕ) (f : Dict) (s : ℕ) → s < n → f s ≢ 0 → Place s (symbols n f)
unfolding symbols
symbols_each zero f s lt h = absurd (omega arith)
symbols_each (suc n) f s lt h = elim (dec_lt s n) [
  | yes below ↦ Place-front s (symbols n f) _ (symbols_each n f s below h)
  | no above ↦ let same : s ≡ n = omega arith in Place-back s (symbols n f) _ (last same)
]
  where
    last : s ≡ n → Place s (if f n == 0 then [] else (n ∷ []))
    last same = rw (ne→==_false (f n) 0 (rw same at h)) (unfold Place in (0, omega arith, sym same))

insert_by_only :
    (P : ℕ → Type 0) (key : Dict) (x : ℕ) (xs : List ℕ)
    → P x
    → All P xs
    → All P (insert_by key x xs)
unfolding insert_by
insert_by_only P key x [] px h = (px, tt)
insert_by_only P key x (y ∷ ys) px h = elim (Bool-cases (ltb (key x) (key y))) [
  | inl e ↦ rw e (h.0, insert_by_only P key x ys px h.1)
  | inr e ↦ rw e (px, h)
]

sort_by_only : (P : ℕ → Type 0) (key : Dict) (xs : List ℕ) → All P xs → All P (sort_by key xs)
unfolding sort_by
sort_by_only P key [] h = tt
sort_by_only P key (x ∷ xs) h =
    insert_by_only P key x (sort_by key xs) h.0 (sort_by_only P key xs h.1)

Place-later : (s x : ℕ) (xs : List ℕ) → Place s xs → Place s (x ∷ xs)
unfolding Place
Place-later s x xs (p, lt, e) = (suc p, omega arith, e)

Place-cons : (s x : ℕ) (xs : List ℕ) → Place s (x ∷ xs) → (s ≡ x) ⊎ Place s xs
unfolding Place
Place-cons s x xs (zero, lt, e) = inl (sym e)
Place-cons s x xs (suc p, lt, e) = inr (p, omega arith, e)

Place-head : (s x : ℕ) (xs : List ℕ) → s ≡ x → Place s (x ∷ xs)
unfolding Place
Place-head s x xs e = (0, omega arith, sym e)

insert_by_self : (key : Dict) (x : ℕ) (xs : List ℕ) → Place x (insert_by key x xs)
unfolding insert_by
insert_by_self key x [] = Place-head x x [] refl
insert_by_self key x (y ∷ ys) = elim (Bool-cases (ltb (key x) (key y))) [
  | inl e ↦ rw e (Place-later x y _ (insert_by_self key x ys))
  | inr e ↦ rw e (Place-head x x _ refl)
]

insert_by_each : (key : Dict) (x s : ℕ) (xs : List ℕ) → Place s xs → Place s (insert_by key x xs)
unfolding insert_by
insert_by_each key x s [] h = Place-later s x [] h
insert_by_each key x s (y ∷ ys) h = elim (Bool-cases (ltb (key x) (key y))) [
  | inr e ↦ rw e (Place-later s x _ h)
  | inl e ↦ elim (Place-cons s y ys h) [
    | inl same ↦ rw e (Place-head s y _ same)
    | inr later ↦ rw e (Place-later s y _ (insert_by_each key x s ys later))
  ]
]

sort_by_each : (key : Dict) (s : ℕ) (xs : List ℕ) → Place s xs → Place s (sort_by key xs)
unfolding sort_by
sort_by_each key s [] h = h
sort_by_each key s (x ∷ xs) h = elim (Place-cons s x xs h) [
  | inl same ↦ rw same (insert_by_self key x (sort_by key xs))
  | inr later ↦ insert_by_each key x s (sort_by key xs) (sort_by_each key s xs later)
]

pub sort_by-Orders :
    (block : Bytes) (key : Dict) → Orders block (sort_by key (symbols 256 (counter block)))
unfolding Place
sort_by-Orders block key = record {
  only = sort_by_only _ key _ (symbols_only 256 (counter block) (omega arith));
  each = λ s lt h. sort_by_each key s _ (symbols_each 256 (counter block) s lt h);
}
