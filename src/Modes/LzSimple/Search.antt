-- ===== src/Modes/LzSimple/Search.antt =====
-- The match finder: what it returns is a window of the block that repeats.
use native.Mathlib.Decide.{dec_lt}
use mathlib.Core.Path.{subst}
use mosaic_archive.Base.{
  ℕ, zero, suc, ◌+◌, ◌-◌, ◌*◌, ◌%◌, ◌≤◌, ◌<◌, ◌≡◌, refl, sym, ap, ◌∙◌, List, [], ◌∷◌, ◌++◌, Bytes,
  All, All-append, All-drop, length, drop, arith, min, ltb, leb, ◌==◌, ◌||◌, if◌then◌else◌, Bool,
  true, false, Bool-cases, inl, inr, bytes_eq, bytes_eq→eq,
}
use mathlib.Core.List.{reverse, reverse-cons}
use mosaic_archive.Modes.LzSimple.{
  minimum_match, maximum_match, maximum_distance, candidate_limit, Positions, slice, last_n, trim,
  index_position, index_range, extend_match, best_match, find_match,
}
use mosaic_archive.Modes.LzSimple.Window.{at, at-take, at-drop, Repeats, Repeats-period}

-- Every position in the table is under the key that stands there in the block.
abbrev pub Indexed : Bytes → Positions → Type 0
Indexed block positions = (key : Bytes) → All (λ index. slice block index 3 ≡ key) (positions key)

All-trim : (P : ℕ → Type 0) (entries : List ℕ) → All P entries → All P (trim entries)
unfolding trim
All-trim P entries h = elim (Bool-cases (ltb (candidate_limit * 4) (length entries))) [
  | inl e ↦ rw e (All-drop P (length entries - candidate_limit * 2) entries h)
  | inr e ↦ rw e h
]

pub All-if :
    (P : ℕ → Type 0) (b : Bool) (xs ys : List ℕ)
    → (b ≡ true → All P xs)
    → All P ys
    → All P (if b then xs else ys)
All-if P true xs ys h k = h refl
All-if P false xs ys h k = k

pub Indexed-index_position :
    (block : Bytes) (positions : Positions) (index : ℕ)
    → Indexed block positions
    → Indexed block (index_position block positions index)
unfolding index_position
Indexed-index_position block positions index h key =
    elim (Bool-cases (leb (index + 3) (length block))) [
      | inr e ↦ rw e (h key)
      | inl e ↦ rw e (
          All-if (λ i. slice block i 3 ≡ key) (bytes_eq key (slice block index 3)) _ _ added
            (h key))
    ]
  where
    added :
        bytes_eq key (slice block index 3) ≡ true
        → All (λ i. slice block i 3 ≡ key) (trim (positions (slice block index 3) ++ (index ∷ [])))
    added e =
        let same : key ≡ slice block index 3 = bytes_eq→eq key (slice block index 3) e in
        rw same (
          All-trim _ _ (
            All-append _ (positions (slice block index 3)) (index ∷ []) (h (slice block index 3))
              (refl, tt)))

pub Indexed-index_range :
    (block : Bytes) (n index : ℕ) (positions : Positions)
    → Indexed block positions
    → Indexed block (index_range block n index positions)
unfolding index_range
Indexed-index_range block zero index positions h = h
Indexed-index_range block (suc n) index positions h =
    Indexed-index_range block n (index + 1) _ (Indexed-index_position block positions index h)

pub All-reverse : (P : ℕ → Type 0) (xs : List ℕ) → All P xs → All P (reverse xs)
All-reverse P [] h = tt
All-reverse P (x ∷ xs) h =
    rw reverse-cons (All-append P (reverse xs) (x ∷ []) (All-reverse P xs h.1) (h.0, tt))

pub extend_match-Repeats :
    (block : Bytes) (start distance rounds n : ℕ)
    → 0 < distance
    → Repeats block start distance n
    → let r = extend_match block start distance (start + distance) rounds n in
      Repeats block start distance r × (n ≤ r) × (r ≤ n + rounds)
unfolding extend_match
extend_match-Repeats block start distance zero n pos h = (h, omega arith, omega arith)
extend_match-Repeats block start distance (suc rounds) n pos h =
    elim (Bool-cases (at block (start + n % distance) == at block (start + distance + n))) [
      | inl e ↦ rw e (
          let (a, b, c) =
            extend_match-Repeats block start distance rounds (n + 1) pos (more (ground arith)) in
          (a, omega (arith, b), omega (arith, c)))
      | inr e ↦ rw e (h, omega arith, omega arith)
    ]
  where
    more :
        at block (start + n % distance) ≡ at block (start + distance + n)
        → Repeats block start distance (n + 1)
    more e j lt = elim (dec_lt j n) [
      | yes below ↦ h j below
      | no top ↦
          let same : j ≡ n = omega arith in
          rw same (
            sym e
            ∙ sym (Repeats-period block start distance n h pos n n (omega arith) (omega arith)))
    ]

-- The first three bytes agree because the keys do.
pub key-Repeats :
    (block : Bytes) (start distance : ℕ)
    → slice block start 3 ≡ slice block (start + distance) 3
    → Repeats block start distance 3
key-Repeats block start distance e j h =
    sym (at-drop j (start + distance) block)
    ∙ sym (at-take j 3 (drop (start + distance) block) h)
    ∙ ap (λ s. at s j) (sym e)
    ∙ at-take j 3 (drop start block) h
    ∙ at-drop j start block

-- A pair that `best_match` may return for a position: no match, or a window that repeats.
pub record IsMatch (block : Bytes) (position : ℕ) (found : ℕ × ℕ) : Type 0 where
  pub short : found.0 ≤ maximum_match
  pub inside : position + found.0 ≤ length block
  pub near : found.1 ≤ maximum_distance
  pub back : 0 < found.0 → (0 < found.1) × (found.1 ≤ position)
  pub repeats : 0 < found.0 → Repeats block (position - found.1) found.1 found.0

window-IsMatch :
    (block : Bytes) (start distance : ℕ)
    → start + distance + minimum_match ≤ length block
    → slice block start 3 ≡ slice block (start + distance) 3
    → 0 < distance
    → distance ≤ maximum_distance
    → let rounds = min maximum_match (length block - (start + distance)) - 3 in
      IsMatch block
        (start + distance)
        (extend_match block start distance (start + distance) rounds 3, distance)
window-IsMatch block start distance fits key pos near =
    let rounds = min maximum_match (length block - (start + distance)) - 3 in
    let (window, long, most) =
      extend_match-Repeats block start distance rounds 3 pos
        (key-Repeats block start distance key) in
    let back : start + distance - distance ≡ start = omega arith in
    record {
      short = omega (arith, most);
      inside = omega (arith, most);
      near = near;
      back = λ _. (pos, omega arith);
      repeats = λ _. rw back window;
    }

candidate-IsMatch :
    (block : Bytes) (position candidate : ℕ)
    → position + minimum_match ≤ length block
    → slice block candidate 3 ≡ slice block position 3
    → 0 < position - candidate
    → position - candidate ≤ maximum_distance
    → let distance = position - candidate in
      let limit = min maximum_match (length block - position) in
      IsMatch block position
        (extend_match block candidate distance position (limit - 3) 3, distance)
candidate-IsMatch block position candidate fits key pos near =
    let d = position - candidate in
    let e : candidate + d ≡ position = omega arith in
    subst
      (λ p.
        IsMatch block p
          (extend_match block candidate d p (min maximum_match (length block - p) - 3) 3, d))
      e (window-IsMatch block candidate d (rw e fits) (rw e key) pos near)

pub best_match-IsMatch :
    (block : Bytes) (position : ℕ) (candidates : List ℕ) (len dist : ℕ)
    → position + minimum_match ≤ length block
    → All (λ c. slice block c 3 ≡ slice block position 3) candidates
    → IsMatch block position (len, dist)
    → IsMatch block position (best_match block position candidates len dist)
unfolding best_match
best_match-IsMatch block position [] len dist fits h m = m
best_match-IsMatch block position (c ∷ cs) len dist fits h m =
    let d = position - c in
    let limit = min maximum_match (length block - position) in
    let n = extend_match block c d position (limit - 3) 3 in
    let skipped = best_match-IsMatch block position cs len dist fits h.1 m in
    elim (Bool-cases (leb d 0 || ltb maximum_distance d)) [
      | inl e ↦ rw e skipped
      | inr usable ↦
          let found = candidate-IsMatch block position c fits h.0 (ground arith) (ground arith) in
          elim (Bool-cases (ltb len n)) [
            | inr e ↦ rw (usable, e) skipped
            | inl e ↦ elim (Bool-cases (n == limit)) [
              | inl full ↦ rw (usable, e, full) found
              | inr more ↦
                  rw (usable, e, more) (best_match-IsMatch block position cs n d fits h.1 found)
            ]
          ]
    ]

pub none-IsMatch :
    (block : Bytes) (position : ℕ) → position ≤ length block → IsMatch block position (0, 0)
none-IsMatch block position le = record {
  short = omega arith;
  inside = omega arith;
  near = omega arith;
  back = λ p. absurd (omega arith);
  repeats = λ p. absurd (omega arith);
}

-- Over a table that indexes the block, `find_match` returns no match or a window that repeats.
pub find_match-IsMatch :
    (block : Bytes) (positions : Positions) (position : ℕ)
    → Indexed block positions
    → position ≤ length block
    → IsMatch block position (find_match block positions position)
unfolding find_match
find_match-IsMatch block positions position h le =
    elim (Bool-cases (leb (position + minimum_match) (length block))) [
      | inr e ↦ rw e (none-IsMatch block position le)
      | inl e ↦ rw e (
          best_match-IsMatch block position _ 0 0 (ground arith)
            (All-reverse P (last_n candidate_limit (positions key))
              (All-drop P (length (positions key) - candidate_limit) (positions key) (h key)))
            (none-IsMatch block position le))
    ]
  where
    key : Bytes
    key = slice block position 3

    P : ℕ → Type 0
    P c = slice block c 3 ≡ key
