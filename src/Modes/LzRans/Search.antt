-- ===== src/Modes/LzRans/Search.antt =====
-- The match finder of LZ_RANS: what it returns is a window of the block that repeats.
use native.Mathlib.Decide.{dec_lt}
use mathlib.Core.Path.{subst}
use mosaic_archive.Base.{
  ℕ, zero, suc, ◌+◌, ◌-◌, ◌*◌, ◌≤◌, ◌<◌, ◌≡◌, refl, List, [], ◌∷◌, ◌++◌, Bytes, All, All-append,
  All-drop, length, arith, min, ltb, leb, ◌==◌, ◌||◌, true, Bool-cases, inl, inr, bytes_eq,
  bytes_eq→eq,
}
use mosaic_archive.Modes.LzSimple.{Positions, slice, last_n}
use mosaic_archive.Modes.LzSimple.Window.{at, Repeats}
use mosaic_archive.Modes.LzSimple.Search.{
  Indexed, All-if, All-reverse, key-Repeats, IsMatch, none-IsMatch,
}
use mosaic_archive.Modes.LzRans.{
  minimum_match, maximum_match, maximum_distance, candidate_limit, trim, index_at, index_range,
  extend_match, best_match, find_match,
}

All-trim : (P : ℕ → Type 0) (entries : List ℕ) → All P entries → All P (trim entries)
unfolding trim
All-trim P entries h = elim (Bool-cases (ltb (candidate_limit * 4) (length entries))) [
  | inl e ↦ rw e (All-drop P (length entries - candidate_limit * 2) entries h)
  | inr e ↦ rw e h
]

-- Indexing a position keeps every position of the table under its key.
pub Indexed-index_at :
    (block : Bytes) (positions : Positions) (index : ℕ)
    → Indexed block positions
    → Indexed block (index_at block positions index)
unfolding index_at
Indexed-index_at block positions index h key = elim (Bool-cases (leb (index + 3) (length block))) [
  | inr e ↦ rw e (h key)
  | inl e ↦ rw e (All-if P (bytes_eq key here) _ _ added (h key))
]
  where
    here : Bytes
    here = slice block index 3

    P : ℕ → Type 0
    P i = slice block i 3 ≡ key

    added : bytes_eq key here ≡ true → All P (trim (positions here ++ (index ∷ [])))
    added e =
        let same : key ≡ here = bytes_eq→eq key here e in
        rw same (All-trim _ _ (All-append _ (positions here) (index ∷ []) (h here) (refl, tt)))

pub Indexed-range :
    (block : Bytes) (n index : ℕ) (positions : Positions)
    → Indexed block positions
    → Indexed block (index_range block n index positions)
unfolding index_range
Indexed-range block zero index positions h = h
Indexed-range block (suc n) index positions h =
    Indexed-range block n (index + 1) _ (Indexed-index_at block positions index h)

extend-Repeats :
    (block : Bytes) (start distance rounds n : ℕ)
    → Repeats block start distance n
    → let r = extend_match block (start + distance) distance rounds n in
      Repeats block start distance r × (n ≤ r) × (r ≤ n + rounds)
unfolding extend_match
extend-Repeats block start distance zero n h = (h, omega arith, omega arith)
extend-Repeats block start distance (suc rounds) n h =
    elim (Bool-cases
      (at block (start + distance + n) == at block (start + distance + n - distance))) [
        | inl e ↦ rw e (
            let (a, b, c) =
              extend-Repeats block start distance rounds (n + 1) (more (ground arith)) in
            (a, omega (arith, b), omega (arith, c)))
        | inr e ↦ rw e (h, omega arith, omega arith)
      ]
  where
    more :
        at block (start + distance + n) ≡ at block (start + distance + n - distance)
        → Repeats block start distance (n + 1)
    more e j lt = elim (dec_lt j n) [
      | yes below ↦ h j below
      | no top ↦
          let same : j ≡ n = omega arith in
          let back : start + distance + n - distance ≡ start + n = omega arith in
          rw (same, ← back) e
    ]

candidate-IsMatch :
    (block : Bytes) (start distance : ℕ)
    → start + distance + minimum_match ≤ length block
    → slice block start 3 ≡ slice block (start + distance) 3
    → 0 < distance
    → distance ≤ maximum_distance
    → let rounds = min maximum_match (length block - (start + distance)) - 3 in
      IsMatch block
        (start + distance)
        (extend_match block (start + distance) distance rounds 3, distance)
candidate-IsMatch block start distance fits key pos near =
    let rounds = min maximum_match (length block - (start + distance)) - 3 in
    let (window, long, most) =
      extend-Repeats block start distance rounds 3 (key-Repeats block start distance key) in
    let back : start + distance - distance ≡ start = omega arith in
    record {
      short = omega (arith, most);
      inside = omega (arith, most);
      near = near;
      back = λ _. (pos, omega arith);
      repeats = λ _. rw back window;
    }

position-IsMatch :
    (block : Bytes) (position candidate : ℕ)
    → position + minimum_match ≤ length block
    → slice block candidate 3 ≡ slice block position 3
    → 0 < position - candidate
    → position - candidate ≤ maximum_distance
    → let distance = position - candidate in
      IsMatch block position (
        extend_match block position distance (min maximum_match (length block - position) - 3) 3,
        distance,
      )
position-IsMatch block position candidate fits key pos near =
    let d = position - candidate in
    let e : candidate + d ≡ position = omega arith in
    subst
      (λ p.
        IsMatch block p (extend_match block p d (min maximum_match (length block - p) - 3) 3, d))
      e (candidate-IsMatch block candidate d (rw e fits) (rw e key) pos near)

best-IsMatch :
    (block : Bytes) (position : ℕ) (candidates : List ℕ) (len dist : ℕ)
    → position + minimum_match ≤ length block
    → All (λ c. slice block c 3 ≡ slice block position 3) candidates
    → IsMatch block position (len, dist)
    → IsMatch block position (best_match block position candidates len dist)
unfolding best_match
best-IsMatch block position [] len dist fits h m = m
best-IsMatch block position (c ∷ cs) len dist fits h m =
    let d = position - c in
    let limit = min maximum_match (length block - position) in
    let n = extend_match block position d (limit - 3) 3 in
    let skipped = best-IsMatch block position cs len dist fits h.1 m in
    elim (Bool-cases (leb d 0 || ltb maximum_distance d)) [
      | inl e ↦ rw e skipped
      | inr usable ↦
          let found = position-IsMatch block position c fits h.0 (ground arith) (ground arith) in
          elim (Bool-cases (ltb len n)) [
            | inr e ↦ rw (usable, e) skipped
            | inl e ↦ elim (Bool-cases (n == limit)) [
              | inl full ↦ rw (usable, e, full) found
              | inr more ↦ rw (usable, e, more) (best-IsMatch block position cs n d fits h.1 found)
            ]
          ]
    ]

-- Over a table that indexes the block, `find_match` returns no match or a window that repeats.
pub find-IsMatch :
    (block : Bytes) (positions : Positions) (position : ℕ)
    → Indexed block positions
    → position ≤ length block
    → IsMatch block position (find_match block positions position)
unfolding find_match
find-IsMatch block positions position h le =
    elim (Bool-cases (leb (position + minimum_match) (length block))) [
      | inr e ↦ rw e (none-IsMatch block position le)
      | inl e ↦ rw e (
          best-IsMatch block position _ 0 0 (ground arith)
            (All-reverse P (last_n candidate_limit (positions key))
              (All-drop P (length (positions key) - candidate_limit) (positions key) (h key)))
            (none-IsMatch block position le))
    ]
  where
    key : Bytes
    key = slice block position 3

    P : ℕ → Type 0
    P c = slice block c 3 ≡ key
