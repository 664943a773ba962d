-- ===== src/Modes/ByteRans/Normalize.antt =====
-- The normalisation of the frequencies: they sum to the scale, and every byte of the block has one.
use mosaic_archive.Base.{
  ℕ, zero, suc, ◌+◌, ◌-◌, ◌*◌, ◌%◌, ◌≤◌, ◌<◌, ◌≡◌, refl, sym, ◌∙◌, List, [], ◌∷◌, Bytes, IsByte,
  All, All-mono, All-get_or, length, arith, ltb, ◌==◌, true, false, Bool-cases, inl, inr,
  ne→==_false, ==_refl,
}
use native.Mathlib.Nat.{mod-lt, mod-eq_of_lt, mod-add-mod, add-mod_right, suc-mul}
use native.Mathlib.Decide.{dec_lt, dec_le}
use mosaic_archive.Modes.ByteRans.{
  scale, Dict, update, symbols, total, counter, initial_frequencies, sort_by, cyclic, add_loop,
  remove_loop, normalize_counts,
}
use mosaic_archive.Modes.ByteRans.Sums.{total-update, total_large}
use mosaic_archive.Modes.ByteRans.Order.{Occurs, Orders, sort_by-Orders}

-- Exactly the bytes of the block have a frequency.
pub record Shape (block : Bytes) (f : Dict) : Type 0 where
  pub present : (s : ℕ) → Occurs s block → 1 ≤ f s
  pub absent : (s : ℕ) → counter block s ≡ 0 → f s ≡ 0

update-Shape :
    (block : Bytes) (f : Dict) (s v : ℕ)
    → Shape block f
    → Occurs s block
    → 1 ≤ v
    → Shape block (update f s v)
update-Shape block f s v h o pos = record {
  present = λ t p. elim (Bool-cases (s == t)) [ inl e ↦ rw e pos | inr e ↦ rw e (h.present t p) ];
  absent = λ t z. elim (Bool-cases (s == t)) [
    | inl e ↦ let same : s ≡ t = ground arith in absurd (o (rw same z))
    | inr e ↦ rw e (h.absent t z)
  ];
}

module _ (block : Bytes) (order : List ℕ) (orders : Orders block order)
    (some_symbol : 0 < length order) where
  member : (index : ℕ) → (cyclic order index < 256) × Occurs (cyclic order index) block
  member index =
      All-get_or (λ s. (s < 256) × Occurs s block) order (index % length order) 0 orders.only
        (mod-lt index some_symbol)

  add_loop_lem :
      (rounds index : ℕ) (f : Dict)
      → Shape block f
      → Shape block (add_loop order rounds index f)
        × (total 256 (add_loop order rounds index f) ≡ total 256 f + rounds)
  unfolding add_loop
  add_loop_lem zero index f h = (h, omega arith)
  add_loop_lem (suc rounds) index f h =
      let s = cyclic order index in
      let (lt, o) = member index in
      let (shape, sum) =
        add_loop_lem rounds (index + 1) (update f s (f s + 1))
          (update-Shape block f s (f s + 1) h o (omega arith)) in
      (shape, omega (arith, sum, total-update 256 s (f s + 1) f lt))

  -- From any index, the next cycle reaches every place.
  next_at :
      (index p : ℕ)
      → p < length order
      → (j : ℕ) × (j < length order) × ((index + j) % length order ≡ p)
  next_at index p inside =
      let n = length order in
      let r = index % n in
      let r_small : r < n = mod-lt index some_symbol in
      elim (dec_le r p) [
        | yes ahead ↦
            let there : r + (p - r) ≡ p = omega arith in
            (p - r, omega arith, sym (mod-add-mod index n (p - r)) ∙ rw there (mod-eq_of_lt inside))
        | no behind ↦
            let there : r + (p + n - r) ≡ p + n = omega arith in
            (
              p + n - r,
              omega arith,
              sym (mod-add-mod index n (p + n - r))
                  ∙ rw there (add-mod_right p n ∙ mod-eq_of_lt inside),
            )
      ]

  -- Some symbol of the next cycle counts more than once, as long as the sum is above 256.
  next_large :
      (index : ℕ) (f : Dict)
      → Shape block f
      → 256 < total 256 f
      → (j : ℕ) × (j < length order) × (1 < f (cyclic order (index + j)))
  next_large index f h big =
      let (s, lt, large) = total_large 256 f big in
      let o : Occurs s block = λ z. absurd (omega (arith, h.absent s z)) in
      let (p, inside, e) = orders.each s lt o in
      let (j, short, at) = next_at index p inside in (j, short, rw (at, e) large)

  record Taken (fuel remaining index j : ℕ) (f : Dict) : Type 0 where
    symbol : ℕ
    index' : ℕ
    fuel' : ℕ
    large : 1 < f symbol
    known : (symbol < 256) × Occurs symbol block
    spent : fuel ≤ fuel' + (j + 1)
    runs :
        remove_loop order fuel remaining index f
        ≡ remove_loop order fuel' (remaining - 1) index' (update f symbol (f symbol - 1))

  take_next :
      (fuel remaining index j : ℕ) (f : Dict)
      → 0 < remaining
      → j < fuel
      → 1 < f (cyclic order (index + j))
      → Taken fuel remaining index j f
  unfolding remove_loop
  take_next zero remaining index j f pos lt big = absurd (omega arith)
  take_next (suc fuel) remaining index j f pos lt big =
      elim (Bool-cases (ltb 1 (f (cyclic order index)))) [
        | inl now ↦ record {
          symbol = cyclic order index;
          index' = index + 1;
          fuel' = fuel;
          large = ground arith;
          known = member index;
          spent = omega arith;
          runs = rw (ne→==_false remaining 0 (omega arith), now);
        }
        | inr later ↦
            let ahead : 0 < j = elim (dec_lt 0 j) [
              | yes q ↦ q
              | no q ↦
                  let stay : index + j ≡ index = omega arith in
                  absurd (ground (arith, rw stay at big))
            ] in
            let moved : index + j ≡ index + 1 + (j - 1) = omega arith in
            let t =
              take_next fuel remaining (index + 1) (j - 1) f pos (omega arith) (rw moved at big) in
            record {
              symbol = t.symbol;
              index' = t.index';
              fuel' = t.fuel';
              large = t.large;
              known = t.known;
              spent = omega (arith, t.spent);
              runs = rw (ne→==_false remaining 0 (omega arith), later) t.runs;
            }
      ]

  -- With a cycle of fuel for each unit that is left, the loop takes them all.
  remove_loop_lem :
      (remaining fuel index : ℕ) (f : Dict)
      → remaining * length order ≤ fuel
      → Shape block f
      → total 256 f ≡ scale + remaining
      → Shape block (remove_loop order fuel remaining index f)
        × (total 256 (remove_loop order fuel remaining index f) ≡ scale)
  unfolding remove_loop
  remove_loop_lem zero zero index f enough h sum = (h, omega (arith, sum))
  remove_loop_lem zero (suc fuel) index f enough h sum = (h, omega (arith, sum))
  remove_loop_lem (suc m) fuel index f enough h sum =
      let (j, short, large) = next_large index f h (omega (arith, sum)) in
      let cycle : m * length order + length order ≤ fuel = rw (← suc-mul m (length order)) enough in
      let t = take_next fuel (suc m) index j f (omega arith) (omega arith) large in
      let one_less : suc m - 1 ≡ m = omega arith in
      let g = update f t.symbol (f t.symbol - 1) in
      rw (t.runs, one_less)
        (remove_loop_lem m t.fuel' t.index' g (omega (arith, t.spent))
          (update-Shape block f t.symbol (f t.symbol - 1) h t.known.1 (omega (arith, t.large)))
          (omega (arith, sum, t.large, total-update 256 t.symbol (f t.symbol - 1) f t.known.0)))

initial-Shape : (block : Bytes) → Shape block (initial_frequencies block)
unfolding initial_frequencies
initial-Shape block = record {
  present = λ s o. rw (ne→==_false _ _ o) (omega arith);
  absent = λ s z. rw z;
}

later_Occurs : (b : ℕ) (bs : Bytes) (s : ℕ) → Occurs s bs → Occurs s (b ∷ bs)
unfolding counter
later_Occurs b bs s h = omega (arith, h)

first_Occurs : (b : ℕ) (bs : Bytes) → Occurs b (b ∷ bs)
unfolding counter
first_Occurs b bs = rw ==_refl (omega arith)

-- Every byte of a block occurs in it.
pub All-Occurs : (block : Bytes) → All (λ s. Occurs s block) block
All-Occurs [] = tt
All-Occurs (b ∷ bs) = (
  first_Occurs b bs,
  All-mono (λ s. Occurs s bs) (λ s. Occurs s (b ∷ bs)) bs (later_Occurs b bs) (All-Occurs bs),
)

-- The frequencies of a block that is not empty sum to the scale, each byte of the block has one, and
-- no other number has.
pub normalize_counts_lem :
    (b : ℕ) (bs : Bytes)
    → IsByte b
    → Shape (b ∷ bs) (normalize_counts (b ∷ bs)) × (total 256 (normalize_counts (b ∷ bs)) ≡ scale)
unfolding normalize_counts
normalize_counts_lem b bs byte = elim (Bool-cases (ltb (total 256 f) scale)) [
  | inl less ↦
      let (shape, sum) =
        add_loop_lem block (by remainders) (orders remainders) (nonempty remainders)
          (scale - total 256 f) 0 f start in
      rw less (shape, sum ∙ fill (total 256 f) less)
  | inr least ↦ elim (Bool-cases (ltb scale (total 256 f))) [
    | inl more ↦
        rw (least, more)
          (remove_loop_lem block (by f) (orders f) (nonempty f) (total 256 f - scale) _ 0 f
            (omega arith) start (above (total 256 f) more))
    | inr most ↦ rw (least, most) (start, exact (total 256 f) least most)
  ]
]
  where
    block : Bytes
    block = b ∷ bs

    f : Dict
    f = initial_frequencies block

    start : Shape block f
    start = initial-Shape block

    remainders : Dict
    remainders s = counter block s * scale % length block

    by : Dict → List ℕ
    by key = sort_by key (symbols 256 (counter block))

    orders : (key : Dict) → Orders block (by key)
    orders key = sort_by-Orders block key

    nonempty : (key : Dict) → 0 < length (by key)
    nonempty key = let (p, lt, e) = (orders key).each b byte (first_Occurs b bs) in omega arith

    fill : (sum : ℕ) → ltb sum scale ≡ true → sum + (scale - sum) ≡ scale
    fill sum h = ground arith

    above : (sum : ℕ) → ltb scale sum ≡ true → sum ≡ scale + (sum - scale)
    above sum h = ground arith

    exact : (sum : ℕ) → ltb sum scale ≡ false → ltb scale sum ≡ false → sum ≡ scale
    exact sum h k = ground arith

-- A number that is no byte does not occur in a byte string.
pub counter_out : (block : Bytes) (s : ℕ) → All IsByte block → 256 ≤ s → counter block s ≡ 0
unfolding counter
counter_out [] s h out = refl
counter_out (b ∷ bs) s h out =
    rw (ne→==_false b s (omega (arith, h.0))) (omega (arith, counter_out bs s h.1 out))
