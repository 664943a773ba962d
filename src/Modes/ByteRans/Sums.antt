-- ===== src/Modes/ByteRans/Sums.antt =====
-- Sums over a dictionary of frequencies, and where a symbol's interval lies.
use mosaic_archive.Base.{
  ℕ, zero, suc, ◌+◌, ◌≤◌, ◌<◌, ◌≡◌, ◌≢◌, refl, List, [], ◌∷◌, ◌++◌, arith, ◌==◌, if◌then◌else◌, ok,
  err, runtime_error, ne→==_false,
}
use native.Mathlib.Decide.{dec_lt}
use mosaic_archive.Modes.ByteRans.{scale, Dict, update, symbols, total, cumulative_loop, cumulative}

pub total-update_out : (n s v : ℕ) (f : Dict) → n ≤ s → total n (update f s v) ≡ total n f
unfolding total
total-update_out zero s v f h = refl
total-update_out (suc n) s v f h = ground (arith, total-update_out n s v f)

-- Writing one entry changes the sum by as much as the entry.
pub total-update : (n s v : ℕ) (f : Dict) → s < n → total n (update f s v) + f s ≡ total n f + v
unfolding total
total-update zero s v f h = absurd (omega arith)
total-update (suc n) s v f h = ground (arith, total-update n s v f, total-update_out n s v f)

-- The interval of a symbol lies inside the sum.
pub total_interval : (n s : ℕ) (f : Dict) → s < n → total s f + f s ≤ total n f
unfolding total
total_interval zero s f h = absurd (omega arith)
total_interval (suc n) s f h = ground (arith, total_interval n s f)

-- A sum above the number of symbols has a symbol that counts more than once.
pub total_large : (n : ℕ) (f : Dict) → n < total n f → (s : ℕ) × (s < n) × (1 < f s)
unfolding total
total_large zero f h = absurd (omega arith)
total_large (suc n) f h = elim (dec_lt 1 (f n)) [
  | yes big ↦ (n, omega arith, big)
  | no small ↦ let (s, lt, big) = total_large n f (omega arith) in (s, omega arith, big)
]

pub cumulative_loop-append :
    (f : Dict) (xs ys : List ℕ) (starts : Dict) (start : ℕ)
    → cumulative_loop f (xs ++ ys) starts start
      ≡ cumulative_loop f ys
          (cumulative_loop f xs starts start).0
          (cumulative_loop f xs starts start).1
unfolding cumulative_loop
cumulative_loop-append f [] ys starts start = refl
cumulative_loop-append f (x ∷ xs) ys starts start =
    cumulative_loop-append f xs ys (update starts x start) (start + f x)

cumulative_step :
    (f : Dict) (n : ℕ) (starts : Dict) (start : ℕ)
    → start ≡ total n f
    → ((s : ℕ) → s < n → f s ≢ 0 → starts s ≡ total s f)
    → let r = cumulative_loop f (if f n == 0 then [] else (n ∷ [])) starts start in
      (r.1 ≡ total n f + f n) × ((s : ℕ) → s < suc n → f s ≢ 0 → r.0 s ≡ total s f)
unfolding cumulative_loop
cumulative_step f n starts start h k = (ground arith, λ s lt present. at s lt present)
  where
    at :
        (s : ℕ)
        → s < suc n
        → f s ≢ 0
        → (cumulative_loop f (if f n == 0 then [] else (n ∷ [])) starts start).0 s ≡ total s f
    at s lt present = elim (dec_lt s n) [
      | yes below ↦ ground (arith, k s below present)
      | no above ↦ let same : s ≡ n = omega arith in rw same (ground (arith, h, rw same at present))
    ]

-- After the symbols below `n` the next start is their sum, and each present one starts at the sum of
-- those below it.
pub cumulative_loop_lem :
    (f : Dict) (n : ℕ)
    → let r = cumulative_loop f (symbols n f) (λ _. 0) 0 in
      (r.1 ≡ total n f) × ((s : ℕ) → s < n → f s ≢ 0 → r.0 s ≡ total s f)
unfolding symbols total
cumulative_loop_lem f zero = unfold cumulative_loop in (refl, λ s h. absurd (omega arith))
cumulative_loop_lem f (suc n) =
    let (sum, starts) = cumulative_loop_lem f n in
    rw cumulative_loop-append (cumulative_step f n _ _ sum starts)

-- Where the frequencies sum to the scale, `_cumulative` succeeds, and a symbol starts at the sum of
-- the frequencies below it.
pub cumulative_lem :
    (f : Dict)
    → total 256 f ≡ scale
    → (starts : Dict) × (cumulative f ≡ ok starts)
      × ((s : ℕ) → s < 256 → f s ≢ 0 → starts s ≡ total s f)
unfolding cumulative
cumulative_lem f h =
    let (sum, starts) = cumulative_loop_lem f 256 in
    ((cumulative_loop f (symbols 256 f) (λ _. 0) 0).0, rw (sum, h), starts)

-- And it fails where they do not.
pub cumulative_error : (f : Dict) → total 256 f ≢ scale → cumulative f ≡ err runtime_error
unfolding cumulative
cumulative_error f h = let (sum, _) = cumulative_loop_lem f 256 in rw (sum, ne→==_false _ _ h)
