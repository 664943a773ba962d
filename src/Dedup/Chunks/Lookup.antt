-- ===== src/Dedup/Chunks/Lookup.antt =====
-- The dictionary of first occurrences: what a look-up finds after `setdefault`.
use mosaic_archive.Base.{
  ℕ, ◌≡◌, refl, [], ◌∷◌, Bytes, true, false, ◌&&◌, ◌==◌, bytes_eq, bytes_eq_refl, bytes_eq→eq, none,
  some, arith, ==_refl,
}
use mosaic_archive.Dedup.Chunks.{Canonical, lookup, set_default}

pub lookup-hit :
    (d d' : Bytes) (n n' i : ℕ) (rest : Canonical)
    → (bytes_eq d d' && n == n') ≡ true
    → lookup d n (((d', n'), i) ∷ rest) ≡ some i
unfolding lookup
lookup-hit d d' n n' i rest h = rw h refl

pub lookup-miss :
    (d d' : Bytes) (n n' i : ℕ) (rest : Canonical)
    → (bytes_eq d d' && n == n') ≡ false
    → lookup d n (((d', n'), i) ∷ rest) ≡ lookup d n rest
unfolding lookup
lookup-miss d d' n n' i rest h = rw h refl

pub key_eq : (d d' : Bytes) (n n' : ℕ) → (bytes_eq d d' && n == n') ≡ true → (d ≡ d') × (n ≡ n')
key_eq d d' n n' h = (bytes_eq→eq d d' (ground arith), ground arith)

pub key_refl : (d : Bytes) (n : ℕ) → (bytes_eq d d && n == n) ≡ true
key_refl d n = rw (bytes_eq_refl d, ==_refl n) refl

pub set_default-found :
    (d : Bytes) (n index i : ℕ) (canonical : Canonical)
    → lookup d n canonical ≡ some i
    → set_default d n index canonical ≡ (i, canonical)
unfolding set_default
set_default-found d n index i canonical h = rw (set_default, h) refl

pub set_default-new :
    (d : Bytes) (n index : ℕ) (canonical : Canonical)
    → lookup d n canonical ≡ none
    → set_default d n index canonical ≡ (index, ((d, n), index) ∷ canonical)
unfolding set_default
set_default-new d n index canonical h = rw (set_default, h) refl

pub empty_lookup : (d : Bytes) (n i : ℕ) → ¬ (lookup d n [] ≡ some i)
unfolding lookup
empty_lookup d n i h = cc
