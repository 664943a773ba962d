-- ===== src/Modes/ByteRans/Table.antt =====
-- The frequency table of the payload and the table of slots.
use mosaic_archive.Base.{
  le→ltb_false, false, ℕ, zero, suc, ◌+◌, ◌*◌, ◌≤◌, ◌<◌, ◌≡◌, ◌≢◌, refl, sym, ap, ◌∙◌, List, [],
  ◌∷◌, ◌++◌, append-nil, append_assoc, Bytes, length, length-append, take-append, drop-append,
  arith, ltb, ◌==◌, if◌then◌else◌, Bool-cases, inl, inr, Result, ok, err, ◌>>=◌, ne→==_false,
}
use mathlib.Core.Path.{fun_ext}
use native.Mathlib.Decide.{dec_lt}
use mosaic_archive.Struct.Integers.{be, from_be, length-be, from_be-be}
use mosaic_archive.Modes.ByteRans.{
  Dict, update, symbols, total, table_rows, read_row, read_table, fill_lookup,
}
use mosaic_archive.Modes.ByteRans.Sums.{total_interval}

table_rows-append :
    (f : Dict) (xs ys : List ℕ) → table_rows f (xs ++ ys) ≡ table_rows f xs ++ table_rows f ys
unfolding table_rows
table_rows-append f [] ys = refl
table_rows-append f (x ∷ xs) ys =
    rw (table_rows-append f xs ys, ← append_assoc (be 2 (f x)) (table_rows f xs) (table_rows f ys))

pub length-table_rows : (f : Dict) (xs : List ℕ) → length (table_rows f xs) ≡ length xs * 3
unfolding table_rows
length-table_rows f [] = refl
length-table_rows f (x ∷ xs) =
    omega (
      arith,
      length-append (be 2 (f x)) (table_rows f xs),
      length-be 2 (f x),
      length-table_rows f xs,
    )

bind-ok : (m : Result (Bytes × Dict)) → (m >>= λ r. ok (r.0, r.1)) ≡ m
bind-ok (ok r) = refl
bind-ok (err e) = refl

bind_assoc :
    (m : Result (Bytes × Dict)) (g h : Bytes → Dict → Result (Bytes × Dict))
    → ((m >>= λ r. g r.0 r.1) >>= λ r. h r.0 r.1) ≡ (m >>= λ r. (g r.0 r.1 >>= λ q. h q.0 q.1))
bind_assoc (ok r) g h = refl
bind_assoc (err e) g h = refl

-- Reading one row more is reading a row at the end.
read_table_snoc :
    (count : ℕ) (payload : Bytes) (g : Dict)
    → read_table (suc count) payload g ≡ (read_table count payload g >>= λ r. read_row r.0 r.1)
unfolding read_table
read_table_snoc zero payload g = bind-ok (read_row payload g)
read_table_snoc (suc count) payload g =
    ap (λ (k : Bytes × Dict → Result (Bytes × Dict)). read_row payload g >>= k)
      (fun_ext λ r. read_table_snoc count r.0 r.1)
    ∙ sym (bind_assoc (read_row payload g) (read_table count) read_row)

read_row_lem :
    (f g : Dict) (s : ℕ) (tail : Bytes)
    → s < 256
    → f s < 65536
    → f s ≢ 0
    → g s ≡ 0
    → read_row ((s ∷ be 2 (f s)) ++ tail) g ≡ ok (tail, update g s (f s))
unfolding read_row
read_row_lem f g s tail byte small present fresh =
    let taken = take-append 2 (be 2 (f s)) tail (sym (length-be 2 (f s))) in
    let dropped = drop-append 2 (be 2 (f s)) tail (sym (length-be 2 (f s))) in
    let value : from_be 0 (be 2 (f s)) ≡ f s = from_be-be 2 (f s) (omega arith) in
    let symbol : 0 * 256 + s ≡ s = omega arith in
    let row : ltb (length ((s ∷ be 2 (f s)) ++ tail)) 3 ≡ false =
      le→ltb_false 3 (length ((s ∷ be 2 (f s)) ++ tail))
        (omega (arith, length-append (s ∷ be 2 (f s)) tail, length-be 2 (f s))) in
    rw (row, symbol, taken, dropped, value, fresh, ne→==_false (f s) 0 present)

-- The entries of the symbols below `n`.
abbrev pub restrict : Dict → ℕ → Dict
restrict f n s = if ltb s n then f s else 0

restrict-suc : (f : Dict) (n : ℕ) → update (restrict f n) n (f n) ≡ restrict f (suc n)
restrict-suc f n = fun_ext λ s. ground arith

restrict-suc_zero : (f : Dict) (n : ℕ) → f n ≡ 0 → restrict f (suc n) ≡ restrict f n
restrict-suc_zero f n z = fun_ext λ s. elim (dec_lt s n) [
  | yes lt ↦ ground arith
  | no ge ↦ elim (dec_lt n s) [
    | yes gt ↦ ground arith
    | no le ↦ let same : s ≡ n = omega arith in rw same (ground (arith, z))
  ]
]

pub restrict_all : (f : Dict) (n : ℕ) → ((s : ℕ) → n ≤ s → f s ≡ 0) → restrict f n ≡ f
restrict_all f n h = fun_ext λ s. ground (arith, h s)

-- Reading the rows of the symbols below `n` gives back their entries, and leaves what follows.
pub read_table_rows :
    (f : Dict) (n : ℕ) (tail : Bytes)
    → n ≤ 256
    → ((s : ℕ) → f s < 65536)
    → read_table (length (symbols n f)) (table_rows f (symbols n f) ++ tail) (λ _. 0)
      ≡ ok (tail, restrict f n)
unfolding symbols
read_table_rows f zero tail le small =
    unfold read_table table_rows in ap (λ (g : Dict). ok (tail, g)) (fun_ext λ s. ground arith)
read_table_rows f (suc n) tail le small = elim (Bool-cases (f n == 0)) [
  | inl e ↦
      let z : f n ≡ 0 = ground arith in
      rw (e, append-nil, restrict-suc_zero f n z) (read_table_rows f n tail (omega arith) small)
  | inr e ↦ rw e (next (ground arith) (read_table_rows f n _ (omega arith) small))
]
  where
    row : Bytes
    row = n ∷ be 2 (f n)

    next :
        f n ≢ 0
        → read_table (length (symbols n f)) (table_rows f (symbols n f) ++ (row ++ tail)) (λ _. 0)
          ≡ ok (row ++ tail, restrict f n)
        → read_table
            (length (symbols n f ++ (n ∷ [])))
            (table_rows f (symbols n f ++ (n ∷ [])) ++ tail)
            (λ _. 0)
          ≡ ok (tail, restrict f (suc n))
    next present ih =
        let more : length (symbols n f ++ (n ∷ [])) ≡ suc (length (symbols n f)) =
          omega (arith, length-append (symbols n f) (n ∷ [])) in
        let rows : table_rows f (symbols n f ++ (n ∷ [])) ++ tail
            ≡ table_rows f (symbols n f) ++ (row ++ tail) =
          rw (table_rows-append, append_assoc) (unfold table_rows in rw append-nil) in
        rw (more, rows, read_table_snoc, ih, ← restrict-suc f n)
          (read_row_lem f (restrict f n) n tail (omega arith) (small n) present (ground arith))

fill_lookup-append :
    (f starts : Dict) (xs ys : List ℕ) (lookup : Dict)
    → fill_lookup f starts (xs ++ ys) lookup
      ≡ fill_lookup f starts ys (fill_lookup f starts xs lookup)
unfolding fill_lookup
fill_lookup-append f starts [] ys lookup = refl
fill_lookup-append f starts (x ∷ xs) ys lookup = fill_lookup-append f starts xs ys _

last_row :
    (f starts : Dict) (n : ℕ) (lookup : Dict) (s slot : ℕ)
    → (f n ≢ 0 → starts n ≡ total n f)
    → slot < total n f
    → lookup slot ≡ s
    → fill_lookup f starts (if f n == 0 then [] else (n ∷ [])) lookup slot ≡ s
unfolding fill_lookup
last_row f starts n lookup s slot begins below e = elim (Bool-cases (f n == 0)) [
  | inl z ↦ rw z e
  | inr p ↦ rw (p, begins (ground arith)) (ground arith)
]

own_row :
    (f starts : Dict) (n : ℕ) (lookup : Dict) (slot : ℕ)
    → f n ≢ 0
    → starts n ≡ total n f
    → total n f ≤ slot
    → slot < total n f + f n
    → fill_lookup f starts (if f n == 0 then [] else (n ∷ [])) lookup slot ≡ n
unfolding fill_lookup
own_row f starts n lookup slot present begins lo hi =
    rw (ne→==_false (f n) 0 present, begins) (ground arith)

-- Each slot of a symbol's interval is filled with the symbol.
pub fill_lookup_lem :
    (f starts : Dict) (n : ℕ)
    → ((s : ℕ) → s < n → f s ≢ 0 → starts s ≡ total s f)
    → (s : ℕ) → s < n
    → f s ≢ 0
    → (slot : ℕ) → total s f ≤ slot
    → slot < total s f + f s
    → fill_lookup f starts (symbols n f) (λ _. 0) slot ≡ s
unfolding symbols
fill_lookup_lem f starts zero begins s lt present slot lo hi = absurd (omega arith)
fill_lookup_lem f starts (suc n) begins s lt present slot lo hi =
    rw fill_lookup-append (elim (dec_lt s n) [
      | yes below ↦
          last_row f starts n _ s slot (λ p. begins n (omega arith) p)
            (omega (arith, total_interval n s f below))
            (fill_lookup_lem f starts n (λ t l. begins t (omega arith)) s below present slot lo hi)
      | no above ↦
          let same : s ≡ n = omega arith in
          rw same (
            own_row f starts n _ slot (rw same at present)
              (begins n (omega arith) (rw same at present)) (rw same at lo) (rw same at hi))
    ])
