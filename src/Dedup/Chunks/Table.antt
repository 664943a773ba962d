-- ===== src/Dedup/Chunks/Table.antt =====
-- Which tables of chunks the reader accepts.
use mosaic_archive.Base.{
  ℕ, zero, suc, ◌+◌, ◌≤◌, ◌<◌, ◌≡◌, refl, ap, sym, ◌∙◌, ◌↔◌, ◌⊎◌, inl, inr, List, [], ◌∷◌, ◌++◌,
  length, length-append, get_elem?, not, ◌&&◌, ◌||◌, leb, ◌==◌, bytes_eq, bytes_eq_refl,
  bytes_eq→eq, if◌then◌else◌, some, ok, >>=-eq-ok, raise_if-eq-ok, Bool-cases, Option-cases,
  err-ne-ok, archive_format, arith, ==_iff, ok-inj,
}
use mosaic_archive.Dedup.Chunks.{ChunkRecord, count_unique, check_record, check_records}

-- A record behind the records `front` has a size in range, and either is the first with its contents
-- or refers to an earlier one that is, with the same digest and size.
abbrev pub Refers : List ChunkRecord → ChunkRecord → Type 0
Refers front r =
    (c : ChunkRecord) × (get_elem? front r.source_index ≡ some c)
    × (c.source_index ≡ r.source_index)
    × (c.digest ≡ r.digest)
    × (c.size ≡ r.size)

abbrev pub IsRecord : ℕ → List ChunkRecord → ChunkRecord → Type 0
IsRecord max_chunk_size front r =
    (1 ≤ r.size) × (r.size ≤ max_chunk_size) × ((r.source_index ≡ length front) ⊎ Refers front r)

abbrev pub IsTable : ℕ → List ChunkRecord → List ChunkRecord → Type 0
IsTable max_chunk_size front [] = Unit
IsTable max_chunk_size front (r ∷ rest) =
    IsRecord max_chunk_size front r × IsTable max_chunk_size (front ++ (r ∷ [])) rest

get_elem?-lt :
    (xs : List ChunkRecord) (i : ℕ) {x : ChunkRecord} → get_elem? xs i ≡ some x → i < length xs
get_elem?-lt [] i h = cc
get_elem?-lt (x ∷ xs) zero h = omega arith
get_elem?-lt (x ∷ xs) (suc i) h = omega (arith, get_elem?-lt xs i h)

-- One for a record that is its own source.
abbrev pub own : ℕ → ChunkRecord → ℕ
own index r = if r.source_index == index then 1 else 0

check_record_accepts :
    (max_chunk_size : ℕ) (front : List ChunkRecord) (u : ℕ) (r : ChunkRecord)
    → IsRecord max_chunk_size front r
    → check_record max_chunk_size front u r ≡ ok (u + own (length front) r)
unfolding check_record
check_record_accepts max_chunk_size front u r (low, high, inl own_source) = ground arith
check_record_accepts max_chunk_size front u r (low, high, inr (c, found, source, digest, size)) =
    let before = get_elem?-lt front r.source_index found in
    rw (found, source, digest, size, bytes_eq_refl r.digest) (ground arith)

check_record_sound :
    (max_chunk_size : ℕ) (front : List ChunkRecord) (u : ℕ) (r : ChunkRecord) {n : ℕ}
    → check_record max_chunk_size front u r ≡ ok n
    → IsRecord max_chunk_size front r
unfolding check_record
check_record_sound max_chunk_size front u r h =
    let (sized, after) =
      raise_if-eq-ok (not (leb 1 r.size && leb r.size max_chunk_size)) archive_format _ h in
    (
      ground arith,
      ground arith,
      elim (Bool-cases (r.source_index == length front)) [
        | inl own_source ↦ inl ((==_iff r.source_index (length front)).0 own_source)
        | inr other ↦
            let (before, found) =
              raise_if-eq-ok (leb (length front) r.source_index) archive_format _
                (rw other at after) in
            elim (Option-cases (get_elem? front r.source_index)) [
              | inl missing ↦ absurd (err-ne-ok (rw missing at found))
              | inr (c, got) ↦
                  let (source, same) =
                    raise_if-eq-ok (not (c.source_index == r.source_index)) archive_format _
                      (rw got at found) in
                  let (contents, _) =
                    raise_if-eq-ok (not (bytes_eq c.digest r.digest) || not (c.size == r.size))
                      archive_format _ same in
                  inr (
                    c,
                    got,
                    ground arith,
                    bytes_eq→eq c.digest r.digest (ground arith),
                    ground arith,
                  )
            ]
      ],
    )

count-own :
    (index : ℕ) (r : ChunkRecord) (rest : List ChunkRecord)
    → count_unique index (r ∷ rest) ≡ own index r + count_unique (index + 1) rest
unfolding count_unique
count-own index r rest = refl

counts :
    (front : List ChunkRecord) (u u' : ℕ) (r : ChunkRecord) (rest : List ChunkRecord)
    → u' ≡ u + own (length front) r
    → u' + count_unique (length (front ++ (r ∷ []))) rest
      ≡ u + count_unique (length front) (r ∷ rest)
counts front u u' r rest e =
    rw (length-append front (r ∷ []), count-own (length front) r rest) (omega (arith, e))

-- The tests accept exactly the tables in which every record has a size in range and is either its own
-- source or refers back to an earlier record that is its own source and has the same digest and
-- size; the number they give is that of the records that are their own source.
pub check_records_iff :
    (max_chunk_size : ℕ) (front : List ChunkRecord) (u : ℕ) (records : List ChunkRecord) (n : ℕ)
    → (check_records max_chunk_size front u records ≡ ok n)
      ↔ (IsTable max_chunk_size front records × (n ≡ u + count_unique (length front) records))
unfolding check_records
check_records_iff max_chunk_size front u records n =
    (sound front u records, complete front u records)
  where
    sound :
        (front : List ChunkRecord) (u : ℕ) (records : List ChunkRecord)
        → check_records max_chunk_size front u records ≡ ok n
        → IsTable max_chunk_size front records × (n ≡ u + count_unique (length front) records)
    sound front u [] h = (tt, unfold count_unique in omega (arith, ok-inj h))
    sound front u (r ∷ rest) h =
        let (u', checked, after) = >>=-eq-ok (check_record max_chunk_size front u r) _ h in
        let good = check_record_sound max_chunk_size front u r checked in
        let counted : u' ≡ u + own (length front) r =
          ok-inj (sym checked ∙ check_record_accepts max_chunk_size front u r good) in
        let (table, total) = sound (front ++ (r ∷ [])) u' rest after in
        ((good, table), total ∙ counts front u u' r rest counted)

    complete :
        (front : List ChunkRecord) (u : ℕ) (records : List ChunkRecord)
        → IsTable max_chunk_size front records × (n ≡ u + count_unique (length front) records)
        → check_records max_chunk_size front u records ≡ ok n
    complete front u [] (_, e) = ap ok (sym (e ∙ unfold count_unique in omega arith))
    complete front u (r ∷ rest) ((good, table), e) =
        rw (check_record_accepts max_chunk_size front u r good) (
          complete (front ++ (r ∷ [])) (u + own (length front) r) rest
            (table, e ∙ sym (counts front u (u + own (length front) r) r rest refl)))
