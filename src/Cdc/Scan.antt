-- ===== src/Cdc/Scan.antt =====
-- What skipping and scanning a run of bytes mean for the chunks.
use mosaic_archive.Base.{
  ℕ, suc, ◌+◌, ◌-◌, ◌≤◌, ◌<◌, ◌≡◌, refl, ap, sym, ◌∙◌, List, [], ◌∷◌, ◌++◌, append-nil,
  append_assoc, Bytes, length, length-append, take, drop, true, false, ◌==◌, Option, none, some,
  Bool-cases, lt→ltb, le→ltb_false, inl, inr, arith,
}
use mosaic_archive.Cdc.{ChunkingConfig, next_fingerprint, find_boundary}
use mosaic_archive.Cdc.Boundaries.{
  chunks_from, chunks_from-short, chunks_from-end, chunks_from-grow,
}

module _ (gear : ℕ → ℕ) (config : ChunkingConfig) where
  abbrev pub next : ℕ → ℕ → ℕ
  next = next_fingerprint gear (config.avg_size - 1)

  -- The chunks of pending bytes and those that follow, for this table and these sizes.
  abbrev pub chunks : ℕ → Bytes → Bytes → List Bytes
  chunks = chunks_from next config.min_size config.max_size

  pub skip_run :
      (fingerprint : ℕ) (pending xs ys : Bytes)
      → length pending + length xs < config.min_size
      → chunks fingerprint pending (xs ++ ys) ≡ chunks fingerprint (pending ++ xs) ys
  skip_run fingerprint pending [] ys h =
      ap (λ p. chunks fingerprint p ys) (sym (append-nil pending))
  skip_run fingerprint pending (x ∷ xs) ys h =
      let one = length-append pending (x ∷ []) in
      chunks_from-short next config.min_size config.max_size fingerprint pending x (xs ++ ys)
        (lt→ltb (length (pending ++ (x ∷ []))) config.min_size (omega (arith, one)))
      ∙ skip_run fingerprint (pending ++ (x ∷ [])) xs ys (omega (arith, one))
      ∙ ap (λ p. chunks fingerprint p ys) (append_assoc pending (x ∷ []) xs)

  -- What the outcome of `find_boundary` on `xs` says of the chunks.
  abbrev pub Outcome : ℕ → Bytes → Bytes → Bytes → ℕ × Option ℕ → Type 0
  Outcome fingerprint pending xs ys (f, none) =
      (length pending + length xs < config.max_size
        → chunks fingerprint pending (xs ++ ys) ≡ chunks f (pending ++ xs) ys)
      × (length pending + length xs ≡ config.max_size
          → 0 < length xs
          → chunks fingerprint pending (xs ++ ys) ≡ (pending ++ xs) ∷ chunks 0 [] ys)
  Outcome fingerprint pending xs ys (f, some offset) =
      (offset < length xs)
      × (chunks fingerprint pending (xs ++ ys)
          ≡ (pending ++ take (suc offset) xs) ∷ chunks 0 [] (drop (suc offset) xs ++ ys))

  later : ℕ × Option ℕ → ℕ × Option ℕ
  unfolding find_boundary
  later r = (r.0, elim r.1 [ none ↦ none | some offset ↦ some (suc offset) ])

  step-Outcome :
      (fingerprint : ℕ) (pending : Bytes) (x y : ℕ) (xs ys : Bytes) (r : ℕ × Option ℕ)
      → chunks fingerprint pending ((x ∷ y ∷ xs) ++ ys)
        ≡ chunks (next fingerprint x) (pending ++ (x ∷ [])) ((y ∷ xs) ++ ys)
      → Outcome (next fingerprint x) (pending ++ (x ∷ [])) (y ∷ xs) ys r
      → Outcome fingerprint pending (x ∷ y ∷ xs) ys (later r)
  unfolding later
  step-Outcome fingerprint pending x y xs ys (f, none) step h =
      let one = length-append pending (x ∷ []) in
      let assoc = append_assoc pending (x ∷ []) (y ∷ xs) in
      (
        λ lt. step ∙ h.0 (omega (arith, one)) ∙ ap (λ p. chunks f p ys) assoc,
        λ e pos. step ∙ h.1 (omega (arith, one)) (omega arith) ∙ ap (λ p. p ∷ chunks 0 [] ys) assoc,
      )
  step-Outcome fingerprint pending x y xs ys (f, some offset) step h =
      let assoc = append_assoc pending (x ∷ []) (take (suc offset) (y ∷ xs)) in
      (
        omega (arith, h.0),
        step ∙ h.1 ∙ ap (λ p. p ∷ chunks 0 [] (drop (suc offset) (y ∷ xs) ++ ys)) assoc,
      )

  find_boundary-zero :
      (fingerprint x : ℕ) (xs : Bytes)
      → (next fingerprint x == 0) ≡ true
      → find_boundary gear config fingerprint (x ∷ xs) ≡ (next fingerprint x, some 0)
  unfolding find_boundary
  find_boundary-zero fingerprint x xs z = rw (find_boundary, z) refl

  find_boundary-later :
      (fingerprint x : ℕ) (xs : Bytes)
      → (next fingerprint x == 0) ≡ false
      → find_boundary gear config fingerprint (x ∷ xs)
        ≡ later (find_boundary gear config (next fingerprint x) xs)
  unfolding find_boundary later
  find_boundary-later fingerprint x xs nz = rw (find_boundary, nz) refl

  pub find_boundary_lem :
      (fingerprint : ℕ) (pending xs ys : Bytes)
      → config.min_size ≤ length pending + 1
      → length pending + length xs ≤ config.max_size
      → Outcome fingerprint pending xs ys (find_boundary gear config fingerprint xs)
  unfolding find_boundary later
  find_boundary_lem fingerprint pending [] ys lo hi = (
    λ lt. ap (λ p. chunks fingerprint p ys) (sym (append-nil pending)),
    λ e pos. absurd (omega arith),
  )
  find_boundary_lem fingerprint pending (x ∷ []) ys lo hi =
      let one = length-append pending (x ∷ []) in
      let long = le→ltb_false config.min_size (length (pending ++ (x ∷ []))) (omega (arith, one)) in
      elim (Bool-cases (next fingerprint x == 0)) [
        | inl z ↦ rw (find_boundary-zero fingerprint x [] z) (
          omega arith,
          chunks_from-end next config.min_size config.max_size fingerprint pending x ys long
              (rw z refl),
        )
        | inr nz ↦ rw (find_boundary-later fingerprint x [] nz) (
          λ lt.
              chunks_from-grow next config.min_size config.max_size fingerprint pending x ys long
                (rw nz (ground (arith, one))),
          λ e pos.
              chunks_from-end next config.min_size config.max_size fingerprint pending x ys long
                (rw nz (ground (arith, one))),
        )
      ]
  find_boundary_lem fingerprint pending (x ∷ y ∷ xs) ys lo hi =
      let one = length-append pending (x ∷ []) in
      let long = le→ltb_false config.min_size (length (pending ++ (x ∷ []))) (omega (arith, one)) in
      elim (Bool-cases (next fingerprint x == 0)) [
        | inl z ↦ rw (find_boundary-zero fingerprint x (y ∷ xs) z) (
          omega arith,
          chunks_from-end next config.min_size config.max_size fingerprint pending x (y ∷ xs ++ ys)
              long (rw z refl),
        )
        | inr nz ↦ rw (find_boundary-later fingerprint x (y ∷ xs) nz) (
            step-Outcome fingerprint pending x y xs ys
              (find_boundary gear config (next fingerprint x) (y ∷ xs))
              (chunks_from-grow next config.min_size config.max_size fingerprint pending x
                (y ∷ xs ++ ys) long (rw nz (ground (arith, one))))
              (find_boundary_lem (next fingerprint x) (pending ++ (x ∷ [])) (y ∷ xs) ys
                (omega (arith, one)) (omega (arith, one))))
      ]
