-- ===== src/Cdc/Boundaries.antt =====
-- The chunks as the byte string alone determines them, one byte after the other.
use mosaic_archive.Base.{
  ℕ, ◌+◌, ◌≤◌, ◌<◌, ◌≡◌, refl, ap, sym, ◌∙◌, List, [], ◌∷◌, ◌++◌, append-nil, append_assoc, Bytes,
  length, length-append, join, Bool, ◌||◌, true, false, ltb, ◌==◌, All, Bool-cases, ltb→lt,
  ltb_false→le, inl, inr, ◌⊎◌, arith,
}
use mosaic_archive.Cdc.{last_chunk}

-- Every element but the last has the property.
abbrev pub AllButLast : (Bytes → Type 0) → List Bytes → Type 0
AllButLast P [] = Unit
AllButLast P (x ∷ xs) = (P x ⊎ (xs ≡ [])) × AllButLast P xs

-- `next fingerprint byte` is the fingerprint after a byte.
module _ (next : ℕ → ℕ → ℕ) (min_size max_size : ℕ) where
  abbrev pub ends : ℕ → ℕ → Bool
  ends fingerprint n = fingerprint == 0 || n == max_size

  -- The chunks of what is `pending` and the bytes that follow. A byte is read into the fingerprint
  -- once the chunk has the least size with it, and ends the chunk where the fingerprint is 0 or the
  -- chunk has the greatest size.
  unfoldable pub chunks_from : ℕ → Bytes → Bytes → List Bytes
  chunks_from fingerprint pending [] = last_chunk pending
  chunks_from fingerprint pending (byte ∷ bytes) =
      let grown = pending ++ (byte ∷ []) in
      elim (ltb (length grown) min_size) [
        | true ↦ chunks_from fingerprint grown bytes
        | false ↦ elim (ends (next fingerprint byte) (length grown)) [
          | true ↦ grown ∷ chunks_from 0 [] bytes
          | false ↦ chunks_from (next fingerprint byte) grown bytes
        ]
      ]

  module _ (fingerprint : ℕ) (pending : Bytes) (byte : ℕ) (bytes : Bytes) where
    pub chunks_from-short :
        ltb (length (pending ++ (byte ∷ []))) min_size ≡ true
        → chunks_from fingerprint pending (byte ∷ bytes)
          ≡ chunks_from fingerprint (pending ++ (byte ∷ [])) bytes
    unfolding chunks_from
    chunks_from-short short = rw (chunks_from, short) refl

    pub chunks_from-end :
        ltb (length (pending ++ (byte ∷ []))) min_size ≡ false
        → ends (next fingerprint byte) (length (pending ++ (byte ∷ []))) ≡ true
        → chunks_from fingerprint pending (byte ∷ bytes)
          ≡ (pending ++ (byte ∷ [])) ∷ chunks_from 0 [] bytes
    unfolding chunks_from
    chunks_from-end long end = rw (long, chunks_from, end) refl

    pub chunks_from-grow :
        ltb (length (pending ++ (byte ∷ []))) min_size ≡ false
        → ends (next fingerprint byte) (length (pending ++ (byte ∷ []))) ≡ false
        → chunks_from fingerprint pending (byte ∷ bytes)
          ≡ chunks_from (next fingerprint byte) (pending ++ (byte ∷ [])) bytes
    unfolding chunks_from
    chunks_from-grow long no_end = rw (chunks_from, long, no_end) refl

  join-last_chunk : (xs : Bytes) → join (last_chunk xs) ≡ xs
  join-last_chunk [] = refl
  join-last_chunk (x ∷ xs) = append-nil (x ∷ xs)

  pub join-chunks_from :
      (fingerprint : ℕ) (pending bytes : Bytes)
      → join (chunks_from fingerprint pending bytes) ≡ pending ++ bytes
  unfolding chunks_from
  join-chunks_from fingerprint pending [] = join-last_chunk pending ∙ sym (append-nil pending)
  join-chunks_from fingerprint pending (byte ∷ bytes) =
      let grown = pending ++ (byte ∷ []) in
      let split : grown ++ bytes ≡ pending ++ (byte ∷ bytes) =
        append_assoc pending (byte ∷ []) bytes in
      elim (Bool-cases (ltb (length grown) min_size)) [
        | inl short ↦
            rw (chunks_from-short fingerprint pending byte bytes short)
              (join-chunks_from fingerprint grown bytes ∙ split)
        | inr long ↦ elim (Bool-cases (ends (next fingerprint byte) (length grown))) [
          | inl end ↦
              rw (chunks_from-end fingerprint pending byte bytes long end)
                (ap (λ r. grown ++ r) (join-chunks_from 0 [] bytes) ∙ split)
          | inr no_end ↦
              rw (chunks_from-grow fingerprint pending byte bytes long no_end)
                (join-chunks_from (next fingerprint byte) grown bytes ∙ split)
        ]
      ]

  last_chunk-All : (P : Bytes → Type 0) (xs : Bytes) → P xs → All P (last_chunk xs)
  last_chunk-All P [] h = tt
  last_chunk-All P (x ∷ xs) h = (h, tt)

  -- No chunk is longer than the greatest size.
  pub chunks_from-max :
      (fingerprint : ℕ) (pending bytes : Bytes)
      → min_size ≤ max_size
      → length pending < max_size
      → All (λ c. length c ≤ max_size) (chunks_from fingerprint pending bytes)
  unfolding chunks_from
  chunks_from-max fingerprint pending [] le h =
      last_chunk-All (λ c. length c ≤ max_size) pending (omega arith)
  chunks_from-max fingerprint pending (byte ∷ bytes) le h =
      let grown = pending ++ (byte ∷ []) in
      let one : length grown ≡ length pending + 1 = length-append pending (byte ∷ []) in
      elim (Bool-cases (ltb (length grown) min_size)) [
        | inl short ↦ rw (chunks_from-short fingerprint pending byte bytes short) (
            chunks_from-max fingerprint grown bytes le
              (omega (arith, ltb→lt (length grown) min_size short)))
        | inr long ↦ elim (Bool-cases (ends (next fingerprint byte) (length grown))) [
          | inl end ↦
              rw (chunks_from-end fingerprint pending byte bytes long end)
                (omega (arith, one), chunks_from-max 0 [] bytes le (omega arith))
          | inr no_end ↦
              rw (chunks_from-grow fingerprint pending byte bytes long no_end)
                (chunks_from-max (next fingerprint byte) grown bytes le (ground (arith, one)))
        ]
      ]

  last_chunk-AllButLast : (P : Bytes → Type 0) (xs : Bytes) → AllButLast P (last_chunk xs)
  last_chunk-AllButLast P [] = tt
  last_chunk-AllButLast P (x ∷ xs) = (inr refl, tt)

  -- No chunk but the last is shorter than the least size.
  pub chunks_from-min :
      (fingerprint : ℕ) (pending bytes : Bytes)
      → AllButLast (λ c. min_size ≤ length c) (chunks_from fingerprint pending bytes)
  unfolding chunks_from
  chunks_from-min fingerprint pending [] = last_chunk-AllButLast (λ c. min_size ≤ length c) pending
  chunks_from-min fingerprint pending (byte ∷ bytes) =
      let grown = pending ++ (byte ∷ []) in
      elim (Bool-cases (ltb (length grown) min_size)) [
        | inl short ↦
            rw (chunks_from-short fingerprint pending byte bytes short)
              (chunks_from-min fingerprint grown bytes)
        | inr long ↦ elim (Bool-cases (ends (next fingerprint byte) (length grown))) [
          | inl end ↦
              rw (chunks_from-end fingerprint pending byte bytes long end)
                (inl (ltb_false→le (length grown) min_size long), chunks_from-min 0 [] bytes)
          | inr no_end ↦
              rw (chunks_from-grow fingerprint pending byte bytes long no_end)
                (chunks_from-min (next fingerprint byte) grown bytes)
        ]
      ]
