-- ===== src/Modes/Registry/Routing.antt =====
-- The profiles of modes/__init__.py, and what `choose_routed_mode` chooses in each.
use mosaic_archive.Base.{
  ◌^◌, ◌≤◌, ◌≡◌, refl, ap, ◌∙◌, not, raise_if, value_error, ◌>>◌, List, [], ◌∷◌, Bytes, IsByte, All,
  length, drop, leb, ◌||◌, ok, bytes_eq, Bool, true, false, Bool-cases, ◌⊎◌, inl, inr, ok-inj,
  ◌>>=◌, arith,
}
use mosaic_archive.Modes.Raw
use mosaic_archive.Modes.Deflate.{Zlib, ZlibLaws}
use mosaic_archive.Modes.Features.{is_smooth_block}
use mosaic_archive.Modes.Registry.{
  ModeId, value, CompressionMode, EncodedBlock, all_modes, get_mode, choose, filter_modes, fast,
  balanced, research, candidate_ids, choose_routed_mode,
}
use mosaic_archive.Modes.Registry.Shortest.{Restores, NoShorter, choose_lem}
use mosaic_archive.Modes.Registry.Lossless.{all_modes-Restores}
use mosaic_archive.Modes.Registry.Choice.{IsFound, raw_head, all_modes-IsFound}

pub data Profile : Type 0 where
  fast_profile balanced_profile research_profile : Profile

abbrev pub profile_name : Profile → Bytes
profile_name fast_profile = fast
profile_name balanced_profile = balanced
profile_name research_profile = research

module _ (has_low_entropy : Bytes → Bool) (block : Bytes) where
  -- The modes that a profile admits for a block: the fast one stores or deflates, the research one
  -- tries all, and the balanced one adds run lengths, differences for a smooth block, and BYTE_RANS
  -- for one of 256 bytes or more whose entropy is low.
  abbrev pub Admits : Profile → ModeId → Type 0
  Admits fast_profile ModeId.raw = Unit
  Admits fast_profile ModeId.rle = ⊥
  Admits fast_profile ModeId.delta8 = ⊥
  Admits fast_profile ModeId.lz_simple = ⊥
  Admits fast_profile ModeId.byte_rans = ⊥
  Admits fast_profile ModeId.deflate = Unit
  Admits fast_profile ModeId.lz_rans = ⊥
  Admits balanced_profile ModeId.raw = Unit
  Admits balanced_profile ModeId.rle = Unit
  Admits balanced_profile ModeId.delta8 = is_smooth_block block ≡ true
  Admits balanced_profile ModeId.lz_simple = ⊥
  Admits balanced_profile ModeId.byte_rans = (256 ≤ length block) × (has_low_entropy block ≡ true)
  Admits balanced_profile ModeId.deflate = Unit
  Admits balanced_profile ModeId.lz_rans = ⊥
  Admits research_profile id = Unit

  -- The set of the code decides as the description does.
  abbrev IsDecided : Profile → ModeId → Bool → Type 0
  IsDecided p id b = ((b ≡ true) × Admits p id) ⊎ ((b ≡ false) × ¬ Admits p id)

  candidate_ids-IsDecided :
      (p : Profile) (id : ModeId)
      → IsDecided p id (candidate_ids has_low_entropy (profile_name p) block id)
  unfolding candidate_ids bytes_eq
  candidate_ids-IsDecided fast_profile ModeId.raw = inl (refl, tt)
  candidate_ids-IsDecided fast_profile ModeId.rle = inr (refl, λ a. a)
  candidate_ids-IsDecided fast_profile ModeId.delta8 = inr (refl, λ a. a)
  candidate_ids-IsDecided fast_profile ModeId.lz_simple = inr (refl, λ a. a)
  candidate_ids-IsDecided fast_profile ModeId.byte_rans = inr (refl, λ a. a)
  candidate_ids-IsDecided fast_profile ModeId.deflate = inl (refl, tt)
  candidate_ids-IsDecided fast_profile ModeId.lz_rans = inr (refl, λ a. a)
  candidate_ids-IsDecided balanced_profile ModeId.raw = inl (refl, tt)
  candidate_ids-IsDecided balanced_profile ModeId.rle = inl (refl, tt)
  candidate_ids-IsDecided balanced_profile ModeId.delta8 =
      elim (Bool-cases (is_smooth_block block)) [
        | inl e ↦ inl (ground arith, e)
        | inr e ↦ inr (ground arith, λ a. cc)
      ]
  candidate_ids-IsDecided balanced_profile ModeId.lz_simple = inr (ground arith, λ a. a)
  candidate_ids-IsDecided balanced_profile ModeId.byte_rans =
      elim (Bool-cases (has_low_entropy block)) [
        | inl e ↦ elim (Bool-cases (leb 256 (length block))) [
          | inl l ↦ inl (ground arith, (ground arith, e))
          | inr l ↦ inr (ground arith, λ a. ground arith)
        ]
        | inr e ↦ inr (ground arith, λ a. cc)
      ]
  candidate_ids-IsDecided balanced_profile ModeId.deflate = inl (ground arith, tt)
  candidate_ids-IsDecided balanced_profile ModeId.lz_rans = inr (ground arith, λ a. a)
  candidate_ids-IsDecided research_profile id = inl (refl, tt)

raw_admitted :
    (has_low_entropy : Bytes → Bool) (block : Bytes) (p : Profile)
    → Admits has_low_entropy block p ModeId.raw
raw_admitted has_low_entropy block fast_profile = tt
raw_admitted has_low_entropy block balanced_profile = tt
raw_admitted has_low_entropy block research_profile = tt

-- What a choice means for the archive: the number of the mode, which is stored, and the payload
-- give the block back, the profile admits the mode, no mode that it admits is shorter, and the
-- payload is not longer than the block.
pub record IsRouted (zlib : Zlib) (has_low_entropy : Bytes → Bool) (p : Profile) (block : Bytes)
    (e : EncodedBlock) : Type 0 where
  pub decodes :
      (get_mode zlib (value e.mode.id) >>= λ m. m.decode e.payload (length block)) ≡ ok block
  pub admitted : Admits has_low_entropy block p e.mode.id
  pub least :
      All
        (λ m. (¬ Admits has_low_entropy block p m.id) ⊎ NoShorter block (length e.payload) m)
        (all_modes zlib)
  pub no_longer : length e.payload ≤ length block

module _ (ids : ModeId → Bool) (P : CompressionMode → Type 0) where
  All-filter :
      (ms : List CompressionMode)
      → All P ms
      → All (λ m. P m × (ids m.id ≡ true)) (filter_modes ids ms)
  unfolding filter_modes
  All-filter [] h = tt
  All-filter (m ∷ ms) h = elim (Bool-cases (ids m.id)) [
    | inl e ↦ rw e ((h.0, e), All-filter ms h.1)
    | inr e ↦ rw e (All-filter ms h.1)
  ]

  -- What holds of the modes that are kept, of all modes.
  All-kept :
      (ms : List CompressionMode)
      → All P (filter_modes ids ms)
      → All (λ m. (ids m.id ≡ false) ⊎ P m) ms
  unfolding filter_modes
  All-kept [] h = tt
  All-kept (m ∷ ms) h = elim (Bool-cases (ids m.id)) [
    | inl e ↦ let k = rw e at h in (inr k.0, All-kept ms k.1)
    | inr e ↦ (inl e, All-kept ms (rw e at h))
  ]

All-map :
    (P Q : CompressionMode → Type 0) (ms : List CompressionMode)
    → ((m : CompressionMode) → P m → Q m)
    → All P ms
    → All Q ms
All-map P Q [] f h = tt
All-map P Q (m ∷ ms) f h = (f m h.0, All-map P Q ms f h.1)

module _ (zlib : Zlib) (has_low_entropy : Bytes → Bool) (p : Profile) (block : Bytes) where
  admitted_of :
      (id : ModeId)
      → candidate_ids has_low_entropy (profile_name p) block id ≡ true
      → Admits has_low_entropy block p id
  admitted_of id e = elim (candidate_ids-IsDecided has_low_entropy block p id) [
    | inl (_, a) ↦ a
    | inr (f, _) ↦ cc
  ]

  refused_of :
      (id : ModeId)
      → candidate_ids has_low_entropy (profile_name p) block id ≡ false
      → ¬ Admits has_low_entropy block p id
  refused_of id e = elim (candidate_ids-IsDecided has_low_entropy block p id) [
    | inl (f, _) ↦ cc
    | inr (_, a) ↦ a
  ]

  raw_is_candidate : candidate_ids has_low_entropy (profile_name p) block ModeId.raw ≡ true
  raw_is_candidate = elim (candidate_ids-IsDecided has_low_entropy block p ModeId.raw) [
    | inl (e, _) ↦ e
    | inr (_, refused) ↦ absurd (refused (raw_admitted has_low_entropy block p))
  ]

known_profile :
    (p : Profile)
    → (bytes_eq (profile_name p) fast
        || bytes_eq (profile_name p) balanced
        || bytes_eq (profile_name p) research)
      ≡ true
unfolding bytes_eq
known_profile fast_profile = refl
known_profile balanced_profile = refl
known_profile research_profile = refl

-- A choice among the modes with the numbers of a set that has RAW, by the set.
record Kept (zlib : Zlib) (ids : ModeId → Bool) (modes : List CompressionMode) (block : Bytes)
    (e : EncodedBlock) : Type 0 where
  decodes : (get_mode zlib (value e.mode.id) >>= λ m. m.decode e.payload (length block)) ≡ ok block
  kept : ids e.mode.id ≡ true
  least : All (λ m. (ids m.id ≡ false) ⊎ NoShorter block (length e.payload) m) modes
  no_longer : length e.payload ≤ length block

choose-Kept :
    (zlib : Zlib) (block : Bytes) (ids : ModeId → Bool) (ms : List CompressionMode)
    → ids ModeId.raw ≡ true
    → All (IsFound zlib) (raw_head zlib ∷ ms)
    → All (Restores block) (raw_head zlib ∷ ms)
    → (e : EncodedBlock) × (choose (raw_head zlib ∷ filter_modes ids ms) block ≡ ok e)
      × Kept zlib ids (raw_head zlib ∷ ms) block e
unfolding Raw.encode
choose-Kept zlib block ids ms chosen found restored =
    let (e, runs, c) =
      choose_lem block (λ m. IsFound zlib m × (ids m.id ≡ true)) (raw_head zlib)
        (filter_modes ids ms) ((found.0, chosen), All-filter ids (IsFound zlib) ms found.1)
        (
          restored.0,
          All-map _ (Restores block) (filter_modes ids ms) (λ m r. r.0)
              (All-filter ids (Restores block) ms restored.1),
        ) in
    let (payload, encoded, le) = c.shortest_of_all.0 in
    (
      e,
      runs,
      record {
        decodes = rw c.chosen_mode.0 c.restores;
        kept = c.chosen_mode.1;
        least = (
          inr c.shortest_of_all.0,
          All-kept ids (NoShorter block (length e.payload)) ms c.shortest_of_all.1,
        );
        no_longer = rw (ok-inj encoded) le;
      },
    )

kept_first :
    (ids : ModeId → Bool) (m : CompressionMode) (ms : List CompressionMode)
    → ids m.id ≡ true
    → filter_modes ids (m ∷ ms) ≡ m ∷ filter_modes ids ms
unfolding filter_modes
kept_first ids m ms e = rw e

-- In each of the three profiles, `choose_routed_mode` returns on every block of at most 2 ^ 30
-- bytes. The mode that `get_mode` finds by the number of the chosen mode decodes the payload to the
-- block, the profile admits the chosen mode, every other mode that it admits encodes the block in
-- no fewer bytes, and the payload is not longer than the block.
pub choose_routed_mode_lem :
    (zlib : Zlib) (has_low_entropy : Bytes → Bool) (laws : ZlibLaws zlib) (p : Profile)
    (block : Bytes)
    → All IsByte block
    → length block ≤ 2 ^ 30
    → (e : EncodedBlock) × (choose_routed_mode zlib has_low_entropy block (profile_name p) ≡ ok e)
      × IsRouted zlib has_low_entropy p block e
unfolding choose_routed_mode
choose_routed_mode_lem zlib has_low_entropy laws p block h small =
    let ids = candidate_ids has_low_entropy (profile_name p) block in
    let chosen = raw_is_candidate zlib has_low_entropy p block in
    let (e, runs, c) =
      choose-Kept zlib block ids (drop 1 (all_modes zlib)) chosen (all_modes-IsFound zlib)
        (all_modes-Restores zlib laws block h small) in
    let routes : choose (filter_modes ids (all_modes zlib)) block ≡ ok e =
      ap (λ modes. choose modes block)
        (kept_first ids (raw_head zlib) (drop 1 (all_modes zlib)) chosen)
      ∙ runs in
    (
      e,
      ap
            (λ known.
              raise_if (not known) value_error >> choose (filter_modes ids (all_modes zlib)) block)
            (known_profile p)
          ∙ routes,
      record {
        decodes = c.decodes;
        admitted = admitted_of zlib has_low_entropy p block e.mode.id c.kept;
        least =
            All-map (λ m. (ids m.id ≡ false) ⊎ NoShorter block (length e.payload) m)
              (λ m. (¬ Admits has_low_entropy block p m.id) ⊎ NoShorter block (length e.payload) m)
              (all_modes zlib)
              (λ m d. elim d [
                | inl f ↦ inl (refused_of zlib has_low_entropy p block m.id f)
                | inr k ↦ inr k
              ])
              c.least;
        no_longer = c.no_longer;
      },
    )
