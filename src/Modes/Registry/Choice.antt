-- ===== src/Modes/Registry/Choice.antt =====
-- What modes/__init__.py chooses, and that the mode is found again by its number.
use mosaic_archive.Base.{
  ◌^◌, ◌≤◌, ◌≡◌, refl, List, ◌∷◌, Bytes, IsByte, All, length, ok, ok-inj, ◌>>=◌,
}
use mosaic_archive.Modes.Raw
use mosaic_archive.Modes.Deflate.{Zlib, ZlibLaws}
use mosaic_archive.Modes.Registry.{
  raw, value, CompressionMode, EncodedBlock, all_modes, mode_id, mode_by_id, get_mode, choose,
  choose_best_mode,
}
use mosaic_archive.Modes.Registry.Shortest.{Restores, NoShorter, choose_lem}
use mosaic_archive.Modes.Registry.Lossless.{all_modes-Restores}

-- The number of every mode of the registry finds the mode.
abbrev pub IsFound : Zlib → CompressionMode → Type 0
IsFound zlib m = get_mode zlib (value m.id) ≡ ok m

pub all_modes-IsFound : (zlib : Zlib) → All (IsFound zlib) (all_modes zlib)
unfolding get_mode mode_id mode_by_id
all_modes-IsFound zlib = (refl, (refl, (refl, (refl, (refl, (refl, (refl, tt)))))))

-- What a choice means for the archive: the number of the mode, which is stored, and the payload give
-- the block back, no candidate is shorter, and the payload is not longer than the block.
pub record IsChoice (zlib : Zlib) (modes : List CompressionMode) (block : Bytes) (e : EncodedBlock)
    : Type 0 where
  pub decodes :
      (get_mode zlib (value e.mode.id) >>= λ m. m.decode e.payload (length block)) ≡ ok block
  pub least : All (NoShorter block (length e.payload)) modes
  pub no_longer : length e.payload ≤ length block

abbrev pub raw_head : (zlib : Zlib) → CompressionMode
raw_head zlib = record { id = raw; encode = Raw.encode; decode = Raw.decode }

choose-IsChoice :
    (zlib : Zlib) (block : Bytes) (ms : List CompressionMode)
    → All (IsFound zlib) (raw_head zlib ∷ ms)
    → All (Restores block) (raw_head zlib ∷ ms)
    → (e : EncodedBlock) × (choose (raw_head zlib ∷ ms) block ≡ ok e)
      × IsChoice zlib (raw_head zlib ∷ ms) block e
unfolding Raw.encode
choose-IsChoice zlib block ms found restored =
    let (e, runs, c) = choose_lem block (IsFound zlib) (raw_head zlib) ms found restored in
    let (p, encoded, le) = c.shortest_of_all.0 in
    (
      e,
      runs,
      record {
        decodes = rw c.chosen_mode c.restores;
        least = c.shortest_of_all;
        no_longer = rw (ok-inj encoded) le;
      },
    )

-- `choose_best_mode` returns on every block of at most 2 ^ 30 bytes. The mode that `get_mode` finds
-- by the number of the chosen mode decodes the payload to the block, no mode of the registry encodes
-- the block in fewer bytes, and the payload is not longer than the block.
pub choose_best_mode_lem :
    (zlib : Zlib) (laws : ZlibLaws zlib) (block : Bytes)
    → All IsByte block
    → length block ≤ 2 ^ 30
    → (e : EncodedBlock) × (choose_best_mode zlib block ≡ ok e)
      × IsChoice zlib (all_modes zlib) block e
unfolding choose_best_mode
choose_best_mode_lem zlib laws block h small =
    choose-IsChoice zlib block _ (all_modes-IsFound zlib)
      (all_modes-Restores zlib laws block h small)
