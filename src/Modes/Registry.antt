-- ===== src/Modes/Registry.antt =====
-- modes/base.py and modes/__init__.py: the modes, and the choice of one for a block.
pub mod Shortest
pub mod Lossless
pub mod Choice
pub mod Routing
pub mod Exact
mod Tests
use mosaic_archive.Base.{
  ℕ, zero, suc, ◌+◌, ◌*◌, List, [], ◌∷◌, Bytes, bytes_eq, length, ltb, leb, ◌==◌, ◌&&◌, ◌||◌, not,
  if◌then◌else◌, Bool, true, false, Option, none, some, Result, ok, err, raise_if, ◌>>=◌, ◌>>◌,
  archive_format, value_error,
}
use mosaic_archive.Modes.Raw
use mosaic_archive.Modes.Rle
use mosaic_archive.Modes.Delta8
use mosaic_archive.Modes.LzSimple
use mosaic_archive.Modes.ByteRans
use mosaic_archive.Modes.LzRans
use mosaic_archive.Modes.Deflate
use mosaic_archive.Modes.Deflate.{Zlib}
use mosaic_archive.Modes.Features.{is_smooth_block}

pub data ModeId : Type 0 where
  raw rle delta8 lz_simple byte_rans deflate lz_rans : ModeId

-- The values of the enumeration.
abbrev pub value : ModeId → ℕ
value raw = 0
value rle = 1
value delta8 = 2
value lz_simple = 3
value byte_rans = 4
value deflate = 5
value lz_rans = 6

abbrev pub mode_ids : List ModeId
mode_ids = raw ∷ rle ∷ delta8 ∷ lz_simple ∷ byte_rans ∷ deflate ∷ lz_rans ∷ []

-- `ModeId(mode_id)`, with `none` for its ValueError.
pub mode_id : List ModeId → ℕ → Option ModeId
mode_id [] n = none
mode_id (id ∷ ids) n = let rest = mode_id ids n in if value id == n then some id else rest

pub record CompressionMode : Type 0 where
  pub id : ModeId
  pub encode : Bytes → Result Bytes
  pub decode : Bytes → ℕ → Result Bytes

pub record EncodedBlock : Type 0 where
  pub mode : CompressionMode
  pub payload : Bytes

-- `EncodedBlock(mode, mode.encode(block)) for mode in modes`
pub encode_all : List CompressionMode → Bytes → Result (List EncodedBlock)
encode_all [] block = ok []
encode_all (m ∷ ms) block = do
  payload ← m.encode block
  rest ← encode_all ms block
  ok (record { mode = m; payload = payload } ∷ rest)

-- `min(candidates, key=lambda candidate: len(candidate.payload))`: the first of the shortest.
pub shortest : EncodedBlock → List EncodedBlock → EncodedBlock
shortest best [] = best
shortest best (c ∷ cs) =
    shortest (if ltb (length c.payload) (length best.payload) then c else best) cs

pub min_payload : List EncodedBlock → Result EncodedBlock
unfolding shortest
min_payload [] = err value_error
min_payload (c ∷ cs) = ok (shortest c cs)

pub choose : List CompressionMode → Bytes → Result EncodedBlock
unfolding encode_all min_payload
choose modes block = do candidates ← encode_all modes block; min_payload candidates

-- `mode for mode in modes if mode.id in candidate_ids`
pub filter_modes : (ModeId → Bool) → List CompressionMode → List CompressionMode
filter_modes candidate_ids [] = []
filter_modes candidate_ids (m ∷ ms) =
    let rest = filter_modes candidate_ids ms in if candidate_ids m.id then m ∷ rest else rest

-- `b"fast"`, `b"balanced"` and `b"research"`
abbrev pub fast : Bytes
fast = 102 ∷ 97 ∷ 115 ∷ 116 ∷ []

abbrev pub balanced : Bytes
balanced = 98 ∷ 97 ∷ 108 ∷ 97 ∷ 110 ∷ 99 ∷ 101 ∷ 100 ∷ []

abbrev pub research : Bytes
research = 114 ∷ 101 ∷ 115 ∷ 101 ∷ 97 ∷ 114 ∷ 99 ∷ 104 ∷ []

-- `_MODE_BY_ID[normalized]`
pub mode_by_id : ModeId → List CompressionMode → Result CompressionMode
mode_by_id id [] = err archive_format
mode_by_id id (m ∷ ms) =
    let rest = mode_by_id id ms in if value m.id == value id then ok m else rest

module _ (zlib : Zlib) where
  abbrev pub all_modes : List CompressionMode
  all_modes =
      record { id = raw; encode = Raw.encode; decode = Raw.decode }
      ∷ record { id = rle; encode = λ b. ok (Rle.encode b); decode = Rle.decode }
      ∷ record { id = delta8; encode = λ b. ok (Delta8.encode b); decode = Delta8.decode }
      ∷ record { id = lz_simple; encode = λ b. ok (LzSimple.encode b); decode = LzSimple.decode }
      ∷ record { id = byte_rans; encode = ByteRans.encode; decode = ByteRans.decode }
      ∷ record { id = deflate; encode = Deflate.encode zlib; decode = Deflate.decode zlib }
      ∷ record { id = lz_rans; encode = LzRans.encode; decode = LzRans.decode }
      ∷ []

  pub get_mode : ℕ → Result CompressionMode
  unfolding mode_id mode_by_id
  get_mode n = elim (mode_id mode_ids n) [
    | none ↦ err archive_format
    | some id ↦ mode_by_id id all_modes
  ]

  pub choose_best_mode : Bytes → Result EncodedBlock
  unfolding choose
  choose_best_mode block = choose all_modes block

-- A parameter is the test `features.entropy_bits_per_byte < 7.75`, which the floating-point logarithm
-- decides.
module _ (has_low_entropy : Bytes → Bool) where
  -- The set `candidate_ids` of each profile.
  pub candidate_ids : Bytes → Bytes → ModeId → Bool
  candidate_ids profile block id =
      if bytes_eq profile fast
      then (value id == 0 || value id == 5)
      else if bytes_eq profile research
      then true
      else (value id == 0
          || value id == 1
          || value id == 5
          || (is_smooth_block block && value id == 2)
          || (leb 256 (length block) && has_low_entropy block && value id == 4))

module _ (zlib : Zlib) (has_low_entropy : Bytes → Bool) where
  pub choose_routed_mode : Bytes → Bytes → Result EncodedBlock
  unfolding filter_modes candidate_ids choose
  choose_routed_mode block profile = do
    raise_if (not (bytes_eq profile fast || bytes_eq profile balanced || bytes_eq profile research))
        value_error
    choose (filter_modes (candidate_ids has_low_entropy profile block) (all_modes zlib)) block
