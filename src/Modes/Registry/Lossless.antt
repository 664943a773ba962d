-- ===== src/Modes/Registry/Lossless.antt =====
-- Every mode of the registry gives back the block.
use mosaic_archive.Base.{◌^◌, ◌≤◌, ◌≡◌, refl, Bytes, IsByte, All, length, ==_refl, ok}
use mosaic_archive.Modes.Raw
use mosaic_archive.Modes.Rle
use mosaic_archive.Modes.Delta8
use mosaic_archive.Modes.LzSimple
use mosaic_archive.Modes.Rle.RoundTrip.{rle_round_trip}
use mosaic_archive.Modes.Delta8.RoundTrip.{delta8_round_trip}
use mosaic_archive.Modes.LzSimple.RoundTrip.{lz_simple_round_trip}
use mosaic_archive.Modes.ByteRans.RoundTrip.{byte_rans_round_trip}
use mosaic_archive.Modes.LzRans.RoundTrip.{lz_rans_round_trip}
use mosaic_archive.Modes.Deflate.{Zlib, ZlibLaws}
use mosaic_archive.Modes.Deflate.RoundTrip.{deflate_round_trip}
use mosaic_archive.Modes.Registry.{all_modes}
use mosaic_archive.Modes.Registry.Shortest.{Restores}

raw_round_trip : (block : Bytes) → Raw.decode block (length block) ≡ ok block
unfolding Raw.decode
raw_round_trip block = rw ==_refl

-- Every mode encodes every block of at most 2 ^ 30 bytes, and decodes it to the block.
pub all_modes-Restores :
    (zlib : Zlib) (laws : ZlibLaws zlib) (block : Bytes)
    → All IsByte block
    → length block ≤ 2 ^ 30
    → All (Restores block) (all_modes zlib)
unfolding Raw.encode
all_modes-Restores zlib laws block h small = (
  (block, refl, raw_round_trip block),
  (
    (Rle.encode block, refl, rle_round_trip block),
    (
      (Delta8.encode block, refl, delta8_round_trip block h),
      (
        (LzSimple.encode block, refl, lz_simple_round_trip block),
        (
          byte_rans_round_trip block h,
          (deflate_round_trip zlib laws block, (lz_rans_round_trip block h small, tt)),
        ),
      ),
    ),
  ),
)
