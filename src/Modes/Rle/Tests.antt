-- ===== src/Modes/Rle/Tests.antt =====
-- RLE: runs on concrete blocks, and the theorems at concrete inputs.
use mosaic_archive.Base.{
  ◌≤◌, ◌≡◌, refl, ◌↔◌, [], ◌∷◌, Bytes, IsByte, All, length, ok, err, archive_format, arith,
}
use mosaic_archive.Modes.Rle.{encode, decode}
use mosaic_archive.Modes.Rle.RoundTrip.{rle_round_trip, rle_encode_bounds}
use mosaic_archive.Modes.Rle.Accepts.{Runs, expand, rle_decode_iff}

abbrev sample : Bytes
sample = 7 ∷ 7 ∷ 7 ∷ 9 ∷ []

abbrev sevens : Bytes
sevens = 7 ∷ 7 ∷ 7 ∷ []

encode-sample : encode sample ≡ 3 ∷ 7 ∷ 1 ∷ 9 ∷ []
unfolding encode
encode-sample = refl

decode_zero_run : decode (0 ∷ 7 ∷ []) 0 ≡ err archive_format
unfolding decode
decode_zero_run = refl

decode_odd : decode (1 ∷ 7 ∷ 1 ∷ []) 1 ≡ err archive_format
unfolding decode
decode_odd = refl

rle_round_trip_example : decode (encode sample) 4 ≡ ok sample
rle_round_trip_example = rle_round_trip sample

rle_encode_bounds_example : All IsByte (encode sample) × (length (encode sample) ≤ 8)
rle_encode_bounds_example = rle_encode_bounds sample (omega arith)

rle_decode_iff_example :
    (decode (3 ∷ 7 ∷ []) 3 ≡ ok sevens)
    ↔ (Runs (3 ∷ 7 ∷ []) × (sevens ≡ expand (3 ∷ 7 ∷ [])) × (length sevens ≡ 3))
rle_decode_iff_example = rle_decode_iff (3 ∷ 7 ∷ []) 3 sevens
