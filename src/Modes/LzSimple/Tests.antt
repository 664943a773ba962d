-- ===== src/Modes/LzSimple/Tests.antt =====
-- LZ_SIMPLE: runs on concrete blocks, and the theorems at concrete inputs.
use mosaic_archive.Base.{◌≡◌, ◌⊎◌, refl, [], ◌∷◌, Bytes, length, ok, err, archive_format, bytes_eq}
use mosaic_archive.Modes.LzSimple.{encode, decode}
use mosaic_archive.Modes.LzSimple.RoundTrip.{lz_simple_round_trip}
use mosaic_archive.Modes.LzSimple.Total.{lz_simple_decode_total}

abbrev repeated : Bytes
repeated = 1 ∷ 2 ∷ 3 ∷ 1 ∷ 2 ∷ 3 ∷ 1 ∷ 2 ∷ 3 ∷ 1 ∷ []

-- Three literals, then a match of seven bytes at a distance of three.
encode-repeated : encode repeated ≡ 0 ∷ 0 ∷ 3 ∷ 1 ∷ 2 ∷ 3 ∷ 1 ∷ 0 ∷ 3 ∷ 0 ∷ 7 ∷ []
unfolding encode bytes_eq
encode-repeated = refl

decode_bad_tag : decode (2 ∷ []) 1 ≡ err archive_format
unfolding decode
decode_bad_tag = refl

lz_simple_round_trip_example : decode (encode repeated) 10 ≡ ok repeated
lz_simple_round_trip_example = lz_simple_round_trip repeated

lz_simple_decode_total_example :
    ((block : Bytes) × (decode (1 ∷ 0 ∷ []) 3 ≡ ok block) × (length block ≡ 3))
    ⊎ (decode (1 ∷ 0 ∷ []) 3 ≡ err archive_format)
lz_simple_decode_total_example = lz_simple_decode_total (1 ∷ 0 ∷ []) 3
