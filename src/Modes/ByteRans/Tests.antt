-- ===== src/Modes/ByteRans/Tests.antt =====
-- BYTE_RANS: runs on concrete blocks, and the theorems at concrete inputs.
use mosaic_archive.Base.{◌≡◌, refl, [], ◌∷◌, Bytes, ok, err, archive_format, arith}
use mosaic_archive.Modes.ByteRans.{
  total, normalize_counts, symbols, counter, initial_frequencies, sort_by, add_loop, remove_loop,
  encode, decode, decode_body,
}
use mosaic_archive.Modes.ByteRans.RoundTrip.{byte_rans_round_trip}

abbrev skewed : Bytes
skewed = 5 ∷ 5 ∷ 5 ∷ 9 ∷ []

frequency_of_five : normalize_counts skewed 5 ≡ 3072
unfolding normalize_counts total counter initial_frequencies sort_by symbols add_loop remove_loop
frequency_of_five = refl

decode_short : decode (0 ∷ []) 1 ≡ err archive_format
unfolding decode decode_body
decode_short = refl

byte_rans_round_trip_example :
    (payload : Bytes) × (encode skewed ≡ ok payload) × (decode payload 4 ≡ ok skewed)
byte_rans_round_trip_example = byte_rans_round_trip skewed (omega arith)
