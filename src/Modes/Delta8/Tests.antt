-- ===== src/Modes/Delta8/Tests.antt =====
-- DELTA8: runs on concrete blocks, and the theorems at concrete inputs.
use mosaic_archive.Base.{◌≡◌, refl, [], ◌∷◌, Bytes, ok, err, archive_format, arith}
use mosaic_archive.Modes.Rle
use mosaic_archive.Modes.Delta8.{encode, decode}
use mosaic_archive.Modes.Delta8.RoundTrip.{delta8_round_trip}

abbrev ramp : Bytes
ramp = 250 ∷ 253 ∷ 0 ∷ 3 ∷ []

encode-ramp : encode ramp ≡ 250 ∷ 3 ∷ 3 ∷ []
unfolding encode Rle.encode
encode-ramp = refl

decode_missing : decode [] 2 ≡ err archive_format
unfolding decode
decode_missing = refl

delta8_round_trip_example : decode (encode ramp) 4 ≡ ok ramp
delta8_round_trip_example = delta8_round_trip ramp (omega arith)
