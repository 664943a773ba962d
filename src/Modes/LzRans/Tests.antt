-- ===== src/Modes/LzRans/Tests.antt =====
-- LZ_RANS: runs on concrete blocks, and the theorem at a concrete input.
use mosaic_archive.Base.{
  ◌≡◌, refl, [], ◌∷◌, Bytes, bytes_eq, length, ok, err, archive_format, arith,
}
use mosaic_archive.Modes.LzRans.{tokenize, encode, decode}
use mosaic_archive.Modes.LzRans.Varint.{encode_varint, decode_varints}
use mosaic_archive.Modes.LzRans.RoundTrip.{lz_rans_round_trip}

-- `b"abcabcabcabc"`
abbrev repeated : Bytes
repeated = 97 ∷ 98 ∷ 99 ∷ 97 ∷ 98 ∷ 99 ∷ 97 ∷ 98 ∷ 99 ∷ 97 ∷ 98 ∷ 99 ∷ []

-- Three literals, and a match of nine bytes at distance three.
tokens_of_repeated : (tokenize repeated).tokens ≡ 0 ∷ 1 ∷ []
unfolding tokenize bytes_eq
tokens_of_repeated = refl

matches_of_repeated : (tokenize repeated).match_lengths ≡ 9 ∷ []
unfolding tokenize bytes_eq encode_varint
matches_of_repeated = refl

distances_of_repeated : (tokenize repeated).distances ≡ 3 ∷ []
unfolding tokenize bytes_eq encode_varint
distances_of_repeated = refl

varint_of_300 : encode_varint 300 [] ≡ 172 ∷ 2 ∷ []
unfolding encode_varint
varint_of_300 = refl

varint_truncated : decode_varints (172 ∷ []) 1 ≡ err archive_format
unfolding decode_varints
varint_truncated = refl

decode_short : decode (0 ∷ []) 1 ≡ err archive_format
unfolding decode
decode_short = refl

lz_rans_round_trip_example :
    (payload : Bytes) × (encode repeated ≡ ok payload)
    × (decode payload (length repeated) ≡ ok repeated)
lz_rans_round_trip_example = lz_rans_round_trip repeated (omega arith) (omega arith)
