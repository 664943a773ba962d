-- ===== src/Format/Tests.antt =====
-- The public headers at concrete inputs.
use mosaic_archive.Base.{
  ℕ, ◌≡◌, true, refl, ◌↔◌, [], ◌∷◌, ◌++◌, replicate, Bytes, length, ok, all_bytes, all_bytes_lem,
  arith,
}
use mosaic_archive.Struct.RoundTrip.{Fits}
use mosaic_archive.Format.PublicHeader
use mosaic_archive.Format.PublicHeader.RoundTrip.{
  IsValid, parse_public_header_iff, parse-pack_public_header,
}
use mosaic_archive.Format.StreamHeader
use mosaic_archive.Format.StreamHeader.RoundTrip.{
  IsMsc2, parse_msc2_header_iff, parse-pack_msc2_header,
}
use mosaic_archive.Format.DedupHeader
use mosaic_archive.Format.DedupHeader.RoundTrip.{
  IsMsc3, parse_msc3_header_iff, parse-pack_msc3_header,
}
use mosaic_archive.Format.Frame.{
  frame_header, FrameHeader, header_values, pack_frame_header, parse_frame_header, frame_nonce,
}
use mosaic_archive.Format.Frame.Laws.{IsFrame, parse_frame_header_iff, frame_nonce_inj}
use mosaic_archive.Struct.Integers.{be}

abbrev zeros : ℕ → Bytes
zeros n = replicate n 0

-- An MSC1 header with blocks and padding of 256 bytes.
abbrev header : PublicHeader.PublicHeader
header = record {
  version = 1;
  flags = 1;
  kdf_id = 1;
  aead_id = 1;
  chunk_size = 256;
  padding_size = 256;
  salt = zeros 16;
  nonce = zeros 12;
  kdf_log_n = 14;
  kdf_r = 8;
  kdf_p = 1;
  ciphertext_length = 272;
}

abbrev header_bytes : Bytes
header_bytes =
    77
    ∷ 83
    ∷ 67
    ∷ 49
    ∷ 1
    ∷ 1
    ∷ 1
    ∷ 1
    ∷ 0
    ∷ 0
    ∷ 1
    ∷ 0
    ∷ 0
    ∷ 0
    ∷ 1
    ∷ 0
    ∷ (zeros 28 ++ (14 ∷ 8 ∷ 1 ∷ 0 ∷ 0 ∷ 0 ∷ 0 ∷ 0 ∷ 0 ∷ 1 ∷ 16 ∷ []))

header-IsValid : IsValid header
header-IsValid = record {
  version = refl;
  flags = refl;
  kdf = refl;
  aead = refl;
  chunk_positive = omega arith;
  chunk_bounded = omega arith;
  padding_low = omega arith;
  padding_high = omega arith;
  salt = refl;
  nonce = refl;
  cost_low = omega arith;
  cost_high = omega arith;
  r = refl;
  p = refl;
  ciphertext = omega arith;
}

header_bytes-IsByte : all_bytes header_bytes ≡ true
unfolding all_bytes
header_bytes-IsByte = refl

parse_public_header_iff_example : (PublicHeader.parse_public_header header_bytes ≡ ok header) ↔ (
    IsValid header
    × Fits PublicHeader.public_header (PublicHeader.header_values header)
    × (PublicHeader.pack_header header ≡ ok header_bytes))
parse_public_header_iff_example =
    parse_public_header_iff header_bytes header (all_bytes_lem header_bytes header_bytes-IsByte)

parse-pack_public_header_example :
    (buf : Bytes) × (PublicHeader.pack_header header ≡ ok buf)
    × (length buf ≡ 55)
    × (PublicHeader.parse_public_header buf ≡ ok header)
parse-pack_public_header_example = parse-pack_public_header header header-IsValid (omega arith)

-- An MSC2 header of a container with three frames.
abbrev msc2 : StreamHeader.Msc2Header
msc2 = record {
  version = 2;
  flags = 3;
  kdf_id = 1;
  aead_id = 1;
  chunk_size = 256;
  padding_size = 256;
  salt = zeros 16;
  nonce_prefix = zeros 4;
  kdf_log_n = 14;
  kdf_r = 8;
  kdf_p = 1;
  frame_count = 3;
}

abbrev msc2_bytes : Bytes
msc2_bytes =
    77
    ∷ 83
    ∷ 67
    ∷ 50
    ∷ 2
    ∷ 3
    ∷ 1
    ∷ 1
    ∷ 0
    ∷ 0
    ∷ 1
    ∷ 0
    ∷ 0
    ∷ 0
    ∷ 1
    ∷ 0
    ∷ (zeros 20 ++ (14 ∷ 8 ∷ 1 ∷ 0 ∷ 0 ∷ 0 ∷ 0 ∷ 0 ∷ 0 ∷ 0 ∷ 3 ∷ []))

msc2-IsMsc2 : IsMsc2 msc2
msc2-IsMsc2 = record {
  version = refl;
  flags = refl;
  kdf = refl;
  aead = refl;
  chunk_positive = omega arith;
  chunk_bounded = omega arith;
  padding_low = omega arith;
  padding_high = omega arith;
  salt = refl;
  nonce = refl;
  cost_low = omega arith;
  cost_high = omega arith;
  r = refl;
  p = refl;
  count_positive = omega arith;
  count_bounded = omega arith;
}

msc2_bytes-IsByte : all_bytes msc2_bytes ≡ true
unfolding all_bytes
msc2_bytes-IsByte = refl

parse_msc2_header_iff_example : (StreamHeader.parse_msc2_header msc2_bytes ≡ ok msc2) ↔ (
    IsMsc2 msc2
    × Fits StreamHeader.msc2_header (StreamHeader.header_values msc2)
    × (StreamHeader.pack_header msc2 ≡ ok msc2_bytes))
parse_msc2_header_iff_example =
    parse_msc2_header_iff msc2_bytes msc2 (all_bytes_lem msc2_bytes msc2_bytes-IsByte)

parse-pack_msc2_header_example :
    (buf : Bytes) × (StreamHeader.pack_header msc2 ≡ ok buf)
    × (length buf ≡ 47)
    × (StreamHeader.parse_msc2_header buf ≡ ok msc2)
parse-pack_msc2_header_example = parse-pack_msc2_header msc2 msc2-IsMsc2

-- An MSC6 header of a container with three frames.
abbrev msc6 : DedupHeader.Msc3Header
msc6 = record {
  version = 6;
  flags = 7;
  kdf_id = 1;
  aead_id = 1;
  min_chunk_size = 64;
  avg_chunk_size = 128;
  max_chunk_size = 256;
  padding_size = 256;
  salt = zeros 16;
  nonce_prefix = zeros 4;
  kdf_log_n = 14;
  kdf_r = 8;
  kdf_p = 1;
  frame_count = 3;
}

abbrev msc6_bytes : Bytes
msc6_bytes =
    77
    ∷ 83
    ∷ 67
    ∷ 54
    ∷ 6
    ∷ 7
    ∷ 1
    ∷ 1
    ∷ 0
    ∷ 0
    ∷ 0
    ∷ 64
    ∷ 0
    ∷ 0
    ∷ 0
    ∷ 128
    ∷ 0
    ∷ 0
    ∷ 1
    ∷ 0
    ∷ 0
    ∷ 0
    ∷ 1
    ∷ 0
    ∷ (zeros 20 ++ (14 ∷ 8 ∷ 1 ∷ 0 ∷ 0 ∷ 0 ∷ 0 ∷ 0 ∷ 0 ∷ 0 ∷ 3 ∷ []))

msc6-IsMsc3 : IsMsc3 msc6
msc6-IsMsc3 = record {
  version_low = omega arith;
  version_high = omega arith;
  flags = refl;
  kdf = refl;
  aead = refl;
  min_low = omega arith;
  power = refl;
  min_avg = omega arith;
  avg_max = omega arith;
  max_high = omega arith;
  padding_low = omega arith;
  padding_high = omega arith;
  salt = refl;
  nonce = refl;
  cost_low = omega arith;
  cost_high = omega arith;
  r = refl;
  p = refl;
  count_positive = omega arith;
  count_bounded = omega arith;
}

msc6_bytes-IsByte : all_bytes msc6_bytes ≡ true
unfolding all_bytes
msc6_bytes-IsByte = refl

parse_msc3_header_iff_example : (DedupHeader.parse_msc3_header msc6_bytes ≡ ok msc6) ↔ (
    IsMsc3 msc6
    × Fits DedupHeader.msc3_header (DedupHeader.header_values msc6)
    × (DedupHeader.pack_header msc6 ≡ ok msc6_bytes))
parse_msc3_header_iff_example =
    parse_msc3_header_iff msc6_bytes msc6 (all_bytes_lem msc6_bytes msc6_bytes-IsByte)

parse-pack_msc3_header_example :
    (buf : Bytes) × (DedupHeader.pack_header msc6 ≡ ok buf)
    × (length buf ≡ 55)
    × (DedupHeader.parse_msc3_header buf ≡ ok msc6)
parse-pack_msc3_header_example = parse-pack_msc3_header msc6 msc6-IsMsc3

-- The header of the first data frame.
abbrev frame : FrameHeader
frame = record { index = 1; frame_type = 2; ciphertext_length = 272 }

abbrev frame_bytes : Bytes
frame_bytes = 0 ∷ 0 ∷ 0 ∷ 0 ∷ 0 ∷ 0 ∷ 0 ∷ 1 ∷ 2 ∷ 0 ∷ 0 ∷ 1 ∷ 16 ∷ []

frame_bytes-IsByte : all_bytes frame_bytes ≡ true
unfolding all_bytes
frame_bytes-IsByte = refl

parse_frame_header_iff_example : (parse_frame_header frame_bytes ≡ ok frame) ↔ (
    IsFrame frame
    × Fits frame_header (header_values frame)
    × (pack_frame_header frame ≡ ok frame_bytes))
parse_frame_header_iff_example =
    parse_frame_header_iff frame_bytes frame (all_bytes_lem frame_bytes frame_bytes-IsByte)

abbrev block_index : ℕ
block_index = 258

abbrev nines : Bytes
nines = replicate 4 9

abbrev nonce : Bytes
nonce = 9 ∷ 9 ∷ 9 ∷ 9 ∷ 0 ∷ 0 ∷ 0 ∷ 0 ∷ 0 ∷ 0 ∷ 1 ∷ 2 ∷ []

nonce-sample : frame_nonce nines 258 ≡ ok nonce
unfolding frame_nonce be
nonce-sample = refl

frame_nonce_inj_example : (length nonce ≡ 12) × (nines ≡ nines) × (block_index ≡ block_index)
frame_nonce_inj_example =
    frame_nonce_inj nines nines block_index block_index nonce-sample nonce-sample
