-- ===== src/StreamArchive/Tests.antt =====
-- MSC2: the data frames of a concrete file, with stand-ins for the packages.
use mosaic_archive.Base.{◌+◌, ◌≡◌, refl, [], ◌∷◌, ◌++◌, Bytes, length, replicate, ok, arith}
use mosaic_archive.Base.Int.{pos}
use mosaic_archive.Format.StreamHeader.{Msc2Header}
use mosaic_archive.Format.StreamHeader.RoundTrip.{IsMsc2}
use mosaic_archive.Manifest.{Entry}
use mosaic_archive.Archive.Encode.{read_blocks}
use mosaic_archive.Archive.Samples.{sample, sample_laws}
use mosaic_archive.StreamArchive.Files.{write_blocks, read_file}
use mosaic_archive.StreamArchive.RoundTrip.{read-write_file}

abbrev header : Msc2Header
header = record {
  version = 2;
  flags = 3;
  kdf_id = 1;
  aead_id = 1;
  chunk_size = 2;
  padding_size = 256;
  salt = replicate 16 0;
  nonce_prefix = replicate 4 0;
  kdf_log_n = 14;
  kdf_r = 8;
  kdf_p = 1;
  frame_count = 4;
}

header-IsMsc2 : IsMsc2 header
header-IsMsc2 = record {
  version = refl;
  flags = refl;
  kdf = refl;
  aead = refl;
  chunk_positive = omega arith;
  chunk_bounded = omega arith;
  padding_low = omega arith;
  padding_high = omega arith;
  salt = refl;
  nonce = refl;
  cost_low = omega arith;
  cost_high = omega arith;
  r = refl;
  p = refl;
  count_positive = omega arith;
  count_bounded = omega arith;
}

-- A file of five bytes, in blocks of two, and its entry.
abbrev source : Bytes
source = 1 ∷ 2 ∷ 3 ∷ 4 ∷ 5 ∷ []

abbrev entry : Entry
entry = record {
  entry_type = 1;
  relative_path = 97 ∷ [];
  mode = 420;
  mtime_ns = pos 9;
  size = 5;
  first = 1;
  count = 3;
  digest = replicate 32 0;
}

abbrev key : Bytes
key = replicate 32 1

counted : entry.count ≡ length (read_blocks (length source) header.chunk_size source)
unfolding read_blocks
counted = refl

-- The frames begin at the second of the archive, behind the manifest's, and other bytes stand
-- behind them.
read-write_file_example :
    (frames : Bytes) × (write_blocks sample key [] header 0 1
        (read_blocks (length source) header.chunk_size source)
      ≡ ok (frames, 1 + entry.count))
    × (read_file sample key [] header 0 entry 1 (frames ++ (7 ∷ []))
        ≡ ok (source, (1 + entry.count, 7 ∷ [])))
read-write_file_example =
    read-write_file sample sample_laws key [] header header-IsMsc2 0 entry (omega arith) refl
      (omega arith) 1 source (7 ∷ []) (omega arith) refl counted refl (omega arith)
