-- ===== src/Dedup/Frames/Tests.antt =====
-- A frame under a stand-in for the cipher.
use mosaic_archive.Base.{
  ℕ, ◌≡◌, refl, [], ◌∷◌, Bytes, length-replicate, replicate, err, archive_format, inr, arith,
}
use mosaic_archive.Aead.Plain.{plain, plain-laws}
use mosaic_archive.Format.DedupHeader.{Msc3Header}
use mosaic_archive.Format.DedupHeader.RoundTrip.{IsMsc3}
use mosaic_archive.Dedup.Frames.{read_exact, read_frame}
use mosaic_archive.Dedup.Frames.RoundTrip.{Written, read-write_frame}

abbrev zeros : ℕ → Bytes
zeros n = replicate n 0

abbrev header : Msc3Header
header = record {
  version = 6;
  flags = 7;
  kdf_id = 1;
  aead_id = 1;
  min_chunk_size = 64;
  avg_chunk_size = 128;
  max_chunk_size = 256;
  padding_size = 256;
  salt = zeros 16;
  nonce_prefix = zeros 4;
  kdf_log_n = 14;
  kdf_r = 8;
  kdf_p = 1;
  frame_count = 3;
}

header-IsMsc3 : IsMsc3 header
header-IsMsc3 = record {
  version_low = omega arith;
  version_high = omega arith;
  flags = refl;
  kdf = refl;
  aead = refl;
  min_low = omega arith;
  power = refl;
  min_avg = omega arith;
  avg_max = omega arith;
  max_high = omega arith;
  padding_low = omega arith;
  padding_high = omega arith;
  salt = refl;
  nonce = refl;
  cost_low = omega arith;
  cost_high = omega arith;
  r = refl;
  p = refl;
  count_positive = omega arith;
  count_bounded = omega arith;
}

read_frame_short : read_frame plain (1 ∷ 2 ∷ []) 0 1 [] [] header ≡ err archive_format
unfolding read_frame read_exact
read_frame_short = refl

read-write_frame_example :
    Written plain plain-laws zeros (λ n. length-replicate n 0) 1 2 (5 ∷ 6 ∷ []) (zeros 32) [] header
read-write_frame_example =
    read-write_frame plain plain-laws zeros (λ n. length-replicate n 0) 1 2 (5 ∷ 6 ∷ []) (zeros 32)
      [] header header-IsMsc3 (inr refl) (omega arith) (omega arith) refl (omega arith)
