-- ===== src/Solid/Frames/Tests.antt =====
-- The frames of a lane of two frames, under a stand-in for the cipher.
use mosaic_archive.Base.{
  ℕ, ◌≡◌, refl, [], ◌∷◌, Bytes, replicate, length, length-replicate, err, archive_format, true,
  arith,
}
use mosaic_archive.Aead.Plain.{plain, plain-laws}
use mosaic_archive.Dedup.Frames.{read_exact}
use mosaic_archive.Solid.Frames.{Lane, read_frame}
use mosaic_archive.Solid.Frames.Frame.{IsLane}
use mosaic_archive.Solid.Frames.RoundTrip.{LaneWritten, read-write_solid_lane}

abbrev nines : ℕ → Bytes
nines n = replicate n 9

abbrev options : Lane
options = record {
  key = replicate 32 1;
  nonce_prefix = replicate 4 2;
  associated_data = 3 ∷ [];
  lane = 1;
  frame_payload_size = 1024;
  padding_size = 256;
}

options-IsLane : IsLane options
options-IsLane = record {
  key = refl;
  extra = omega arith;
  lane = omega arith;
  nonce = refl;
  payload_low = omega arith;
  payload_high = omega arith;
  padding_low = omega arith;
  padding_high = omega arith;
}

abbrev source : Bytes
source = replicate 1500 5

source_size : length source ≡ 1500
source_size = length-replicate {A = ℕ} 1500 5

truncated : read_frame plain options 7 true (1 ∷ 2 ∷ []) ≡ err archive_format
unfolding read_frame read_exact
truncated = refl

read-write_solid_lane_example :
    LaneWritten plain plain-laws nines (λ n. length-replicate n 9) options options-IsLane source 7
read-write_solid_lane_example =
    read-write_solid_lane plain plain-laws nines (λ n. length-replicate n 9) options options-IsLane
      source 7 (omega (arith, source_size)) (omega (arith, source_size))
