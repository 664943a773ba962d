-- ===== src/Archive/Tests.antt =====
-- MSC1: a run on a concrete file, with stand-ins for the packages, and the theorems at it.
use mosaic_archive.Base.{
  ◌≡◌, ◌≤◌, refl, [], ◌∷◌, Bytes, bytes_eq, all_bytes, length, ok, err, value_error, arith,
}
use mosaic_archive.Text.{Text}
use mosaic_archive.Paths.{name}
use mosaic_archive.Archive.Samples.{sample, sample_laws}
use mosaic_archive.ResourceLimits.{validate_decode_limits}
use mosaic_archive.Archive.Encode.{read_blocks, encode_file}
use mosaic_archive.Archive.Decode.{inspect_archive, decode_file}
use mosaic_archive.Archive.Bounds.{decode_file_bounds}
use mosaic_archive.Archive.Inspect.{outcome, inspect_archive-decode_file}
use mosaic_archive.Archive.Inner.{IsArchivable}
use mosaic_archive.Archive.RoundTrip.{AreOptions, decode-encode_file}

-- A file of five bytes, in blocks of two, with the name `a`.
abbrev source : Bytes
source = 1 ∷ 2 ∷ 3 ∷ 4 ∷ 5 ∷ []

abbrev file_name : Text
file_name = 97 ∷ []

abbrev password : Bytes
password = 112 ∷ []

source-IsArchivable : IsArchivable sample file_name source 2 100 10
unfolding all_bytes read_blocks name bytes_eq
source-IsArchivable = record {
  bytes = omega arith;
  chunk_positive = omega arith;
  chunk_bounded = omega arith;
  blocks_fit = omega arith;
  frames_fit = omega arith;
  output_fits = omega arith;
  name_bytes = file_name;
  name_encodes = refl;
  name_fits = omega arith;
  name_some = refl;
  name_plain = refl;
}

options : AreOptions 256 14
options = record {
  padding_low = omega arith;
  padding_high = omega arith;
  cost_low = omega arith;
  cost_high = omega arith;
}

no_frames : decode_file sample [] password 100 0 100 ≡ err value_error
unfolding decode_file validate_decode_limits
no_frames = refl

sample_archive :
    (archive : Bytes) × (encode_file sample file_name source password 2 256 14 8 1 ≡ ok archive)
    × (decode_file sample archive password 100 10 70000 ≡ ok source)
unfolding read_blocks
sample_archive =
    decode-encode_file sample sample_laws file_name source password 2 256 14 100 10 70000
      source-IsArchivable options refl (omega arith) (omega arith) (omega arith)

decode-encode_file_example :
    (archive : Bytes) × (encode_file sample file_name source password 2 256 14 8 1 ≡ ok archive)
    × (decode_file sample archive password 100 10 70000 ≡ ok source)
unfolding read_blocks
decode-encode_file_example =
    decode-encode_file sample sample_laws file_name source password 2 256 14 100 10 70000
      source-IsArchivable options refl (omega arith) (omega arith) (omega arith)

-- The archive of the file.
abbrev archived : Bytes
archived = sample_archive.0

restored : decode_file sample archived password 100 10 70000 ≡ ok source
restored = sample_archive.2

decode_file_bounds_example : (length source ≤ 100) × (length archived ≤ 70000)
decode_file_bounds_example =
    decode_file_bounds sample archived password 100 10 70000 source restored

inspect_archive-decode_file_example :
    outcome (inspect_archive sample archived password 100 10 70000)
    ≡ outcome (decode_file sample archived password 100 10 70000)
inspect_archive-decode_file_example =
    inspect_archive-decode_file sample archived password 100 10 70000
