-- ===== src/Manifest/Stream/Tests.antt =====
-- MSC2's manifest: runs on concrete manifests, and the theorem at one.
use mosaic_archive.Base.{
  ◌≡◌, refl, [], ◌∷◌, Bytes, bytes_eq, replicate, inl, inr, ok, err, archive_format, arith,
}
use mosaic_archive.Text.{has, is_member}
use mosaic_archive.Text.Plain.{plain, plain_laws}
use mosaic_archive.Paths.{parent}
use mosaic_archive.Format.StreamHeader.{Msc2Header}
use mosaic_archive.Manifest.{check_shape, have_parents, directories}
use mosaic_archive.Dedup.Frames.{read_exact}
use mosaic_archive.Manifest.Samples.{
  root, directory, file, root_path, directory-IsStorable, file-IsStorable,
}
use mosaic_archive.Manifest.Stream.{Manifest, serialize_manifest, parse_manifest}
use mosaic_archive.Manifest.Stream.RoundTrip.{IsValid, AreValid, parse-serialize_manifest}

abbrev manifest : Manifest
manifest = record { kind = 2; root_name = root; entries = directory ∷ file 1 ∷ [] }

abbrev header : Msc2Header
header = record {
  version = 2;
  flags = 15;
  kdf_id = 1;
  aead_id = 1;
  chunk_size = 4;
  padding_size = 256;
  salt = replicate 16 0;
  nonce_prefix = replicate 4 0;
  kdf_log_n = 15;
  kdf_r = 8;
  kdf_p = 1;
  frame_count = 3;
}

manifest-IsValid : IsValid plain plain_laws manifest header
unfolding AreValid check_shape has is_member bytes_eq parent have_parents directories
manifest-IsValid = record {
  kind_is_known = inr refl;
  valid_root = root_path;
  basename = refl;
  few_entries = omega arith;
  valid_entries = (
    directory-IsStorable,
    refl,
    (
      1,
      inl (refl, refl, refl, refl, refl, refl),
      (file-IsStorable 1 (omega arith), refl, (3, inr (refl, refl, refl, refl), refl)),
    ),
  );
  shape = refl;
}

parse_short : parse_manifest plain (77 ∷ 50 ∷ []) header ≡ err archive_format
unfolding parse_manifest read_exact
parse_short = refl

parse-serialize_manifest_example :
    (buf : Bytes) × (serialize_manifest plain manifest ≡ ok buf)
    × (parse_manifest plain buf header ≡ ok manifest)
parse-serialize_manifest_example =
    parse-serialize_manifest plain plain_laws manifest header manifest-IsValid
