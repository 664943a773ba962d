-- ===== src/Manifest/Dedup/Tests.antt =====
-- MSC3's manifest: runs on concrete manifests, and the theorem at one.
use mosaic_archive.Base.{
  ◌≡◌, refl, [], ◌∷◌, Bytes, bytes_eq, replicate, inl, inr, ok, err, archive_format, arith,
}
use mosaic_archive.Text.{has, is_member}
use mosaic_archive.Text.Plain.{plain, plain_laws}
use mosaic_archive.Paths.{parent}
use mosaic_archive.Format.DedupHeader.{Msc3Header}
use mosaic_archive.Dedup.Frames.{read_exact}
use mosaic_archive.Dedup.Chunks.{check_records}
use mosaic_archive.Manifest.{check_shape, have_parents, directories}
use mosaic_archive.Manifest.Samples.{
  root, directory, file, root_path, directory-IsStorable, file-IsStorable,
}
use mosaic_archive.Manifest.Dedup.{DedupManifest, serialize_dedup_manifest, parse_dedup_manifest}
use mosaic_archive.Manifest.Dedup.RoundTrip.{
  IsValid, AreValid, HaveSums, parse-serialize_dedup_manifest,
}

-- The file's bytes are cut into a chunk of four and one of one.
abbrev manifest : DedupManifest
manifest = record {
  kind = 2;
  root_name = root;
  entries = directory ∷ file 0 ∷ [];
  chunks =
      record { digest = replicate 32 1; size = 4; source_index = 0 }
      ∷ record { digest = replicate 32 2; size = 1; source_index = 1 }
      ∷ [];
}

abbrev header : Msc3Header
header = record {
  version = 3;
  flags = 15;
  kdf_id = 1;
  aead_id = 1;
  min_chunk_size = 256;
  avg_chunk_size = 512;
  max_chunk_size = 1024;
  padding_size = 256;
  salt = replicate 16 0;
  nonce_prefix = replicate 4 0;
  kdf_log_n = 15;
  kdf_r = 8;
  kdf_p = 1;
  frame_count = 3;
}

manifest-IsValid : IsValid plain plain_laws manifest header
unfolding AreValid HaveSums check_shape check_records has is_member bytes_eq parent have_parents
    directories
manifest-IsValid = record {
  kind_is_known = inr refl;
  valid_root = root_path;
  basename = refl;
  few_entries = omega arith;
  few_chunks = omega arith;
  valid_entries = (
    directory-IsStorable,
    refl,
    (
      0,
      inl (refl, refl, refl, refl, refl, refl),
      (
        file-IsStorable 0 (omega arith),
        refl,
        (2, inr (refl, inr (λ e. omega (arith, e), λ e. omega (arith, e)), refl, refl), refl),
      ),
    ),
  );
  chunks_fit = (
    record { digest_fits = refl; size_fits = omega arith; source_fits = omega arith },
    (record { digest_fits = refl; size_fits = omega arith; source_fits = omega arith }, tt),
  );
  unique_count = 2;
  valid_chunks = refl;
  one_frame_each = refl;
  sums = (inl refl, (inr (refl, refl), tt));
  shape = refl;
}

parse_short : parse_dedup_manifest plain (77 ∷ 51 ∷ []) header ≡ err archive_format
unfolding parse_dedup_manifest read_exact
parse_short = refl

parse-serialize_dedup_manifest_example :
    (buf : Bytes) × (serialize_dedup_manifest plain manifest ≡ ok buf)
    × (parse_dedup_manifest plain buf header ≡ ok manifest)
parse-serialize_dedup_manifest_example =
    parse-serialize_dedup_manifest plain plain_laws manifest header manifest-IsValid
