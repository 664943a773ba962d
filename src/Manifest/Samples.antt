-- ===== src/Manifest/Samples.antt =====
-- Entries that the tests of both manifests use.
use mosaic_archive.Base.{ℕ, ◌^◌, ◌<◌, ◌≡◌, refl, [], ◌∷◌, bytes_eq, all_bytes, replicate, ok, arith}
use mosaic_archive.Base.Int.{pos}
use mosaic_archive.Text.{Text}
use mosaic_archive.Text.Plain.{plain, plain_laws}
use mosaic_archive.Paths.{validate_relative_path}
use mosaic_archive.Manifest.{Entry, zero_hash}
use mosaic_archive.Manifest.Entries.{IsStorable}

abbrev pub root : Text
root = 114 ∷ []

-- The directory `a`, and `a/b` with five bytes in two frames or chunks.
abbrev pub directory : Entry
directory = record {
  entry_type = 2;
  relative_path = 97 ∷ [];
  mode = 493;
  mtime_ns = pos 7;
  size = 0;
  first = 0;
  count = 0;
  digest = zero_hash;
}

abbrev pub file : ℕ → Entry
file first = record {
  entry_type = 1;
  relative_path = 97 ∷ 47 ∷ 98 ∷ [];
  mode = 420;
  mtime_ns = pos 9;
  size = 5;
  first = first;
  count = 2;
  digest = replicate 32 5;
}

directory_path : validate_relative_path plain directory.relative_path ≡ ok directory.relative_path
unfolding validate_relative_path bytes_eq all_bytes
directory_path = refl

file_path : validate_relative_path plain (file 0).relative_path ≡ ok (file 0).relative_path
unfolding validate_relative_path bytes_eq all_bytes
file_path = refl

pub root_path : validate_relative_path plain root ≡ ok root
unfolding validate_relative_path bytes_eq all_bytes
root_path = refl

pub directory-IsStorable : IsStorable plain plain_laws directory
directory-IsStorable = record {
  known_type = refl;
  valid_path = directory_path;
  small_mode = omega arith;
  time_fits = omega arith;
  size_fits = omega arith;
  first_fits = omega arith;
  count_fits = omega arith;
  digest_fits = refl;
}

pub file-IsStorable : (first : ℕ) → first < 2 ^ 64 → IsStorable plain plain_laws (file first)
file-IsStorable first h = record {
  known_type = refl;
  valid_path = file_path;
  small_mode = omega arith;
  time_fits = omega arith;
  size_fits = omega arith;
  first_fits = h;
  count_fits = omega arith;
  digest_fits = refl;
}
