-- ===== src/ResourceLimits.antt =====
-- resource_limits.py: the tests on the limits that a caller of a decoder gives.
use mosaic_archive.Base.{ℕ, ◌==◌, Result, raise_if, ◌>>◌, value_error}

-- The model's numbers are not negative, so that the test on the output's size is passed.
unfoldable pub validate_decode_limits : ℕ → ℕ → ℕ → Result (Unit {0})
validate_decode_limits max_output_size max_frame_count max_legacy_archive_size = do
  raise_if (max_frame_count == 0) value_error
  raise_if (max_legacy_archive_size == 0) value_error
