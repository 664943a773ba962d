-- ===== src/Modes/Raw.antt =====
-- modes/raw.py: the block as it stands.
use mosaic_archive.Base.{ℕ, Bytes, length, ◌==◌, if◌then◌else◌, Result, ok, err, archive_format}

unfoldable pub encode : Bytes → Result Bytes
encode block = ok block

unfoldable pub decode : Bytes → ℕ → Result Bytes
decode payload expected_size =
    if length payload == expected_size then ok payload else err archive_format
