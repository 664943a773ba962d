-- ===== src/Archive/Types.antt =====
-- archive.py: the formats and the records of MSC1, and the tests on options and limits.
use mosaic_archive.Base.{
  ℕ, ◌*◌, List, [], ◌∷◌, Bytes, leb, ◌==◌, ◌&&◌, ◌||◌, not, Result, raise_if, ◌>>◌, value_error,
}
use mosaic_archive.Struct.{Format, uint, str}
use mosaic_archive.Aead.{Aead}
use mosaic_archive.Text.{Text, Unicode}
use mosaic_archive.Format.PublicHeader.{PublicHeader}
use mosaic_archive.Modes.Deflate.{Zlib}

-- `b"MSCP"`
abbrev pub inner_magic : Bytes
inner_magic = 77 ∷ 83 ∷ 67 ∷ 80 ∷ []

-- `INNER_PREFIX`, `BLOCK_COUNT` and `BLOCK_HEADER`, of the formats ">4sQH", ">I" and ">BII"
abbrev pub inner_prefix : Format
inner_prefix = str 4 ∷ uint 8 ∷ uint 2 ∷ []

abbrev pub block_count_format : Format
block_count_format = uint 4 ∷ []

abbrev pub block_header : Format
block_header = uint 1 ∷ uint 4 ∷ uint 4 ∷ []

abbrev pub max_block_count : ℕ
max_block_count = 16777216

pub record EncodedRecord : Type 0 where
  pub mode_id : ℕ
  pub original_size : ℕ
  pub payload : Bytes

-- Of `_DecodedArchive`, what the bytes of the archive determine.
pub record DecodedArchive : Type 0 where
  pub file_name : Text
  pub original_size : ℕ
  pub expected_hash : Bytes
  pub records : List EncodedRecord
  pub compressed_size : ℕ
  pub padded_plaintext_size : ℕ
  pub header : PublicHeader
  pub archive_size : ℕ

-- `ArchiveInfo`, without the distribution of the modes.
pub record ArchiveInfo : Type 0 where
  pub version : ℕ
  pub file_name : Text
  pub original_size : ℕ
  pub compressed_size : ℕ
  pub padded_plaintext_size : ℕ
  pub archive_size : ℕ
  pub padding_overhead : ℕ
  pub chunk_size : ℕ
  pub block_count : ℕ

-- The packages that the archive is built on, and the random bytes of one run.
pub record Platform : Type 1 where
  pub zlib : Zlib
  pub unicode : Unicode
  pub cipher : Aead
  pub sha256 : Bytes → Bytes
  pub scrypt : Bytes → ℕ → ℕ → ℕ → Bytes → Bytes
  pub random_salt : Bytes
  pub random_nonce : Bytes
  pub random_padding : ℕ → Bytes

unfoldable pub validate_encode_options : ℕ → ℕ → ℕ → ℕ → ℕ → Result (Unit {0})
validate_encode_options chunk_size padding_size kdf_log_n kdf_r kdf_p = do
  raise_if (not (leb 1 chunk_size && leb chunk_size (16 * 1024 * 1024))) value_error
  raise_if (not (leb 256 padding_size && leb padding_size (16 * 1024 * 1024))) value_error
  raise_if (not (leb 14 kdf_log_n && leb kdf_log_n 18)) value_error
  raise_if (not (kdf_r == 8) || not (kdf_p == 1)) value_error
