-- ===== src/Archive/Decode.antt =====
-- archive.py: from the bytes of an archive to those of the file.
use mosaic_archive.Base.{
  ℕ, zero, suc, ◌+◌, ◌-◌, ◌%◌, List, [], ◌∷◌, ◌++◌, Bytes, length, take, drop, bytes_eq, ltb, ◌==◌,
  ◌&&◌, ◌||◌, not, Result, ok, err, raise_if, ◌>>=◌, ◌>>◌, archive_format, integrity, Option, none,
  some,
}
use mosaic_archive.Struct.{size, unpack}
use mosaic_archive.Crypto.{normalize_password, derive_key}
use mosaic_archive.Text.{Text, text_eq}
use mosaic_archive.Paths.{name}
use mosaic_archive.Padding.{unpad_payload}
use mosaic_archive.Format.PublicHeader.{public_header, PublicHeader, parse_public_header}
use mosaic_archive.Dedup.Frames.{read_exact}
use mosaic_archive.Modes.Registry.{get_mode}
use mosaic_archive.ResourceLimits.{validate_decode_limits}
use mosaic_archive.Archive.Types.{
  inner_magic, inner_prefix, block_count_format, block_header, max_block_count, EncodedRecord,
  DecodedArchive, ArchiveInfo, Platform,
}

-- `except UnicodeDecodeError`
unfoldable pub or_format_error : Option Text → Result Text
or_format_error none = err archive_format
or_format_error (some text) = ok text

module _ (on : Platform) where
  -- `for block_index in range(block_count)`: the records, the sum of their sizes, and what is left.
  unfoldable pub read_records : ℕ → ℕ → Bytes → Result (List EncodedRecord × (ℕ × Bytes))
  read_records zero chunk_size stream = ok ([], (0, stream))
  read_records (suc n) chunk_size stream = do
    (front, after) ← read_exact stream (size block_header)
    (mode_id, (block_size, (payload_size, _))) ← unpack block_header front
    _ ← get_mode on.zlib mode_id
    raise_if (block_size == 0 || ltb chunk_size block_size) archive_format
    (payload, rest) ← read_exact after payload_size
    (records, (total, left)) ← read_records n chunk_size rest
    ok (
      record { mode_id = mode_id; original_size = block_size; payload = payload } ∷ records,
      (block_size + total, left),
    )

  -- `name_bytes.decode("utf-8")`
  unfoldable pub decode_name : Bytes → Result Text
  unfolding or_format_error
  decode_name bytes = or_format_error (on.unicode.decode bytes)

  unfoldable pub parse_inner : Bytes → PublicHeader → ℕ → ℕ → ℕ → ℕ → Result DecodedArchive
  unfolding read_records decode_name
  parse_inner inner header archive_size padded_plaintext_size max_output_size max_frame_count = do
    (prefix, after_prefix) ← read_exact inner (size inner_prefix)
    (magic, (original_size, (name_length, _))) ← unpack inner_prefix prefix
    raise_if (not (bytes_eq magic inner_magic)) archive_format
    raise_if (ltb max_output_size original_size) archive_format
    (name_bytes, after_name) ← read_exact after_prefix name_length
    file_name ← decode_name name_bytes
    raise_if (length file_name == 0 || not (text_eq (name file_name) file_name)) archive_format
    (expected_hash, after_hash) ← read_exact after_name 32
    (count_bytes, after_count) ← read_exact after_hash (size block_count_format)
    (block_count, _) ← unpack block_count_format count_bytes
    raise_if (ltb max_block_count block_count || ltb max_frame_count block_count) archive_format
    (records, (total, left)) ← read_records block_count header.chunk_size after_count
    raise_if (not (length left == 0)) archive_format
    raise_if (not (total == original_size)) archive_format
    raise_if (original_size == 0 && not (block_count == 0)) archive_format
    ok (record {
      file_name = file_name;
      original_size = original_size;
      expected_hash = expected_hash;
      records = records;
      compressed_size = length inner;
      padded_plaintext_size = padded_plaintext_size;
      header = header;
      archive_size = archive_size;
    })

  -- `_open_archive`, on the bytes of the archive.
  unfoldable pub open_archive : Bytes → Bytes → ℕ → ℕ → ℕ → Result DecodedArchive
  unfolding parse_inner
  open_archive archive password max_output_size max_frame_count max_archive_size = do
    validate_decode_limits max_output_size max_frame_count max_archive_size
    _ ← normalize_password password
    raise_if (ltb max_archive_size (length archive)) archive_format
    let associated_data = take (size public_header) archive
    header ← parse_public_header associated_data
    raise_if (not (length archive == size public_header + header.ciphertext_length)) archive_format
    let ciphertext = take header.ciphertext_length (drop (size public_header) archive)
    key ← derive_key on.scrypt password header.salt header.kdf_log_n header.kdf_r header.kdf_p
    padded ← on.cipher.decrypt key header.nonce ciphertext associated_data
    raise_if (not (length padded % header.padding_size == 0)) archive_format
    inner ← unpad_payload padded
    parse_inner inner header (length archive) (length padded) max_output_size max_frame_count

  -- `_decode_records`: what is written to the sink.
  unfoldable pub decode_records : List EncodedRecord → Result Bytes
  decode_records [] = ok []
  decode_records (r ∷ rs) = do
    mode ← get_mode on.zlib r.mode_id
    block ← mode.decode r.payload r.original_size
    rest ← decode_records rs
    ok (block ++ rest)

  -- `decode_file`, from the bytes of the archive to those of the restored file.
  unfoldable pub decode_file : Bytes → Bytes → ℕ → ℕ → ℕ → Result Bytes
  unfolding open_archive decode_records
  decode_file archive password max_output_size max_frame_count max_archive_size = do
    decoded ← open_archive archive password max_output_size max_frame_count max_archive_size
    restored ← decode_records decoded.records
    raise_if (not (bytes_eq (on.sha256 restored) decoded.expected_hash)) integrity
    ok restored

  -- `inspect_archive`, on the bytes of the archive.
  unfoldable pub inspect_archive : Bytes → Bytes → ℕ → ℕ → ℕ → Result ArchiveInfo
  unfolding open_archive decode_records
  inspect_archive archive password max_output_size max_frame_count max_archive_size = do
    decoded ← open_archive archive password max_output_size max_frame_count max_archive_size
    restored ← decode_records decoded.records
    raise_if (not (bytes_eq (on.sha256 restored) decoded.expected_hash)) integrity
    ok (record {
      version = (decoded.header).version;
      file_name = decoded.file_name;
      original_size = decoded.original_size;
      compressed_size = decoded.compressed_size;
      padded_plaintext_size = decoded.padded_plaintext_size;
      archive_size = decoded.archive_size;
      padding_overhead = decoded.padded_plaintext_size - 8 - decoded.compressed_size;
      chunk_size = (decoded.header).chunk_size;
      block_count = length decoded.records;
    })
