-- ===== src/Archive/Encode.antt =====
-- archive.py: from the bytes of a file to those of its archive.
use mosaic_archive.Base.{
  ℕ, zero, suc, ◌+◌, List, [], ◌∷◌, ◌++◌, Bytes, length, take, drop, ltb, ◌==◌, if◌then◌else◌,
  Result, ok, raise_if, ◌>>=◌, ◌>>◌, value_error,
}
use mosaic_archive.Struct.{pack}
use mosaic_archive.Crypto.{normalize_password, derive_key}
use mosaic_archive.Text.{Text, or_value_error}
use mosaic_archive.Padding.{pad_payload}
use mosaic_archive.Format.PublicHeader.{pack_header}
use mosaic_archive.Modes.Registry.{value, choose_best_mode}
use mosaic_archive.Archive.Types.{
  inner_magic, inner_prefix, block_count_format, block_header, max_block_count, EncodedRecord,
  Platform, validate_encode_options,
}

-- `while block := source.read(chunk_size)`; a block has a byte at least, so the length of the file
-- is fuel enough.
unfoldable pub read_blocks : ℕ → ℕ → Bytes → List Bytes
read_blocks zero chunk_size source = []
read_blocks (suc fuel) chunk_size source =
    let rest = read_blocks fuel chunk_size (drop chunk_size source) in
    if length (take chunk_size source) == 0 then [] else take chunk_size source ∷ rest

-- `stream.write(BLOCK_HEADER.pack(...))` and `stream.write(record.payload)`
unfoldable pub write_records : List EncodedRecord → Result Bytes
write_records [] = ok []
write_records (r ∷ rs) = do
  front ← pack block_header (r.mode_id, (r.original_size, (length r.payload, tt)))
  rest ← write_records rs
  ok ((front ++ r.payload) ++ rest)

module _ (on : Platform) where
  -- The records of the blocks, each in the best mode.
  unfoldable pub encode_blocks : List Bytes → Result (List EncodedRecord)
  encode_blocks [] = ok []
  encode_blocks (block ∷ blocks) = do
    selected ← choose_best_mode on.zlib block
    rest ← encode_blocks blocks
    ok (
        record {
          mode_id = value selected.mode.id;
          original_size = length block;
          payload = selected.payload;
        }
        ∷ rest)

  -- `_build_inner_stream`, without the statistics; the name of the file stands with its bytes.
  unfoldable pub build_inner_stream : Text → Bytes → ℕ → Result Bytes
  unfolding read_blocks encode_blocks write_records
  build_inner_stream file_name source chunk_size = do
    records ← encode_blocks (read_blocks (length source) chunk_size source)
    raise_if (ltb max_block_count (length records)) value_error
    name_bytes ← or_value_error (on.unicode.encode file_name)
    raise_if (ltb 65535 (length name_bytes)) value_error
    prefix ← pack inner_prefix (inner_magic, (length source, (length name_bytes, tt)))
    count ← pack block_count_format (length records, tt)
    body ← write_records records
    ok (prefix ++ (name_bytes ++ (on.sha256 source ++ (count ++ body))))

  -- `encode_file`, from the bytes of the file to those of the archive.
  unfoldable pub encode_file : Text → Bytes → Bytes → ℕ → ℕ → ℕ → ℕ → ℕ → Result Bytes
  unfolding build_inner_stream
  encode_file file_name source password chunk_size padding_size kdf_log_n kdf_r kdf_p = do
    _ ← normalize_password password
    validate_encode_options chunk_size padding_size kdf_log_n kdf_r kdf_p
    inner ← build_inner_stream file_name source chunk_size
    padded ← pad_payload on.random_padding inner padding_size
    associated_data ← pack_header (record {
      version = 1;
      flags = 1;
      kdf_id = 1;
      aead_id = 1;
      chunk_size = chunk_size;
      padding_size = padding_size;
      salt = on.random_salt;
      nonce = on.random_nonce;
      kdf_log_n = kdf_log_n;
      kdf_r = kdf_r;
      kdf_p = kdf_p;
      ciphertext_length = length padded + 16;
    })
    key ← derive_key on.scrypt password on.random_salt kdf_log_n kdf_r kdf_p
    ciphertext ← on.cipher.encrypt key on.random_nonce padded associated_data
    ok (associated_data ++ ciphertext)
