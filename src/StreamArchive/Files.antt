-- ===== src/StreamArchive/Files.antt =====
-- stream_archive.py: the data frames of one file, in the encoder's loop and in the decoder's.
use mosaic_archive.Base.{
  ℕ, zero, suc, ◌+◌, ◌-◌, ◌*◌, min, List, [], ◌∷◌, ◌++◌, Bytes, length, drop, bytes_eq, ltb, ◌==◌,
  ◌||◌, not, Result, ok, raise_if, ◌>>=◌, ◌>>◌, archive_format, integrity,
}
use mosaic_archive.Struct.{Format, uint, size, pack, unpack_from}
use mosaic_archive.Format.StreamHeader.{Msc2Header}
use mosaic_archive.Modes.Registry.{value, get_mode, choose_best_mode}
use mosaic_archive.Archive.Types.{Platform}
use mosaic_archive.Manifest.{Entry}
use mosaic_archive.StreamArchive.Frames.{write_frame, read_frame}

-- `DATA_PREFIX`, of the format ">IIB"
abbrev pub data_prefix : Format
data_prefix = uint 4 ∷ uint 4 ∷ uint 1 ∷ []

module _ (on : Platform) (key global_header : Bytes) (header : Msc2Header) where
  -- The frame of one block.
  unfoldable pub write_block : ℕ → ℕ → Bytes → Result Bytes
  write_block entry_index frame_index block = do
    selected ← choose_best_mode on.zlib block
    prefix ← pack data_prefix (entry_index, (length block, (value selected.mode.id, tt)))
    (frame, _) ←
        write_frame on.cipher on.random_padding frame_index 2 (prefix ++ selected.payload) key
          global_header header
    ok frame

  -- `while block := file_stream.read(chunk_size)`: the frames, and the index of the next one.
  unfoldable pub write_blocks : ℕ → ℕ → List Bytes → Result (Bytes × ℕ)
  write_blocks entry_index frame_index [] = ok ([], frame_index)
  write_blocks entry_index frame_index (block ∷ blocks) = do
    frame ← write_block entry_index frame_index block
    (rest, next) ← write_blocks entry_index (frame_index + 1) blocks
    ok (frame ++ rest, next)

  -- One round of the loop over a file's frames: the block, and what is left of the stream. Where
  -- `expected_size` is negative, no size is equal to it.
  unfoldable pub read_block : ℕ → Entry → ℕ → ℕ → Bytes → Result (Bytes × Bytes)
  read_block entry_index entry local_frame frame_index stream = do
    (payload, (_, rest)) ← read_frame on.cipher stream frame_index 2 key global_header header
    raise_if (ltb (length payload) (size data_prefix)) archive_format
    (actual_entry, (original_size, (mode_id, _))) ← unpack_from data_prefix payload
    let done = local_frame * header.chunk_size
    raise_if
        (not (actual_entry == entry_index)
          || ltb entry.size done
          || not (original_size == min header.chunk_size (entry.size - done)))
        archive_format
    mode ← get_mode on.zlib mode_id
    block ← mode.decode (drop (size data_prefix) payload) original_size
    ok (block, rest)

  -- `for local_frame in range(entry.frame_count)`, with `rounds` frames left: the bytes, the next
  -- frame, and what is left of the stream.
  unfoldable pub read_blocks_of : ℕ → ℕ → Entry → ℕ → ℕ → Bytes → Result (Bytes × (ℕ × Bytes))
  read_blocks_of zero entry_index entry local_frame frame_index stream =
      ok ([], (frame_index, stream))
  read_blocks_of (suc rounds) entry_index entry local_frame frame_index stream = do
    (block, rest) ← read_block entry_index entry local_frame frame_index stream
    (bytes, left) ← read_blocks_of rounds entry_index entry (local_frame + 1) (frame_index + 1) rest
    ok (block ++ bytes, left)

  -- What is written to the file of an entry, with the test at its end.
  unfoldable pub read_file : ℕ → Entry → ℕ → Bytes → Result (Bytes × (ℕ × Bytes))
  read_file entry_index entry frame_index stream = do
    (bytes, left) ← read_blocks_of entry.count entry_index entry 0 frame_index stream
    raise_if (not (length bytes == entry.size) || not (bytes_eq (on.sha256 bytes) entry.digest))
        integrity
    ok (bytes, left)
