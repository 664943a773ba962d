-- ===== src/Solid/Frames.antt =====
-- The writer of a lane's frames, `write_precompressed_solid_lane_frames`, and their reader,
-- `read_solid_lane_frames`, for a lane that is passed through without a codec.
pub mod Frame
pub mod RoundTrip
mod Tests
use mosaic_archive.Base.{
  ℕ, zero, suc, ◌+◌, ◌-◌, ◌*◌, ◌/◌, ◌%◌, min, max, [], ◌∷◌, ◌++◌, Bytes, Bool, true, false, not,
  ◌&&◌, ◌||◌, length, take, drop, leb, ltb, ◌==◌, if◌then◌else◌, Result, ok, err, raise_if, ◌>>=◌,
  ◌>>◌, value_error, archive_format, out_of_fuel,
}
use mosaic_archive.Struct.{Format, uint, size, pack, unpack}
use mosaic_archive.Aead.{Aead}
use mosaic_archive.Padding.{pad_payload, unpad_payload}
use mosaic_archive.Format.Frame.{frame_nonce}
use mosaic_archive.Dedup.Frames.{read_exact}

-- `_FRAME_HEADER`, of the format ">IBBI"
abbrev pub frame_header : Format
frame_header = uint 4 ∷ uint 1 ∷ uint 1 ∷ uint 4 ∷ []

-- The arguments that the writer and the reader share.
pub record Lane : Type 0 where
  pub key : Bytes
  pub nonce_prefix : Bytes
  pub associated_data : Bytes
  pub lane : ℕ
  pub frame_payload_size : ℕ
  pub padding_size : ℕ

unfoldable pub validate_options : Lane → Result (Unit {0})
validate_options o = do
  raise_if (not (o.lane == 0 || o.lane == 1 || o.lane == 2)) value_error
  raise_if (not (length o.nonce_prefix == 4)) value_error
  raise_if (not (leb 1024 o.frame_payload_size && leb o.frame_payload_size (16 * 1024 * 1024)))
      value_error
  raise_if (not (leb 256 o.padding_size && leb o.padding_size o.frame_payload_size)) value_error

-- `_FLAG_FINAL if final else 0`
abbrev pub flags_of : Bool → ℕ
flags_of final = if final then 1 else 0

-- What `emit` changes: the destination and the three variables of the writer.
pub record Writer : Type 0 where
  pub destination : Bytes
  pub index : ℕ
  pub padded_size : ℕ
  pub maximum : ℕ

-- `SolidFrameWriteStats`
pub record WriteStats : Type 0 where
  pub frame_count : ℕ
  pub next_index : ℕ
  pub compressed_size : ℕ
  pub padded_size : ℕ
  pub max_frame_payload : ℕ

module _ (cipher : Aead) (urandom : ℕ → Bytes) (o : Lane) where
  unfoldable pub emit : Writer → Bytes → Bool → Result Writer
  emit s payload final = do
    raise_if (ltb 4294967295 s.index) value_error
    padded ← pad_payload urandom payload o.padding_size
    header ← pack frame_header (s.index, (o.lane, (flags_of final, (length padded + 16, tt))))
    nonce ← frame_nonce o.nonce_prefix s.index
    ciphertext ← cipher.encrypt o.key nonce padded (o.associated_data ++ header)
    ok (record {
      destination = s.destination ++ (header ++ ciphertext);
      index = s.index + 1;
      padded_size = s.padded_size + length padded;
      maximum = max s.maximum (length payload);
    })

  -- `while remaining`, and what is left of the source. A round takes a byte at least, as the options
  -- are valid, so as many rounds as there are bytes are enough.
  unfoldable pub write_loop : ℕ → ℕ → Bytes → Writer → Result (Writer × Bytes)
  write_loop fuel zero source s = ok (s, source)
  write_loop zero (suc remaining) source s = err out_of_fuel
  write_loop (suc fuel) (suc remaining) source s = do
    let n = min o.frame_payload_size (suc remaining)
    let payload = take n source
    raise_if (not (length payload == n)) value_error
    next ← emit s payload (suc remaining - n == 0)
    write_loop fuel (suc remaining - n) (drop n source) next

  -- An integer below zero is refused as well, before the loop; it is no argument here.
  unfoldable pub write_precompressed_solid_lane_frames : Bytes → ℕ → ℕ → Result (Bytes × WriteStats)
  write_precompressed_solid_lane_frames source compressed_size start_index = do
    validate_options o
    raise_if (ltb 4294967295 start_index) value_error
    let s : Writer = record { destination = []; index = start_index; padded_size = 0; maximum = 0 }
    first ← if compressed_size == 0 then emit s [] true else ok s
    (last, left) ← write_loop compressed_size compressed_size source first
    raise_if (not (length (take 1 left) == 0)) value_error
    ok (
      last.destination,
      record {
        frame_count = last.index - start_index;
        next_index = last.index;
        compressed_size = compressed_size;
        padded_size = last.padded_size;
        max_frame_payload = last.maximum;
      },
    )

module _ (cipher : Aead) (o : Lane) where
  abbrev pub maximum_padded : ℕ
  maximum_padded = (8 + o.frame_payload_size + o.padding_size - 1) / o.padding_size * o.padding_size

  -- One frame: its payload, and the bytes behind it.
  unfoldable pub read_frame : ℕ → Bool → Bytes → Result (Bytes × Bytes)
  read_frame index final stream = do
    (header, after) ← read_exact stream (size frame_header)
    (actual_index, (actual_lane, (flags, (ciphertext_length, _)))) ← unpack frame_header header
    raise_if
        (not (actual_index == index)
          || not (actual_lane == o.lane)
          || not (flags == flags_of final)
          || ltb ciphertext_length 16
          || ltb (maximum_padded + 16) ciphertext_length
          || not ((ciphertext_length - 16) % o.padding_size == 0))
        archive_format
    (ciphertext, rest) ← read_exact after ciphertext_length
    nonce ← frame_nonce o.nonce_prefix index
    padded ← cipher.decrypt o.key nonce ciphertext (o.associated_data ++ header)
    compressed ← unpad_payload padded
    raise_if
        (ltb o.frame_payload_size (length compressed)
          || (not final && not (length compressed == o.frame_payload_size)))
        archive_format
    ok (compressed, rest)

  -- `for offset in range(frame_count)`, with as many frames left, when the codec is passed through;
  -- of the declared size, `remaining` bytes are left.
  unfoldable pub read_loop : ℕ → ℕ → ℕ → Bytes → Result (Bytes × Bytes)
  read_loop zero index remaining stream = ok ([], stream)
  read_loop (suc frames) index remaining stream = do
    (compressed, rest) ← read_frame index (frames == 0) stream
    raise_if (ltb remaining (length compressed)) archive_format
    (bytes, left) ← read_loop frames (index + 1) (remaining - length compressed) rest
    ok (compressed ++ bytes, left)

  -- The bytes that are written to the destination, and what is left of the source.
  unfoldable pub read_solid_lane_frames : Bytes → ℕ → ℕ → ℕ → Result (Bytes × Bytes)
  read_solid_lane_frames stream start_index frame_count expected_size = do
    validate_options o
    raise_if (frame_count == 0) archive_format
    (bytes, left) ← read_loop frame_count start_index expected_size stream
    raise_if (not (length bytes == expected_size)) archive_format
    ok (bytes, left)
