-- ===== src/Format/Frame.antt =====
-- stream_format.py: the header of a frame and the nonce that it is encrypted under.
pub mod Laws
use mosaic_archive.Base.{
  ℕ, ◌^◌, List, [], ◌∷◌, ◌++◌, Bytes, Bool, not, ◌||◌, length, ltb, ◌==◌, Result, ok, err, raise_if,
  ◌>>=◌, ◌>>◌, archive_format, value_error, overflow_error,
}
use mosaic_archive.Struct.{uint, Format, Values, size, pack, unpack}
use mosaic_archive.Struct.Integers.{be}

-- `FRAME_HEADER`, of the format ">QBI"
abbrev pub frame_header : Format
frame_header = uint 8 ∷ uint 1 ∷ uint 4 ∷ []

pub record FrameHeader : Type 0 where
  pub index : ℕ
  pub frame_type : ℕ
  pub ciphertext_length : ℕ

abbrev pub header_values : FrameHeader → Values frame_header
header_values h = (h.index, (h.frame_type, (h.ciphertext_length, tt)))

-- `FrameHeader.pack`
abbrev pub pack_frame_header : FrameHeader → Result Bytes
pack_frame_header h = pack frame_header (header_values h)

-- What `parse_frame_header` does with the unpacked values: 1 is `FRAME_MANIFEST`, 2 `FRAME_DATA`.
unfoldable pub accept : Values frame_header → Result FrameHeader
accept (index, (frame_type, (ciphertext_length, _))) = do
  raise_if (not (frame_type == 1 || frame_type == 2)) archive_format
  raise_if (ltb ciphertext_length 16) archive_format
  ok (record { index = index; frame_type = frame_type; ciphertext_length = ciphertext_length })

unfoldable pub parse_frame_header : Bytes → Result FrameHeader
parse_frame_header buf = do
  raise_if (not (length buf == size frame_header)) archive_format
  unpacked ← unpack frame_header buf
  accept unpacked

-- `index.to_bytes(8, "big")`
abbrev pub to_bytes : ℕ → Result Bytes
to_bytes index = do raise_if (not (ltb index (256 ^ 8))) overflow_error; ok (be 8 index)

unfoldable pub frame_nonce : Bytes → ℕ → Result Bytes
frame_nonce prefix index = do
  raise_if (not (length prefix == 4)) value_error
  counter ← to_bytes index
  ok (prefix ++ counter)
