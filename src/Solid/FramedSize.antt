-- ===== src/Solid/FramedSize.antt =====
-- `solid_lane_framed_size`: the bytes that a lane's payload takes when it is cut into frames.
pub mod Pieces
mod Tests
use mosaic_archive.Base.{
  ℕ, ◌+◌, ◌-◌, ◌*◌, ◌/◌, ◌%◌, Bool, not, ◌&&◌, leb, ◌==◌, if◌then◌else◌, Result, ok, err, raise_if,
  ◌>>=◌, ◌>>◌, value_error,
}
use mosaic_archive.Base.Int.{ℤ, pos, negsuc}

-- The header ">IBBI" of a frame has 10 bytes, the tag of the cipher 16.
abbrev pub frame_size : ℕ → ℕ → ℕ
frame_size padding_size size = 10 + (8 + size + padding_size - 1) / padding_size * padding_size + 16

unfoldable pub solid_lane_framed_size : ℤ → ℕ → ℕ → Result ℕ
solid_lane_framed_size (negsuc n) frame_payload_size padding_size = err value_error
solid_lane_framed_size (pos payload_size) frame_payload_size padding_size =
    if payload_size == 0 then ok 0 else do
      raise_if (not (leb 1024 frame_payload_size && leb frame_payload_size (16 * 1024 * 1024)))
          value_error
      raise_if (not (leb 256 padding_size && leb padding_size frame_payload_size)) value_error
      let full_frames = payload_size / frame_payload_size
      let remainder = payload_size % frame_payload_size
      let full = full_frames * frame_size padding_size frame_payload_size
      ok (if remainder == 0 then full else full + frame_size padding_size remainder)
