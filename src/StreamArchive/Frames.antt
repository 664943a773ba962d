-- ===== src/StreamArchive/Frames.antt =====
-- `_write_frame` and `_read_frame` of stream_archive.py: padding, encryption and their limits.
pub mod RoundTrip
use mosaic_archive.Base.{
  ℕ, ◌+◌, ◌-◌, ◌*◌, ◌%◌, Bytes, length, take, drop, ◌++◌, Bool, not, ◌||◌, ltb, ◌==◌, if◌then◌else◌,
  Result, ok, err, raise_if, ◌>>=◌, ◌>>◌, archive_format,
}
use mosaic_archive.Aead.{Aead}
use mosaic_archive.Padding.{pad_payload, unpad_payload}
use mosaic_archive.Format.StreamHeader.{Msc2Header}
use mosaic_archive.Format.Frame.{FrameHeader, pack_frame_header, parse_frame_header, frame_nonce}
use mosaic_archive.Dedup.Frames.{read_exact, Metrics}

-- The largest ciphertext of a frame of its type.
abbrev pub maximum : ℕ → Msc2Header → ℕ
maximum frame_type h =
    if frame_type == 1 then 256 * 1024 * 1024 else h.chunk_size + h.padding_size + 9 + 32

module _ (cipher : Aead) where
  -- The bytes that are written, and their metrics. `urandom` stands for `os.urandom`.
  unfoldable pub write_frame :
      (ℕ → Bytes) → ℕ → ℕ → Bytes → Bytes → Bytes → Msc2Header → Result (Bytes × Metrics)
  write_frame urandom index frame_type payload key global_header h = do
    padded ← pad_payload urandom payload h.padding_size
    frame_bytes ←
        pack_frame_header (record {
          index = index;
          frame_type = frame_type;
          ciphertext_length = length padded + 16;
        })
    nonce ← frame_nonce h.nonce_prefix index
    ciphertext ← cipher.encrypt key nonce padded (global_header ++ frame_bytes)
    ok (
      frame_bytes ++ ciphertext,
      record {
        payload_size = length payload;
        padded_size = length padded;
        overhead = length padded - 8 - length payload;
      },
    )

  -- The payload, the size of the padded payload, and the bytes behind the frame.
  unfoldable pub read_frame :
      Bytes → ℕ → ℕ → Bytes → Bytes → Msc2Header → Result (Bytes × (ℕ × Bytes))
  read_frame stream index frame_type key global_header h = do
    (frame_bytes, after_header) ← read_exact stream 13
    frame ← parse_frame_header frame_bytes
    raise_if (not (frame.index == index) || not (frame.frame_type == frame_type)) archive_format
    raise_if (not ((frame.ciphertext_length - 16) % h.padding_size == 0)) archive_format
    raise_if (ltb (maximum frame_type h) frame.ciphertext_length) archive_format
    (ciphertext, rest) ← read_exact after_header frame.ciphertext_length
    nonce ← frame_nonce h.nonce_prefix index
    padded ← cipher.decrypt key nonce ciphertext (global_header ++ frame_bytes)
    payload ← unpad_payload padded
    ok (payload, (length padded, rest))
