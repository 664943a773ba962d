-- ===== src/Padding.antt =====
-- padding.py: the length bucket inside the authenticated ciphertext.
pub mod RoundTrip
mod Tests
use mosaic_archive.Base.{
  ℕ, ◌+◌, ◌-◌, ◌*◌, ◌/◌, List, [], ◌∷◌, ◌++◌, Bytes, length, take, drop, ltb, leb, ◌||◌,
  if◌then◌else◌, Result, ok, err, raise_if, ◌>>=◌, ◌>>◌, archive_format, value_error,
}
use mosaic_archive.Struct.{uint, pack, unpack_from}

-- The least multiple of `block_size` that holds the eight bytes of the length and the payload.
abbrev pub padded_length : ℕ → ℕ → ℕ
padded_length payload_length block_size =
    (8 + payload_length + block_size - 1) / block_size * block_size

-- `urandom n` stands for `os.urandom(n)`.
unfoldable pub pad_payload : (ℕ → Bytes) → Bytes → ℕ → Result Bytes
pad_payload urandom payload block_size = do
  raise_if (ltb block_size 256 || ltb (16 * 1024 * 1024) block_size) value_error
  let envelope_size = 8 + length payload
  let padded_size = padded_length (length payload) block_size
  prefix ← pack (uint 8 ∷ []) (length payload, tt)
  ok (prefix ++ (payload ++ urandom (padded_size - envelope_size)))

unfoldable pub unpad_payload : Bytes → Result Bytes
unfolding unpack_from
unpad_payload padded = do
  raise_if (ltb (length padded) 8) archive_format
  (payload_length, _) ← unpack_from (uint 8 ∷ []) padded
  raise_if (ltb (length padded - 8) payload_length) archive_format
  ok (take payload_length (drop 8 padded))
