-- ===== src/Modes/Rle.antt =====
-- modes/rle.py: runs of one byte as pairs of a length (1 to 255) and the byte.
pub mod RoundTrip
mod Tests
pub mod Accepts
use mosaic_archive.Base.{
  ℕ, ◌+◌, ◌%◌, List, [], ◌∷◌, ◌++◌, Bytes, length, replicate, ltb, ◌==◌, ◌&&◌, not, if◌then◌else◌,
  Result, ok, err, raise_if, ◌>>=◌, ◌>>◌, archive_format,
}

-- The loop over `block[1:]` and the pair after it; what is emitted goes to the end of `output`.
encode_loop : ℕ → ℕ → Bytes → Bytes → Bytes
encode_loop run_byte run_length [] output = output ++ (run_length ∷ run_byte ∷ [])
encode_loop run_byte run_length (byte ∷ rest) output =
    let extended = encode_loop run_byte (run_length + 1) rest output in
    let flushed = encode_loop byte 1 rest (output ++ (run_length ∷ run_byte ∷ [])) in
    if byte == run_byte && ltb run_length 255 then extended else flushed

unfoldable pub encode : Bytes → Bytes
unfolding encode_loop
encode [] = []
encode (byte ∷ rest) = encode_loop byte 1 rest []

-- The loop over the even indices of the payload; its length is even.
decode_loop : Bytes → ℕ → Bytes → Result Bytes
decode_loop [] expected_size output = ok output
decode_loop (run_length ∷ []) expected_size output = ok output
decode_loop (run_length ∷ byte ∷ rest) expected_size output = do
  raise_if (run_length == 0) archive_format
  raise_if (ltb expected_size (length output + run_length)) archive_format
  decode_loop rest expected_size (output ++ replicate run_length byte)

unfoldable pub decode : Bytes → ℕ → Result Bytes
unfolding decode_loop
decode payload expected_size = do
  raise_if (not (length payload % 2 == 0)) archive_format
  output ← decode_loop payload expected_size []
  raise_if (not (length output == expected_size)) archive_format
  ok output
