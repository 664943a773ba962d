-- ===== src/Modes/Deflate.antt =====
-- modes/deflate.py, over an interface of Python's zlib.
pub mod RoundTrip
pub mod Stored
use mosaic_archive.Base.{
  ℕ, zero, suc, ◌+◌, ◌-◌, ◌≤◌, ◌<◌, ◌≡◌, [], ◌∷◌, ◌++◌, Bytes, length, ltb, ◌==◌, ◌||◌, not,
  if◌then◌else◌, Bool, true, Option, none, some, Result, ok, err, raise_if, ◌>>=◌, ◌>>◌,
  archive_format,
}

-- `compress` at level 6, and the object that `decompressobj` makes: its methods return what the
-- object has become and its output, and `none` for a `zlib.error`.
pub record Zlib : Type 1 where
  pub Decoder : Type 0
  pub compress : Bytes → Bytes
  pub decompressobj : Decoder
  pub decompress : Decoder → Bytes → ℕ → Option (Decoder × Bytes)
  pub flush : Decoder → ℕ → Option (Decoder × Bytes)
  pub eof : Decoder → Bool
  pub unused_data : Decoder → Bytes
  pub unconsumed_tail : Decoder → Bytes

-- What the package documents of a complete stream that is read with room for more bytes than it
-- holds: the two calls give the data between them and use up the stream. What the first call gives
-- and what is left for the second is not fixed.
pub record Inflation (zlib : Zlib) (block : Bytes) (room : ℕ) : Type 0 where
  pub decoder : zlib.Decoder
  pub output : Bytes
  pub decompresses :
      zlib.decompress zlib.decompressobj (zlib.compress block) room ≡ some (decoder, output)
  pub taken : zlib.unconsumed_tail decoder ≡ []
  pub flushed : zlib.Decoder
  pub remainder : Bytes
  pub flushes : zlib.flush decoder (room - length output) ≡ some (flushed, remainder)
  pub whole : output ++ remainder ≡ block
  pub ended : zlib.eof flushed ≡ true
  pub nothing_unused : zlib.unused_data flushed ≡ []
  pub nothing_left : zlib.unconsumed_tail flushed ≡ []

pub record ZlibLaws (zlib : Zlib) : Type 0 where
  pub inflates : (block : Bytes) (room : ℕ) → length block < room → Inflation zlib block room

-- `except zlib.error`
pub format_error {ℓ} : {A : Type ℓ} → Option A → Result A
format_error none = err archive_format
format_error (some a) = ok a

module _ (zlib : Zlib) where
  unfoldable pub encode : Bytes → Result Bytes
  encode [] = ok []
  encode (b ∷ bs) = ok (zlib.compress (b ∷ bs))

  unfoldable pub decode_body : Bytes → ℕ → Result Bytes
  unfolding format_error
  decode_body payload expected_size = do
    (decoder, output) ←
        format_error (zlib.decompress zlib.decompressobj payload (expected_size + 1))
    raise_if (ltb expected_size (length output) || not (length (zlib.unconsumed_tail decoder) == 0))
        archive_format
    (flushed, remainder) ← format_error (zlib.flush decoder (expected_size + 1 - length output))
    raise_if
        (not (length (output ++ remainder) == expected_size)
          || not (zlib.eof flushed)
          || not (length (zlib.unused_data flushed) == 0)
          || not (length (zlib.unconsumed_tail flushed) == 0))
        archive_format
    ok (output ++ remainder)

  unfoldable pub decode : Bytes → ℕ → Result Bytes
  unfolding decode_body
  decode payload zero = if length payload == 0 then ok [] else err archive_format
  decode payload (suc n) = decode_body payload (suc n)
