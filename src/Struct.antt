-- ===== src/Struct.antt =====
-- Python's `struct` module, for the big-endian codes that the formats use: unsigned integers of `w`
-- bytes (B, H, I, Q), the signed q, and byte strings of a fixed length (`16s`).
pub mod Integers
pub mod RoundTrip
use Integers.{be, from_be}
use mosaic_archive.Base.{
  ℕ, zero, suc, ◌+◌, ◌-◌, ◌^◌, List, [], ◌∷◌, ◌++◌, Bytes, length, take, drop, replicate, ltb, ◌==◌,
  if◌then◌else◌, Result, ok, err, struct_error, ◌>>=◌,
}
use mosaic_archive.Base.Int.{ℤ, pos, negsuc}

pub data Code : Type 0 where
  uint : ℕ → Code
  int64 : Code
  str : ℕ → Code

-- The values that a code takes, and the bytes that it fills.
abbrev pub Value : Code → Type 0
Value (uint w) = ℕ
Value int64 = ℤ
Value (str n) = Bytes

abbrev pub code_size : Code → ℕ
code_size (uint w) = w
code_size int64 = 8
code_size (str n) = n

abbrev pub Format : Type 0
Format = List Code

abbrev pub Values : Format → Type 0
Values [] = Unit
Values (c ∷ f) = Value c × Values f

-- `Struct.size`: big-endian formats have no alignment.
abbrev pub size : Format → ℕ
size [] = 0
size (c ∷ f) = code_size c + size f

-- An integer out of range raises; a byte string is cut or filled with zeros to its length.
unfoldable pub pack_code : (c : Code) → Value c → Result Bytes
unfolding be
pack_code (uint w) v = if ltb v (256 ^ w) then ok (be w v) else err struct_error
pack_code int64 (pos n) = if ltb n (2 ^ 63) then ok (be 8 n) else err struct_error
pack_code int64 (negsuc n) = if ltb n (2 ^ 63) then ok (be 8 (2 ^ 64 - 1 - n)) else err struct_error
pack_code (str n) s = ok (take n s ++ replicate (n - length s) 0)

unfoldable pub unpack_code : (c : Code) → Bytes → Value c
unfolding from_be
unpack_code (uint w) buf = from_be 0 buf
unpack_code int64 buf =
    let n = from_be 0 buf in if ltb n (2 ^ 63) then pos n else negsuc (2 ^ 64 - 1 - n)
unpack_code (str n) buf = buf

-- `Struct.pack`
unfoldable pub pack : (f : Format) → Values f → Result Bytes
unfolding pack_code
pack [] v = ok []
pack (c ∷ f) (x, v) = do head ← pack_code c x; rest ← pack f v; ok (head ++ rest)

unfoldable pub unpack_values : (f : Format) → Bytes → Values f
unfolding unpack_code
unpack_values [] buf = tt
unpack_values (c ∷ f) buf =
    (unpack_code c (take (code_size c) buf), unpack_values f (drop (code_size c) buf))

-- `Struct.unpack_from`: the buffer must hold the format at its front.
unfoldable pub unpack_from : (f : Format) → Bytes → Result (Values f)
unfolding unpack_values
unpack_from f buf = if ltb (length buf) (size f) then err struct_error else ok (unpack_values f buf)

-- `Struct.unpack`: the buffer must have the size of the format.
unfoldable pub unpack : (f : Format) → Bytes → Result (Values f)
unfolding unpack_values
unpack f buf = if length buf == size f then ok (unpack_values f buf) else err struct_error
