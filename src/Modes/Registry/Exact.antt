-- ===== src/Modes/Registry/Exact.antt =====
-- What a mode decodes has the size that is expected.
use mathlib.Core.Path.{subst}
use mosaic_archive.Base.{
  ℕ, zero, suc, ◌+◌, ◌≡◌, sym, ap, [], ◌∷◌, ◌++◌, Bytes, All, length, length-append, ◌==◌, ◌||◌,
  not, Bool-cases, inl, inr, Result, ok, ok-inj, raise_if, ◌>>=◌, ◌>>◌, >>=-eq-ok, raise_if-eq-ok,
  archive_format, arith, Option-cases, List, Result-cases, err-ne-ok, ◌-◌, ◌*◌, ◌/◌, ◌%◌, ◌^◌,
}
use mosaic_archive.Modes.Raw
use mosaic_archive.Modes.Rle
use mosaic_archive.Modes.Delta8
use mosaic_archive.Modes.LzSimple
use mosaic_archive.Modes.ByteRans
use mosaic_archive.Modes.LzRans
use mosaic_archive.Modes.Deflate
use mosaic_archive.Modes.Deflate.{Zlib}
use mosaic_archive.Modes.Registry.{
  ModeId, value, CompressionMode, all_modes, mode_by_id, mode_id, mode_ids, get_mode,
}

-- A decoder that returns exactly as many bytes as it was told to expect.
abbrev pub IsExact : (Bytes → ℕ → Result Bytes) → Type 0
IsExact decode =
    (payload : Bytes) (n : ℕ) (block : Bytes) → decode payload n ≡ ok block → length block ≡ n

-- The test on the size at the end of a decoder.
checked_size :
    (m : Result Bytes) (n : ℕ) (block : Bytes)
    → (do output ← m; raise_if (not (length output == n)) archive_format; ok output) ≡ ok block
    → length block ≡ n
checked_size m n block h = ground arith

raw-IsExact : IsExact Raw.decode
unfolding Raw.decode
raw-IsExact payload n block h = ground arith

rle-IsExact : IsExact Rle.decode
unfolding Rle.decode
rle-IsExact payload n block h = ground arith

lz_simple-IsExact : IsExact LzSimple.decode
unfolding LzSimple.decode
lz_simple-IsExact payload n block h =
    checked_size (LzSimple.decode_loop (length payload) n payload []) n block h

delta8-IsExact : IsExact Delta8.decode
unfolding Delta8.decode
delta8-IsExact [] n block h = ground arith
delta8-IsExact (b ∷ payload) n block h = ground arith

deflate-IsExact : (zlib : Zlib) → IsExact (Deflate.decode zlib)
unfolding Deflate.decode Deflate.decode_body
deflate-IsExact zlib payload zero block h = ground arith
deflate-IsExact zlib payload (suc n) block h = ground arith

lz_rans-IsExact : IsExact LzRans.decode
unfolding LzRans.decode LzRans.decode_body LzRans.decode_streams
lz_rans-IsExact payload zero block h = ground arith
lz_rans-IsExact payload (suc n) block h = ground arith

-- A symbol is a byte of the output.
decoded_symbols :
    (f starts lookup : ByteRans.Dict) (count state : ℕ) (payload output : Bytes)
    {r : ℕ × Bytes × Bytes}
    → ByteRans.decode_symbols f starts lookup count state payload output ≡ ok r
    → length r.2 ≡ length output + count
unfolding ByteRans.decode_symbols
decoded_symbols f starts lookup zero state payload output h =
    omega (arith, ap (λ x. length x.2) (sym (ok-inj h)))
decoded_symbols f starts lookup (suc count) state payload output h =
    let slot = state % 4096 in
    let symbol = lookup slot in
    elim (Result-cases
      (ByteRans.refill (f symbol * (state / 2 ^ 12) + slot - starts symbol) payload)) [
        | inl (t, e) ↦
            let k =
              decoded_symbols f starts lookup count t.0 t.1 (output ++ (symbol ∷ [])) (rw e at h) in
            omega (arith, k, length-append output (symbol ∷ []))
        | inr (x, e) ↦ absurd (err-ne-ok (rw e at h))
      ]

-- The end of the decoder, behind its tests and its table.
decoded_end :
    (f starts lookup : ByteRans.Dict) (n state : ℕ) (payload block : Bytes)
    → (do
      (state', left, output) ← ByteRans.decode_symbols f starts lookup n state payload []
      raise_if (not (length left == 0) || not (state' == ByteRans.lower)) archive_format
      ok output)
      ≡ ok block
    → length block ≡ n
decoded_end f starts lookup n state payload block h =
    let (t, e, k) = >>=-eq-ok (ByteRans.decode_symbols f starts lookup n state payload []) _ h in
    let (_, same) =
      raise_if-eq-ok (not (length t.1 == 0) || not (t.0 == ByteRans.lower)) archive_format (ok t.2)
        k in
    omega (arith, ap length (ok-inj same), decoded_symbols f starts lookup n state payload [] e)

byte_rans-IsExact : IsExact ByteRans.decode
unfolding ByteRans.decode ByteRans.decode_body
byte_rans-IsExact payload zero block h = ground arith
byte_rans-IsExact payload (suc n) block h = grind (arith, decoded_end)

all_modes_are-IsExact : (zlib : Zlib) → All (λ m. IsExact m.decode) (all_modes zlib)
all_modes_are-IsExact zlib = (
  raw-IsExact,
  (
    rle-IsExact,
    (
      delta8-IsExact,
      (lz_simple-IsExact, (byte_rans-IsExact, (deflate-IsExact zlib, (lz_rans-IsExact, tt)))),
    ),
  ),
)

found-IsExact :
    (id : ModeId) (ms : List CompressionMode) (m : CompressionMode)
    → All (λ m. IsExact m.decode) ms
    → mode_by_id id ms ≡ ok m
    → IsExact m.decode
unfolding mode_by_id
found-IsExact id [] m h e = absurd (err-ne-ok e)
found-IsExact id (x ∷ ms) m h e = elim (Bool-cases (value x.id == value id)) [
  | inl c ↦ subst (λ m. IsExact m.decode) (ok-inj (rw c at e)) h.0
  | inr c ↦ found-IsExact id ms m h.1 (rw c at e)
]

-- Every mode that `get_mode` finds decodes to as many bytes as are expected, or raises.
pub get_mode-IsExact :
    (zlib : Zlib) (n : ℕ) (m : CompressionMode) → get_mode zlib n ≡ ok m → IsExact m.decode
unfolding get_mode
get_mode-IsExact zlib n m h = elim (Option-cases (mode_id mode_ids n)) [
  | inl e ↦ absurd (err-ne-ok (rw (get_mode, e) at h))
  | inr (id, e) ↦
      found-IsExact id (all_modes zlib) m (all_modes_are-IsExact zlib) (rw (get_mode, e) at h)
]
