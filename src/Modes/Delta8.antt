-- ===== src/Modes/Delta8.antt =====
-- modes/delta.py: wrapping differences of neighbouring bytes, then RLE.
pub mod RoundTrip
mod Tests
use mosaic_archive.Base.{
  ℕ, ◌+◌, ◌-◌, ◌%◌, List, [], ◌∷◌, ◌++◌, Bytes, length, ◌==◌, not, if◌then◌else◌, Result, ok, err,
  raise_if, ◌>>=◌, ◌>>◌, archive_format,
}
use mosaic_archive.Modes.Rle

-- `(current - previous) % 256` over `pairwise(block)`; `previous` is the byte before the list.
-- On bytes the difference and 256 are not below 0.
deltas : ℕ → Bytes → Bytes
deltas previous [] = []
deltas previous (current ∷ rest) = ((current + 256 - previous) % 256) ∷ deltas current rest

unfoldable pub encode : Bytes → Bytes
unfolding deltas
encode [] = []
encode (first ∷ rest) = first ∷ Rle.encode (deltas first rest)

-- The loop that appends `(output[-1] + delta) % 256`; `last` is `output[-1]`.
sums : ℕ → Bytes → Bytes → Bytes
sums last [] output = output
sums last (delta ∷ rest) output =
    let next = (last + delta) % 256 in sums next rest (output ++ (next ∷ []))

unfoldable pub decode : Bytes → ℕ → Result Bytes
unfolding sums
decode [] expected_size = if expected_size == 0 then ok [] else err archive_format
decode (first ∷ rest) expected_size = if expected_size == 0 then err archive_format else do
  ds ← Rle.decode rest (expected_size - 1)
  let output = sums first ds (first ∷ [])
  raise_if (not (length output == expected_size)) archive_format
  ok output
