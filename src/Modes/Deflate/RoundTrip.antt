-- ===== src/Modes/Deflate/RoundTrip.antt =====
-- DEFLATE: with zlib as documented, what the encoder writes decodes to the block.
use mosaic_archive.Base.{
  ◌+◌, ◌≡◌, refl, ap, [], ◌∷◌, Bytes, length, length-append, le→ltb_false, ==_refl, arith, ok,
}
use mosaic_archive.Modes.Deflate.{Zlib, ZlibLaws, encode, decode, decode_body}

pub deflate_round_trip :
    (zlib : Zlib) (laws : ZlibLaws zlib) (block : Bytes)
    → (payload : Bytes) × (encode zlib block ≡ ok payload)
      × (decode zlib payload (length block) ≡ ok block)
unfolding encode decode decode_body
deflate_round_trip zlib laws [] = ([], refl, refl)
deflate_round_trip zlib laws (b ∷ bs) =
    let block = b ∷ bs in
    let i = laws.inflates block (length block + 1) (omega arith) in
    let fits =
      le→ltb_false (length i.output) (length block)
        (omega (arith, ap length i.whole, length-append i.output i.remainder)) in
    (
      zlib.compress block,
      refl,
      rw (
        i.decompresses, fits, i.taken, i.flushes, i.whole, ==_refl, i.ended, i.nothing_unused,
        i.nothing_left,
      ),
    )
