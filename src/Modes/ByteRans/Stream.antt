-- ===== src/Modes/ByteRans/Stream.antt =====
-- The stream of a block: the decoder's loop gets back what the encoder's loop wrote.
use mathlib.Core.List.{reverse, reverse-cons}
use mosaic_archive.Base.{
  ℕ, ◌+◌, ◌*◌, ◌≤◌, ◌<◌, ◌≡◌, refl, ap, ◌∙◌, List, [], ◌∷◌, ◌++◌, append-nil, append_assoc, Bytes,
  All, length, arith, ok,
}
use mosaic_archive.Modes.ByteRans.{
  scale, lower, Dict, encode_symbol, encode_symbols, decode_symbols,
}
use mosaic_archive.Modes.ByteRans.Coder.{InRange, encode_symbol_lem, encode_symbol-length}

encode_symbols-append :
    (f starts : Dict) (xs ys : List ℕ) (acc : ℕ × Bytes)
    → encode_symbols f starts (xs ++ ys) acc
      ≡ encode_symbols f starts ys (encode_symbols f starts xs acc)
unfolding encode_symbols
encode_symbols-append f starts [] ys acc = refl
encode_symbols-append f starts (x ∷ xs) ys acc =
    encode_symbols-append f starts xs ys (encode_symbol f starts x acc)

module _ (f starts lookup : Dict) where
  -- A symbol with an interval inside the scale, whose slots are filled with it.
  pub record Usable (s : ℕ) : Type 0 where
    pub present : 0 < f s
    pub inside : starts s + f s ≤ scale
    pub slots : (slot : ℕ) → starts s ≤ slot → slot < starts s + f s → lookup slot ≡ s

  unfoldable pub coded : Bytes → ℕ × Bytes
  coded block = encode_symbols f starts (reverse block) (lower, [])

  coded-cons : (s : ℕ) (rest : Bytes) → coded (s ∷ rest) ≡ encode_symbol f starts s (coded rest)
  unfolding coded
  coded-cons s rest = rw (reverse-cons, encode_symbols-append) (unfold encode_symbols in refl)

  pub record Decodes (block : Bytes) (r : ℕ × Bytes) : Type 0 where
    pub range : InRange r.0
    pub decodes :
        (tail output : Bytes)
        → decode_symbols f starts lookup (length block) r.0 (reverse r.1 ++ tail) output
          ≡ ok (lower, tail, output ++ block)

  decode_step :
      (s : ℕ) (rest : Bytes) (r : ℕ × Bytes)
      → Usable s
      → Decodes rest r
      → Decodes (s ∷ rest) (encode_symbol f starts s r)
  unfolding decode_symbols
  decode_step s rest (state, out) u d =
      let c = encode_symbol_lem f starts s state out u.present u.inside d.range in
      record {
        range = c.range;
        decodes = λ tail output.
            rw (u.slots _ c.first c.last, c.back tail)
              (d.decodes tail (output ++ (s ∷ []))
                ∙ ap (λ o. ok (lower, tail, o)) (append_assoc output (s ∷ []) rest));
      }

  pub decode_coded : (block : Bytes) → All Usable block → Decodes block (coded block)
  unfolding coded encode_symbols
  decode_coded [] h = record {
    range = (omega arith, omega arith);
    decodes = λ tail output. unfold decode_symbols in rw append-nil;
  }
  decode_coded (s ∷ rest) h =
      rw (coded-cons s rest) (decode_step s rest (coded rest) h.0 (decode_coded rest h.1))

  pub length-coded : (block : Bytes) → All Usable block → length (coded block).1 ≤ 2 * length block
  unfolding coded encode_symbols
  length-coded [] h = omega arith
  length-coded (s ∷ rest) h =
      let r = coded rest in
      let d = decode_coded rest h.1 in
      let e = encode_symbol-length f starts s r.0 r.1 (h.0).present d.range.1 in
      rw (coded-cons s rest) (omega (arith, e, length-coded rest h.1))
