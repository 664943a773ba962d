-- ===== src/Modes/LzRans/Tokens.antt =====
-- Sequences of tokens apart from their streams: what they write, and what the decoder makes of them.
use mosaic_archive.Base.{
  ℕ, ◌+◌, ◌≤◌, ◌<◌, ◌≡◌, refl, ap, List, [], ◌∷◌, ◌++◌, Bytes, length, length-append, take, drop,
  take-append, drop-append, join, map, ltb, ◌==◌, ok, arith, le→ltb_false, ne→==_false, false,
}
use mosaic_archive.Modes.LzSimple.Copied.{copied, copy-ok}
use mosaic_archive.Modes.LzRans.{
  minimum_match, Streams, decode_literal, decode_match, decode_tokens,
}
use mosaic_archive.Modes.LzRans.Varint.{varint}

pub data Token : Type 0 where
  literal : Bytes → Token
  match : ℕ → ℕ → Token

-- What each stream holds of a sequence of tokens.
abbrev pub tag : Token → ℕ
tag (literal bytes) = 0
tag (match n distance) = 1

abbrev pub literal_part : Token → Bytes
literal_part (literal bytes) = bytes
literal_part (match n distance) = []

abbrev pub literal_sizes : List Token → List ℕ
literal_sizes [] = []
literal_sizes (literal bytes ∷ ts) = length bytes ∷ literal_sizes ts
literal_sizes (match n distance ∷ ts) = literal_sizes ts

abbrev pub match_sizes : List Token → List ℕ
match_sizes [] = []
match_sizes (literal bytes ∷ ts) = match_sizes ts
match_sizes (match n distance ∷ ts) = n ∷ match_sizes ts

abbrev pub match_distances : List Token → List ℕ
match_distances [] = []
match_distances (literal bytes ∷ ts) = match_distances ts
match_distances (match n distance ∷ ts) = distance ∷ match_distances ts

-- The bytes of the five streams.
abbrev pub tags : List Token → Bytes
tags = map tag

abbrev pub all_literals : List Token → Bytes
all_literals ts = join (map literal_part ts)

abbrev pub varints : List ℕ → Bytes
varints values = join (map varint values)

-- The tokens take the output from `before` to `after`, within the size of the block.
abbrev pub Plays : ℕ → List Token → Bytes → Bytes → Type 0
Plays size [] before after = before ≡ after
Plays size (literal bytes ∷ ts) before after =
    (0 < length bytes)
    × (length before + length bytes ≤ size)
    × Plays size ts (before ++ bytes) after
Plays size (match n distance ∷ ts) before after =
    (minimum_match ≤ n)
    × (n ≤ 65535)
    × (0 < distance)
    × (distance ≤ 65535)
    × (distance ≤ length before)
    × (length before + n ≤ size)
    × Plays size ts (copied n distance before) after

pub Plays-append :
    (size : ℕ) (ts us : List Token) (a b c : Bytes)
    → Plays size ts a b
    → Plays size us b c
    → Plays size (ts ++ us) a c
Plays-append size [] us a b c p q = rw p q
Plays-append size (literal bytes ∷ ts) us a b c p q =
    (p.0, p.1, Plays-append size ts us (a ++ bytes) b c p.2 q)
Plays-append size (match n d ∷ ts) us a b c p q =
    (p.0, p.1, p.2, p.3, p.4, p.5, Plays-append size ts us (copied n d a) b c p.6 q)

-- The decoder's streams before a sequence of tokens.
abbrev pub streams_of : List Token → Streams
streams_of ts = record {
  literals = all_literals ts;
  literal_lengths = literal_sizes ts;
  match_lengths = match_sizes ts;
  distances = match_distances ts;
}

-- The decoder plays the tokens and uses up the streams.
pub decode_tokens-Plays :
    (size : ℕ) (ts : List Token) (before after : Bytes)
    → Plays size ts before after
    → decode_tokens size (tags ts) (streams_of ts) before ≡ ok (streams_of [], after)
unfolding decode_tokens
decode_tokens-Plays size [] before after p = ap (λ o. ok (streams_of [], o)) p
decode_tokens-Plays size (literal bytes ∷ ts) before after p =
    let all = all_literals ts in
    let e1 : length bytes == 0 ≡ false =
      ne→==_false (length bytes) 0 (λ e. omega (arith, e, p.0)) in
    let e2 : ltb (length (bytes ++ all)) (length bytes) ≡ false =
      le→ltb_false (length bytes) (length (bytes ++ all))
        (omega (arith, length-append bytes all)) in
    let e3 = le→ltb_false (length before + length bytes) size p.1 in
    let e4 : take (length bytes) (bytes ++ all) ≡ bytes =
      take-append (length bytes) bytes all refl in
    let e5 : drop (length bytes) (bytes ++ all) ≡ all = drop-append (length bytes) bytes all refl in
    unfold decode_literal in
    rw (e1, e2, e3, e4, e5) (decode_tokens-Plays size ts (before ++ bytes) after p.2)
decode_tokens-Plays size (match n d ∷ ts) before after p =
    let e1 = le→ltb_false minimum_match n p.0 in
    let e2 : d == 0 ≡ false = ne→==_false d 0 (λ e. omega (arith, e, p.2)) in
    let e3 = le→ltb_false d (length before) p.4 in
    let e4 = le→ltb_false (length before + n) size p.5 in
    unfold decode_match in
    rw (e1, e2, e3, e4, copy-ok n d before p.2 p.4)
      (decode_tokens-Plays size ts (copied n d before) after p.6)
