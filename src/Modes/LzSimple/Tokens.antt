-- ===== src/Modes/LzSimple/Tokens.antt =====
-- What the decoder does with one token of the encoder, and with a sequence of them.
use mosaic_archive.Base.{
  ℕ, suc, ◌+◌, ◌≤◌, ◌<◌, ◌≡◌, refl, sym, ap, ◌∙◌, [], ◌∷◌, ◌++◌, append_assoc, Bytes, length,
  length-append, drop, take-append, drop-append, arith, ok,
}
use mosaic_archive.Struct.{uint}
use mosaic_archive.Struct.RoundTrip.{unpack_from-ok}
use mosaic_archive.Struct.Integers.{be, from_be, length-be, from_be-be}
use mosaic_archive.Modes.LzSimple.Copied.{copied, copy-ok}
use mosaic_archive.Modes.LzSimple.{decode_literal, decode_match, decode_token, decode_loop}

-- Before any tail, the decoder reads `encoded` in `steps` rounds and takes `before` to `after`.
pub record Decodes (size : ℕ) (encoded before after : Bytes) : Type 0 where
  pub steps : ℕ
  pub bounded : steps ≤ length encoded
  pub runs :
      (n fuel : ℕ) (tail : Bytes)
      → n ≡ steps + fuel
      → decode_loop n size (encoded ++ tail) before ≡ decode_loop fuel size tail after

pub Decodes-nothing : (size : ℕ) (out : Bytes) → Decodes size [] out out
Decodes-nothing size out = record {
  steps = 0;
  bounded = omega arith;
  runs = λ n fuel tail e. ap (λ k. decode_loop k size tail out) (omega arith);
}

pub Decodes-append :
    (size : ℕ) (front back a b c : Bytes)
    → Decodes size front a b
    → Decodes size back b c
    → Decodes size (front ++ back) a c
Decodes-append size front back a b c p q = record {
  steps = p.steps + q.steps;
  bounded = omega (arith, length-append front back, p.bounded, q.bounded);
  runs = λ n fuel tail e.
      rw append_assoc
        (p.runs n (q.steps + fuel) (back ++ tail) (omega arith) ∙ q.runs _ fuel tail refl);
}

decode_literal_lem :
    (size : ℕ) (chunk tail out : Bytes)
    → 0 < length chunk
    → length chunk ≤ 65535
    → length out + length chunk ≤ size
    → decode_literal size (be 2 (length chunk) ++ (chunk ++ tail)) out ≡ ok (tail, out ++ chunk)
unfolding decode_literal
decode_literal_lem size chunk tail out pos small fits =
    let n = length chunk in
    let two : 2 ≡ length (be 2 n) = sym (length-be 2 n) in
    let taken = take-append 2 (be 2 n) (chunk ++ tail) two in
    let dropped = drop-append 2 (be 2 n) (chunk ++ tail) two in
    let value : from_be 0 (be 2 n) ≡ n = from_be-be 2 n (omega arith) in
    let all : 2 ≤ length (be 2 n ++ (chunk ++ tail)) =
      omega (arith, length-append (be 2 n) (chunk ++ tail), length-be 2 n) in
    rw
      (
        unpack_from-ok (uint 2 ∷ []) (be 2 n ++ (chunk ++ tail)) all,
        dropped,
        taken,
        value,
        take-append n chunk tail refl,
        drop-append n chunk tail refl,
      )
      (ground
        (arith, length-append (be 2 n) (chunk ++ tail), length-be 2 n, length-append chunk tail))

decode_match_lem :
    (size distance n : ℕ) (tail out : Bytes)
    → 0 < distance
    → distance ≤ length out
    → distance ≤ 65535
    → 6 ≤ n
    → n ≤ 65535
    → length out + n ≤ size
    → decode_match size (be 2 distance ++ (be 2 n ++ tail)) out ≡ ok (tail, copied n distance out)
unfolding decode_match
decode_match_lem size distance n tail out pos near d16 long n16 fits =
    let d = be 2 distance in
    let m = be 2 n in
    let four : 4 ≡ length (d ++ m) =
      omega (arith, length-append d m, length-be 2 distance, length-be 2 n) in
    let taken = take-append 2 d (m ++ tail) (sym (length-be 2 distance)) in
    let dropped = drop-append 2 d (m ++ tail) (sym (length-be 2 distance)) in
    let taken' = take-append 2 m tail (sym (length-be 2 n)) in
    let rest : drop 4 (d ++ (m ++ tail)) ≡ tail =
      rw (← append_assoc d m tail) (drop-append 4 (d ++ m) tail four) in
    let value : from_be 0 d ≡ distance = from_be-be 2 distance (omega arith) in
    let value' : from_be 0 m ≡ n = from_be-be 2 n (omega arith) in
    let all : 4 ≤ length (d ++ (m ++ tail)) = omega (
      arith,
      length-append d (m ++ tail),
      length-append m tail,
      length-be 2 distance,
      length-be 2 n,
    ) in
    rw
      (
        unpack_from-ok (uint 2 ∷ uint 2 ∷ []) (d ++ (m ++ tail)) all,
        rest,
        dropped,
        taken,
        taken',
        value,
        value',
        copy-ok n distance out pos near,
      )
      (ground (
        arith,
        length-append d (m ++ tail),
        length-append m tail,
        length-be 2 distance,
        length-be 2 n,
      ))

pub Decodes-literal :
    (size : ℕ) (chunk out : Bytes)
    → 0 < length chunk
    → length chunk ≤ 65535
    → length out + length chunk ≤ size
    → Decodes size (0 ∷ (be 2 (length chunk) ++ chunk)) out (out ++ chunk)
unfolding decode_loop decode_token
Decodes-literal size chunk out pos small fits = record {
  steps = 1;
  bounded = omega arith;
  runs = λ n fuel tail e.
      let e' : n ≡ suc fuel = omega arith in
      rw (e', append_assoc, decode_literal_lem size chunk tail out pos small fits);
}

pub Decodes-match :
    (size distance n : ℕ) (out : Bytes)
    → 0 < distance
    → distance ≤ length out
    → distance ≤ 65535
    → 6 ≤ n
    → n ≤ 65535
    → length out + n ≤ size
    → Decodes size (1 ∷ (be 2 distance ++ be 2 n)) out (copied n distance out)
unfolding decode_loop decode_token
Decodes-match size distance n out pos near d16 long n16 fits = record {
  steps = 1;
  bounded = omega arith;
  runs = λ k fuel tail e.
      let e' : k ≡ suc fuel = omega arith in
      rw (e', append_assoc, decode_match_lem size distance n tail out pos near d16 long n16 fits);
}
