-- ===== src/Padding/RoundTrip.antt =====
-- Padding: the size of a padded payload, and its removal.
use mosaic_archive.Base.{
  ◌⊎◌, inl, inr, Bool-cases, ltb→lt, ltb_false→le, take-append-drop, ℕ, ◌+◌, ◌-◌, ◌*◌, ◌/◌, ◌%◌,
  ◌^◌, ◌≤◌, ◌<◌, ◌≡◌, refl, sym, ◌++◌, Bytes, length, length-append, length-take, length-drop, take,
  drop, take-append, drop-append, ltb, Result, ok, err, archive_format, arith, le→ltb_false,
}
use native.Mathlib.Nat.{div-add-mod', mod-lt, mul-mod_left}
use mosaic_archive.Struct.{unpack_values}
use mosaic_archive.Struct.Integers.{be, from_be, length-be}
use mosaic_archive.Struct.RoundTrip.{unpack_uint, pack_uint}
use mosaic_archive.Padding.{padded_length, pad_payload, unpad_payload}

pub padded_length_bounds :
    (n block_size : ℕ)
    → 0 < block_size
    → (8 + n ≤ padded_length n block_size)
      × (padded_length n block_size < 8 + n + block_size)
      × (padded_length n block_size % block_size ≡ 0)
padded_length_bounds n b pos =
    (omega (arith, whole, rest), omega (arith, whole, rest), mul-mod_left _ b)
  where
    m : ℕ
    m = 8 + n + b - 1

    whole : m / b * b + m % b ≡ m
    whole = div-add-mod' m b

    rest : m % b < b
    rest = mod-lt m pos

-- What is known of a payload that `pad_payload` accepts.
pub record Padded (payload : Bytes) (block_size : ℕ) (result : Result Bytes) : Type 0 where
  pub padded : Bytes
  pub returns : result ≡ ok padded
  pub sized : length padded ≡ padded_length (length payload) block_size
  pub whole : length padded % block_size ≡ 0
  pub holds : 8 + length payload ≤ length padded
  pub fewest : length padded < 8 + length payload + block_size
  pub unpads : unpad_payload padded ≡ ok payload

-- Where the block size is in range and the payload's length fits eight bytes, `pad_payload` returns,
-- whatever random bytes the system gives; the result fills whole blocks, the fewest that hold the
-- length and the payload, and `unpad_payload` gets the payload back.
pub unpad-pad :
    (urandom : ℕ → Bytes) (payload : Bytes) (block_size : ℕ)
    → ((n : ℕ) → length (urandom n) ≡ n)
    → 256 ≤ block_size
    → block_size ≤ 16 * 1024 * 1024
    → length payload < 2 ^ 64
    → Padded payload block_size (pad_payload urandom payload block_size)
unfolding pad_payload unpad_payload
unpad-pad urandom payload b random lo hi small = record {
  padded = prefix ++ (payload ++ filler);
  returns =
      rw (le→ltb_false 256 b lo, le→ltb_false b (16 * 1024 * 1024) hi, pack_uint 8 n fits) refl;
  sized = sized;
  whole = rw sized bounds.2;
  holds = rw sized bounds.0;
  fewest = rw sized bounds.1;
  unpads = rw (
    le→ltb_false 8 (length (prefix ++ (payload ++ filler))) long,
    unpack_uint 8 n (payload ++ filler) fits,
    le→ltb_false n (length (prefix ++ (payload ++ filler)) - 8) room,
    drop-append 8 prefix (payload ++ filler) (sym (length-be 8 n)),
    take-append n payload filler refl,
  );
}
  where
    n : ℕ
    n = length payload

    bounds :
        (8 + n ≤ padded_length n b) × (padded_length n b < 8 + n + b) × (padded_length n b % b ≡ 0)
    bounds = padded_length_bounds n b (omega arith)

    prefix : Bytes
    prefix = be 8 n

    filler : Bytes
    filler = urandom (padded_length n b - (8 + n))

    sized : length (prefix ++ (payload ++ filler)) ≡ padded_length n b
    sized = omega (
      arith,
      bounds,
      length-append prefix (payload ++ filler),
      length-append payload filler,
      length-be 8 n,
      random (padded_length n b - (8 + n)),
    )

    fits : n < 256 ^ 8
    fits = omega arith

    long : 8 ≤ length (prefix ++ (payload ++ filler))
    long = omega (arith, bounds, sized)

    room : n ≤ length (prefix ++ (payload ++ filler)) - 8
    room = omega (arith, bounds, sized)

-- On every byte string `unpad_payload` returns or raises the format error. Where it returns, the
-- bytes are eight, which write the length of the payload, the payload, and a filler. Where it
-- raises, there are fewer than eight bytes, or fewer behind them than they write.
pub unpad_payload_lem :
    (padded : Bytes)
    → ((prefix : Bytes) × (payload : Bytes) × (filler : Bytes) × (unpad_payload padded ≡ ok payload)
        × (padded ≡ prefix ++ (payload ++ filler))
        × (length prefix ≡ 8)
        × (length payload ≡ from_be 0 prefix))
      ⊎ ((unpad_payload padded ≡ err archive_format)
          × (length padded < 8 ⊎ length padded < 8 + from_be 0 (take 8 padded)))
unfolding unpad_payload unpack_values
unpad_payload_lem padded = elim (Bool-cases (ltb (length padded) 8)) [
  | inl short ↦ inr (rw short, inl (ltb→lt (length padded) 8 short))
  | inr long ↦
      let eight : 8 ≤ length padded = ltb_false→le (length padded) 8 long in
      elim (Bool-cases (ltb (length padded - 8) n)) [
        | inl far ↦
            inr (rw (long, far), inr (omega (arith, ltb→lt (length padded - 8) n far, eight)))
        | inr near ↦ inl (
          take 8 padded,
          take n (drop 8 padded),
          drop n (drop 8 padded),
          rw (long, near),
          rw (take-append-drop n (drop 8 padded)) (sym (take-append-drop 8 padded)),
          omega (arith, length-take 8 padded, eight),
          omega (
            arith,
            length-take n (drop 8 padded),
            length-drop 8 padded,
            ltb_false→le (length padded - 8) n near,
          ),
        )
      ]
]
  where
    n : ℕ
    n = from_be 0 (take 8 padded)
