-- ===== src/Struct/RoundTrip.antt =====
-- `unpack` and `pack` undo each other, for every format.
use native.Mathlib.Nat.{one-mul}
use mosaic_archive.Base.{
  ℕ, ◌-◌, ◌^◌, ◌<◌, ◌≡◌, refl, sym, ap, [], ◌∷◌, ◌++◌, append-nil, Bytes, IsByte, All, All-take,
  All-drop, length, length-append, length-take, length-drop, take, drop, take-append, drop-append,
  take-append-drop, take_all, ltb, ==_refl, ok, arith, Bool-cases, inl, inr, lt→ltb, ltb→lt,
  ltb_false→le, le→ltb_false, take-append_front, drop-append_front, ◌≤◌,
}
use mosaic_archive.Base.Int.{pos, negsuc}
use mosaic_archive.Struct.{
  Code, uint, int64, str, Value, code_size, Format, Values, size, pack_code, unpack_code, pack,
  unpack_values, unpack_from, unpack,
}
use mosaic_archive.Struct.Integers.{be, from_be, length-be, from_be-be, from_be-lt, be-from_be}

-- The values that a code packs without a loss.
abbrev pub FitsCode : (c : Code) → Value c → Type 0
FitsCode (uint w) v = v < 256 ^ w
FitsCode int64 (pos n) = n < 2 ^ 63
FitsCode int64 (negsuc n) = n < 2 ^ 63
FitsCode (str n) s = length s ≡ n

abbrev pub Fits : (f : Format) → Values f → Type 0
Fits [] v = Unit
Fits (c ∷ f) v = FitsCode c v.0 × Fits f v.1

record PackedCode (c : Code) (x : Value c) : Type 0 where
  bytes : Bytes
  packs : pack_code c x ≡ ok bytes
  sized : length bytes ≡ code_size c
  reads : unpack_code c bytes ≡ x

pack_code_total : (c : Code) (x : Value c) → FitsCode c x → PackedCode c x
unfolding pack_code unpack_code
pack_code_total (uint w) v h = record {
  bytes = be w v;
  packs = ground arith;
  sized = length-be w v;
  reads = from_be-be w v h;
}
pack_code_total int64 (pos n) h = record {
  bytes = be 8 n;
  packs = ground arith;
  sized = length-be 8 n;
  reads = ground (arith, from_be-be 8 n (omega arith));
}
pack_code_total int64 (negsuc n) h = record {
  bytes = be 8 (2 ^ 64 - 1 - n);
  packs = ground arith;
  sized = length-be 8 (2 ^ 64 - 1 - n);
  reads = ground (arith, from_be-be 8 (2 ^ 64 - 1 - n) (omega arith));
}
pack_code_total (str n) s h = record {
  bytes = s;
  packs = ground (arith, take_all n s (omega arith), append-nil s, gap);
  sized = h;
  reads = refl;
}
  where
    gap : n - length s ≡ 0
    gap = omega arith

-- Values that fit are packed into as many bytes as the format has, and these unpack to them.
pub record Packed (f : Format) (v : Values f) : Type 0 where
  pub bytes : Bytes
  pub packs : pack f v ≡ ok bytes
  pub sized : length bytes ≡ size f
  pub reads : unpack_values f bytes ≡ v

pub pack_total : (f : Format) (v : Values f) → Fits f v → Packed f v
unfolding pack unpack_values
pack_total [] v h = record { bytes = []; packs = refl; sized = refl; reads = refl }
pack_total (c ∷ f) (x, v) h =
    let p = pack_code_total c x h.0 in
    let q = pack_total f v h.1 in
    record {
      bytes = p.bytes ++ q.bytes;
      packs = rw (p.packs, q.packs);
      sized = omega (arith, length-append p.bytes q.bytes, p.sized, q.sized);
      reads = rw (
        take-append (code_size c) p.bytes q.bytes (sym p.sized),
        drop-append (code_size c) p.bytes q.bytes (sym p.sized),
        p.reads,
        q.reads,
      );
    }

-- Values are unpacked from the front of a buffer.
pub unpack_values-append :
    (f : Format) (front tail : Bytes)
    → size f ≤ length front
    → unpack_values f (front ++ tail) ≡ unpack_values f front
unfolding unpack_values
unpack_values-append [] front tail h = refl
unpack_values-append (c ∷ f) front tail h =
    let n = code_size c in
    rw (
      take-append_front n front tail (omega arith),
      drop-append_front n front tail (omega arith),
      unpack_values-append f (drop n front) tail (omega (arith, length-drop n front)),
    )

pub unpack_from-ok :
    (f : Format) (buf : Bytes) → size f ≤ length buf → unpack_from f buf ≡ ok (unpack_values f buf)
unfolding unpack_from
unpack_from-ok f buf h = rw (le→ltb_false (size f) (length buf) h)

pub unpack-sized :
    (f : Format) (buf : Bytes) → length buf ≡ size f → unpack f buf ≡ ok (unpack_values f buf)
unfolding unpack
unpack-sized f buf h = rw (h, ==_refl)

-- A buffer of another size raises.
pub unpack_wrong_size :
    (f : Format) (buf : Bytes) {v : Values f} → unpack f buf ≡ ok v → length buf ≡ size f
unfolding unpack
unpack_wrong_size f buf h = ground arith

read_in_range : (w : ℕ) (buf : Bytes) → All IsByte buf → length buf ≡ w → from_be 0 buf < 256 ^ w
read_in_range w buf h e = rw (← e) (omega (arith, from_be-lt 0 buf h, one-mul (256 ^ length buf)))

pack-unpack_code :
    (c : Code) (buf : Bytes)
    → All IsByte buf
    → length buf ≡ code_size c
    → pack_code c (unpack_code c buf) ≡ ok buf
unfolding pack_code unpack_code
pack-unpack_code (uint w) buf h e =
    let small : from_be 0 buf < 256 ^ w = read_in_range w buf h e in
    let same : be w (from_be 0 buf) ≡ buf = rw e at (be-from_be 0 buf h) in ground arith
pack-unpack_code int64 buf h e =
    let small : from_be 0 buf < 256 ^ 8 = read_in_range 8 buf h e in
    let same : be 8 (from_be 0 buf) ≡ buf = rw e at (be-from_be 0 buf h) in
    let back : from_be 0 buf < 2 ^ 64 → 2 ^ 64 - 1 - (2 ^ 64 - 1 - from_be 0 buf) ≡ from_be 0 buf =
      λ lt. omega arith in
    elim (Bool-cases (ltb (from_be 0 buf) (2 ^ 63))) [
      | inl lt ↦ rw (lt, lt, same)
      | inr ge ↦ rw ge (
          rw (lt→ltb (2 ^ 64 - 1 - from_be 0 buf) (2 ^ 63) (ground arith), back (omega arith))
            (ap ok same))
    ]
pack-unpack_code (str n) buf h e =
    let gap : n - length buf ≡ 0 = omega arith in rw (take_all n buf (omega arith), gap, append-nil)

-- Every buffer of bytes of the right size is what packing its values gives.
pub pack-unpack_values :
    (f : Format) (buf : Bytes)
    → All IsByte buf
    → length buf ≡ size f
    → pack f (unpack_values f buf) ≡ ok buf
unfolding pack unpack_values
pack-unpack_values [] [] h e = refl
pack-unpack_values [] (b ∷ buf) h e = absurd (omega arith)
pack-unpack_values (c ∷ f) buf h e =
    let n = code_size c in
    rw (
      pack-unpack_code c (take n buf) (All-take IsByte n buf h) (omega (arith, length-take n buf)),
      pack-unpack_values f (drop n buf) (All-drop IsByte n buf h)
          (omega (arith, length-drop n buf)),
      take-append-drop,
    )

-- An integer read from the front of a buffer.
pub unpack_uint :
    (w n : ℕ) (tail : Bytes) → n < 256 ^ w → (unpack_values (uint w ∷ []) (be w n ++ tail)).0 ≡ n
unfolding unpack_values
unpack_uint w n tail h = rw (take-append w (be w n) tail (sym (length-be w n))) (from_be-be w n h)

-- A single integer that fits packs to its big-endian bytes.
pub pack_uint : (w n : ℕ) → n < 256 ^ w → pack (uint w ∷ []) (n, tt) ≡ ok (be w n)
unfolding pack pack_code
pack_uint w n h = rw (lt→ltb n (256 ^ w) h, append-nil)

unpack_code-Fits :
    (c : Code) (buf : Bytes)
    → All IsByte buf
    → length buf ≡ code_size c
    → FitsCode c (unpack_code c buf)
unfolding unpack_code
unpack_code-Fits (uint w) buf h e = read_in_range w buf h e
unpack_code-Fits int64 buf h e =
    let small : from_be 0 buf < 256 ^ 8 = read_in_range 8 buf h e in
    elim (Bool-cases (ltb (from_be 0 buf) (2 ^ 63))) [
      | inl lt ↦ rw lt (ltb→lt (from_be 0 buf) (2 ^ 63) lt)
      | inr ge ↦ rw ge (omega (arith, ltb_false→le (from_be 0 buf) (2 ^ 63) ge))
    ]
unpack_code-Fits (str n) buf h e = e

-- Values that were read from bytes fit.
pub unpack_values-Fits :
    (f : Format) (buf : Bytes) → All IsByte buf → length buf ≡ size f → Fits f (unpack_values f buf)
unfolding unpack_values
unpack_values-Fits [] buf h e = tt
unpack_values-Fits (c ∷ f) buf h e =
    let n = code_size c in
    (
      unpack_code-Fits c (take n buf) (All-take IsByte n buf h) (omega (arith, length-take n buf)),
      unpack_values-Fits f (drop n buf) (All-drop IsByte n buf h)
          (omega (arith, length-drop n buf)),
    )
