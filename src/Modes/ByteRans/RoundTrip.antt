-- ===== src/Modes/ByteRans/RoundTrip.antt =====
-- BYTE_RANS: what the encoder writes decodes to the block.
use mathlib.Core.List.{reverse, reverse-cons}
use native.Mathlib.Decide.{dec_lt}
use mosaic_archive.Base.{
  ℕ, ◌+◌, ◌*◌, ◌≤◌, ◌<◌, ◌≡◌, ◌≢◌, refl, [], ◌∷◌, length-append, append-nil, Bytes, IsByte, All,
  All-mono, length, arith, ok,
}
use mosaic_archive.Modes.ByteRans.{
  scale, lower, Dict, symbols, total, normalize_counts, encode_symbols, encode, fill_lookup, decode,
}
use mosaic_archive.Modes.ByteRans.Sums.{total_interval, cumulative_lem}
use mosaic_archive.Modes.ByteRans.Order.{Occurs}
use mosaic_archive.Modes.ByteRans.Normalize.{Shape, normalize_counts_lem, All-Occurs, counter_out}
use mosaic_archive.Modes.ByteRans.Table.{fill_lookup_lem}
use mosaic_archive.Modes.ByteRans.Stream.{Usable, coded, decode_coded, length-coded}
use mosaic_archive.Modes.ByteRans.Header.{payload_of, length-payload_of, parsed, decode_body_lem}

frequency_of :
    (block : Bytes) (f : Dict) → Shape block f → All IsByte block → (s : ℕ) → 256 ≤ s → f s ≡ 0
frequency_of block f shape h s out = shape.absent s (counter_out block s h out)

usable :
    (block : Bytes) (f starts : Dict)
    → All IsByte block
    → Shape block f
    → total 256 f ≡ scale
    → ((s : ℕ) → s < 256 → f s ≢ 0 → starts s ≡ total s f)
    → (s : ℕ) → Occurs s block
    → Usable f starts (fill_lookup f starts (symbols 256 f) (λ _. 0)) s
usable block f starts h shape sum begins s o =
    let pos : 1 ≤ f s = shape.present s o in
    let some : f s ≢ 0 = λ z. absurd (omega (arith, pos, z)) in
    let byte : s < 256 = elim (dec_lt s 256) [
      | yes lt ↦ lt
      | no ge ↦ absurd (o (counter_out block s h (omega arith)))
    ] in
    let at = begins s byte some in
    record {
      present = pos;
      inside = rw (at, ← sum) (total_interval 256 s f byte);
      slots = λ slot lo hi.
          fill_lookup_lem f starts 256 begins s byte some slot (rw (← at) lo) (rw (← at) hi);
    }

length-reverse : (xs : Bytes) → length (reverse xs) ≡ length xs
length-reverse [] = refl
length-reverse (x ∷ xs) =
    rw reverse-cons (omega (arith, length-append (reverse xs) (x ∷ []), length-reverse xs))

-- What the encoder writes: it is short, and it decodes to the block.
pub record Encoded (block payload : Bytes) : Type 0 where
  pub encodes : encode block ≡ ok payload
  pub decodes : decode payload (length block) ≡ ok block
  pub short : length payload ≤ 774 + 2 * length block

pub encode_total : (block : Bytes) → All IsByte block → (payload : Bytes) × Encoded block payload
unfolding encode decode coded payload_of
encode_total [] h = ([], record { encodes = refl; decodes = refl; short = omega arith })
encode_total (b ∷ bs) h =
    let block = b ∷ bs in
    let f = normalize_counts block in
    let (shape, sum) = normalize_counts_lem b bs h.0 in
    let (starts, known, begins) = cumulative_lem f sum in
    let lookup = fill_lookup f starts (symbols 256 f) (λ _. 0) in
    let r = encode_symbols f starts (reverse block) (lower, []) in
    let good : All (Usable f starts lookup) block =
      All-mono (λ s. Occurs s block) (Usable f starts lookup) block
        (usable block f starts h shape sum begins) (All-Occurs block) in
    let d = decode_coded f starts lookup block good in
    let stream = reverse r.1 in
    (
      payload_of f starts r.0 stream,
      record {
        encodes = rw known;
        decodes =
            decode_body_lem _ f starts r.0 (length block) stream block
              (parsed f starts r.0 stream sum known (frequency_of block f shape h) d.range)
              (rw append-nil at (d.decodes [] []));
        short = omega (
          arith,
          length-payload_of f starts r.0 stream,
          length-reverse r.1,
          length-coded f starts lookup block good,
        );
      },
    )

-- Every byte string is encoded, and decoding the payload with the length of the string as the
-- expected size gives the string back: the frequencies are normalised to 4,096 and the coder's state
-- is restored symbol by symbol.
pub byte_rans_round_trip :
    (block : Bytes)
    → All IsByte block
    → (payload : Bytes) × (encode block ≡ ok payload) × (decode payload (length block) ≡ ok block)
byte_rans_round_trip block h =
    let (payload, e) = encode_total block h in (payload, e.encodes, e.decodes)
