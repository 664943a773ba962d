-- ===== src/Modes/ByteRans/Header.antt =====
-- The header of a payload: the decoder's checks pass on what the encoder writes.
use mathlib.Core.List.{reverse, reverse-reverse}
use native.Mathlib.Decide.{dec_lt}
use mosaic_archive.Base.{
  ℕ, zero, suc, ◌+◌, ◌*◌, ◌≤◌, ◌<◌, ◌≡◌, refl, sym, ap, ◌∙◌, [], ◌∷◌, ◌++◌, append-nil, Bytes,
  length, length-append, take, drop, take-append, drop-append, arith, ◌==◌, Bool-cases, inl, inr,
  ok, le→leb, le→ltb_false,
}
use mosaic_archive.Struct.{uint, unpack_values}
use mosaic_archive.Struct.RoundTrip.{unpack_uint}
use mosaic_archive.Struct.Integers.{be, length-be}
use mosaic_archive.Modes.ByteRans.{
  scale, lower, Dict, symbols, total, cumulative, table_rows, state_bytes, read_table, format_error,
  fill_lookup, decode_symbols, decode_body,
}
use mosaic_archive.Modes.ByteRans.Sums.{total_interval}
use mosaic_archive.Modes.ByteRans.Table.{length-table_rows, restrict_all, read_table_rows}
use mosaic_archive.Modes.ByteRans.Coder.{InRange}

length-symbols : (n : ℕ) (f : Dict) → length (symbols n f) ≤ n
unfolding symbols
length-symbols zero f = omega arith
length-symbols (suc n) f = elim (Bool-cases (f n == 0)) [
  | inl e ↦ rw (e, append-nil) (omega (arith, length-symbols n f))
  | inr e ↦ rw (e, length-append) (omega (arith, length-symbols n f))
]

-- A dictionary that is not all zeros has a symbol.
symbols_some : (n : ℕ) (f : Dict) → 0 < total n f → 0 < length (symbols n f)
unfolding symbols total
symbols_some zero f h = absurd (omega arith)
symbols_some (suc n) f h = elim (Bool-cases (f n == 0)) [
  | inl e ↦ rw (e, append-nil) (symbols_some n f (ground arith))
  | inr e ↦ rw (e, length-append) (omega arith)
]

frequency_small :
    (f : Dict) → total 256 f ≡ scale → ((s : ℕ) → 256 ≤ s → f s ≡ 0) → (s : ℕ) → f s < 65536
frequency_small f sum out s = elim (dec_lt s 256) [
  | yes lt ↦ bound (total 256 f) sum (total_interval 256 s f lt)
  | no ge ↦ rw (out s (omega arith)) (omega arith)
]
  where
    bound : (t : ℕ) → t ≡ scale → total s f + f s ≤ t → f s < 65536
    bound t e h = omega arith

-- The checks of the decoder, one after the other.
pub record Parsed (payload : Bytes) (f starts : Dict) (state : ℕ) (stream : Bytes) : Type 0 where
  count : ℕ
  rest : Bytes
  enough : 2 ≤ length payload
  header : (unpack_values (uint 2 ∷ []) payload).0 ≡ count
  some_symbols : (1 ≤ count) × (count ≤ 256)
  long : 2 + count * 3 + 4 ≤ length payload
  table : read_table count (drop 2 payload) (λ _. 0) ≡ ok (rest, f)
  sums : cumulative f ≡ ok starts
  start : (unpack_values (uint 4 ∷ []) (reverse (take 4 rest))).0 ≡ state
  state_held : 4 ≤ length (reverse (take 4 rest))
  in_range : lower ≤ state
  left : drop 4 rest ≡ stream

pub decode_body_lem :
    (payload : Bytes) (f starts : Dict) (state size : ℕ) (stream block : Bytes)
    → Parsed payload f starts state stream
    → decode_symbols f starts (fill_lookup f starts (symbols 256 f) (λ _. 0)) size state stream []
      ≡ ok (lower, [], block)
    → decode_body payload size ≡ ok block
unfolding decode_body format_error
decode_body_lem payload f starts state size stream block p d = rw (
  le→ltb_false 2 (length payload) p.enough,
  p.header,
  le→leb 1 p.count p.some_symbols.0,
  le→leb p.count 256 p.some_symbols.1,
  le→ltb_false (2 + p.count * 3 + 4) (length payload) p.long,
  p.table,
  p.sums,
  le→ltb_false 4 (length (reverse (take 4 p.rest))) p.state_held,
  p.start,
  le→ltb_false lower state p.in_range,
  p.left,
  d,
)

length-state_bytes : (state : ℕ) → length (state_bytes state) ≡ 4
unfolding be
length-state_bytes state = refl

-- What the encoder writes for its dictionaries, its last state and its stream.
module _ (f starts : Dict) (state : ℕ) (stream : Bytes) where
  unfoldable pub payload_of : Bytes
  payload_of =
      be 2 (length (symbols 256 f))
      ++ (table_rows f (symbols 256 f) ++ (state_bytes state ++ stream))

  pub parsed :
      total 256 f ≡ scale
      → cumulative f ≡ ok starts
      → ((s : ℕ) → 256 ≤ s → f s ≡ 0)
      → InRange state
      → Parsed payload_of f starts state stream
  unfolding payload_of
  parsed sum begins out range = record {
    count = n;
    rest = tail;
    enough = omega (arith, l1, l2);
    header = unpack_uint 2 n _ (omega (arith, length-symbols 256 f));
    some_symbols = (symbols_some 256 f (some_total (total 256 f) sum), length-symbols 256 f);
    long = omega (arith, l1, l2, l3, l4, l5, l6);
    table = rw (drop-append 2 (be 2 n) (rows ++ tail) (sym l2)) (
        read_table_rows f 256 tail (omega arith) (frequency_small f sum out)
        ∙ ap (λ (g : Dict). ok (tail, g)) (restrict_all f 256 out));
    sums = begins;
    start =
        rw (take-append 4 (state_bytes state) stream (sym l6), reverse-reverse (be 4 state))
          (rw append-nil at (unpack_uint 4 state [] (omega (arith, range.1))));
    state_held =
        rw (take-append 4 (state_bytes state) stream (sym l6), reverse-reverse (be 4 state))
          (omega (arith, length-be 4 state));
    in_range = range.0;
    left = drop-append 4 (state_bytes state) stream (sym l6);
  }
    where
      n : ℕ
      n = length (symbols 256 f)

      rows : Bytes
      rows = table_rows f (symbols 256 f)

      tail : Bytes
      tail = state_bytes state ++ stream

      some_total : (t : ℕ) → t ≡ scale → 0 < t
      some_total t e = omega arith

      l1 : length payload_of ≡ length (be 2 n) + length (rows ++ tail)
      l1 = length-append (be 2 n) (rows ++ tail)

      l2 : length (be 2 n) ≡ 2
      l2 = length-be 2 n

      l3 : length (rows ++ tail) ≡ length rows + length tail
      l3 = length-append rows tail

      l4 : length rows ≡ n * 3
      l4 = length-table_rows f (symbols 256 f)

      l5 : length tail ≡ length (state_bytes state) + length stream
      l5 = length-append (state_bytes state) stream

      l6 : length (state_bytes state) ≡ 4
      l6 = length-state_bytes state

  -- The payload has at most 774 bytes besides the stream.
  pub length-payload_of : length payload_of ≤ 774 + length stream
  unfolding payload_of
  length-payload_of =
      let ss = symbols 256 f in
      let rows = table_rows f ss in
      omega (
        arith,
        length-append (be 2 (length ss)) (rows ++ (state_bytes state ++ stream)),
        length-be 2 (length ss),
        length-append rows (state_bytes state ++ stream),
        length-table_rows f ss,
        length-append (state_bytes state) stream,
        length-state_bytes state,
        length-symbols 256 f,
      )
