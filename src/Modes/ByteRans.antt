-- ===== src/Modes/ByteRans.antt =====
-- modes/rans.py: a range coder over bytes, with frequencies normalised to 4,096.
pub mod Sums
pub mod Order
pub mod Normalize
pub mod Table
pub mod Coder
pub mod Stream
pub mod Header
pub mod RoundTrip
mod Tests
use mathlib.Core.List.{reverse}
use mosaic_archive.Base.{
  ℕ, zero, suc, ◌+◌, ◌-◌, ◌*◌, ◌/◌, ◌%◌, ◌^◌, max, List, [], ◌∷◌, ◌++◌, Bytes, length, take, drop,
  get_or, ltb, leb, ◌==◌, ◌&&◌, ◌||◌, not, if◌then◌else◌, Result, ok, err, raise_if, ◌>>=◌, ◌>>◌,
  archive_format, runtime_error,
}
use mosaic_archive.Struct.{uint, unpack_from}
use mosaic_archive.Struct.Integers.{be}

-- `_SCALE` and `_RANS_L`
abbrev pub scale : ℕ
scale = 4096

abbrev pub lower : ℕ
lower = 2 ^ 23

-- A dictionary from symbols to numbers. No dictionary of the module holds a 0 for a frequency, so a
-- symbol that is missing is one whose number is 0.
abbrev pub Dict : Type 0
Dict = ℕ → ℕ

abbrev pub update : Dict → ℕ → ℕ → Dict
update f s v t = if s == t then v else f t

-- `sorted(f)`: the symbols below `n` that are in the dictionary, in order.
pub symbols : ℕ → Dict → List ℕ
symbols zero f = []
symbols (suc n) f = symbols n f ++ (if f n == 0 then [] else (n ∷ []))

-- `sum(f.values())`
pub total : ℕ → Dict → ℕ
total zero f = 0
total (suc n) f = total n f + f n

-- `Counter(data)`
pub counter : Bytes → Dict
counter [] s = 0
counter (b ∷ bs) s = (if b == s then 1 else 0) + counter bs s

pub initial_frequencies : Bytes → Dict
initial_frequencies block s =
    let count = counter block s in if count == 0 then 0 else max 1 (count * scale / length block)

-- `sorted(symbols, key=lambda symbol: (-key(symbol), symbol))`, for symbols in order.
insert_by : Dict → ℕ → List ℕ → List ℕ
insert_by key x [] = x ∷ []
insert_by key x (y ∷ ys) = if ltb (key x) (key y) then y ∷ insert_by key x ys else x ∷ y ∷ ys

pub sort_by : Dict → List ℕ → List ℕ
unfolding insert_by
sort_by key [] = []
sort_by key (x ∷ xs) = insert_by key x (sort_by key xs)

-- `order[index % len(order)]`
abbrev pub cyclic : List ℕ → ℕ → ℕ
cyclic order index = get_or order (index % length order) 0

-- `for index in range(difference)`, with `rounds` indices left.
pub add_loop : List ℕ → ℕ → ℕ → Dict → Dict
add_loop order zero index f = f
add_loop order (suc rounds) index f =
    let symbol = cyclic order index in
    add_loop order rounds (index + 1) (update f symbol (f symbol + 1))

-- `while remaining`, on fuel.
pub remove_loop : List ℕ → ℕ → ℕ → ℕ → Dict → Dict
remove_loop order zero remaining index f = f
remove_loop order (suc fuel) remaining index f =
    let symbol = cyclic order index in
    let taken =
      remove_loop order fuel (remaining - 1) (index + 1) (update f symbol (f symbol - 1)) in
    let passed = remove_loop order fuel remaining (index + 1) f in
    if remaining == 0 then f else if ltb 1 (f symbol) then taken else passed

-- `_normalize_counts`. A cycle through the order removes one at least, so that the fuel is enough.
pub normalize_counts : Bytes → Dict
normalize_counts block =
    let f = initial_frequencies block in
    let sum = total 256 f in
    let remainders : Dict = λ s. counter block s * scale % length block in
    let by_remainder = sort_by remainders (symbols 256 (counter block)) in
    let by_frequency = sort_by f (symbols 256 (counter block)) in
    let remaining = sum - scale in
    if ltb sum scale
    then add_loop by_remainder (scale - sum) 0 f
    else if ltb scale sum
    then remove_loop by_frequency (remaining * length by_frequency) remaining 0 f
    else f

-- The loop of `_cumulative`: the starts so far, and where the next symbol starts.
pub cumulative_loop : Dict → List ℕ → Dict → ℕ → Dict × ℕ
cumulative_loop f [] starts start = (starts, start)
cumulative_loop f (s ∷ ss) starts start = cumulative_loop f ss (update starts s start) (start + f s)

pub cumulative : Dict → Result Dict
cumulative f =
    let (starts, start) = cumulative_loop f (symbols 256 f) (λ _. 0) 0 in
    do raise_if (not (start == scale)) runtime_error; ok starts

-- `while state >= maximum_state`: `state & 0xFF` is the remainder by 256, and `>> 8` the quotient.
-- A state that is not 0 shrinks, so the fuel `state` is enough.
pub renormalize : ℕ → ℕ → ℕ → Bytes → ℕ × Bytes
renormalize zero maximum state out = (state, out)
renormalize (suc fuel) maximum state out =
    let rest = renormalize fuel maximum (state / 256) (out ++ (state % 256 ∷ [])) in
    if leb maximum state then rest else (state, out)

pub encode_symbol : Dict → Dict → ℕ → ℕ × Bytes → ℕ × Bytes
unfolding renormalize
encode_symbol f starts symbol (state, out) =
    let frequency = f symbol in
    let (state', out') = renormalize state (lower / 2 ^ 12 * 2 ^ 8 * frequency) state out in
    (state' / frequency * 2 ^ 12 + state' % frequency + starts symbol, out')

pub encode_symbols : Dict → Dict → List ℕ → ℕ × Bytes → ℕ × Bytes
unfolding encode_symbol
encode_symbols f starts [] acc = acc
encode_symbols f starts (s ∷ ss) acc = encode_symbols f starts ss (encode_symbol f starts s acc)

-- The rows `>BH` of the table. A symbol is a byte, and a frequency is at most 4,096.
pub table_rows : Dict → List ℕ → Bytes
table_rows f [] = []
table_rows f (s ∷ ss) = (s ∷ be 2 (f s)) ++ table_rows f ss

-- `struct.Struct("<I")`: four bytes, the lowest first.
abbrev pub state_bytes : ℕ → Bytes
state_bytes state = reverse (be 4 state)

pub encode : Bytes → Result Bytes
encode [] = ok []
encode (b ∷ bs) = do
  let block = b ∷ bs
  let f = normalize_counts block
  starts ← cumulative f
  let (state, renormalized) = encode_symbols f starts (reverse block) (lower, [])
  let rows = symbols 256 f
  ok (be 2 (length rows) ++ (table_rows f rows ++ (state_bytes state ++ reverse renormalized)))

-- One row of the table: what is left of the payload, and the dictionary.
pub read_row : Bytes → Dict → Result (Bytes × Dict)
unfolding unpack_from
read_row payload f = do
  (symbol, (frequency, _)) ← unpack_from (uint 1 ∷ uint 2 ∷ []) payload
  raise_if (not (f symbol == 0) || frequency == 0) archive_format
  ok (drop 3 payload, update f symbol frequency)

pub read_table : ℕ → Bytes → Dict → Result (Bytes × Dict)
unfolding read_row
read_table zero payload f = ok (payload, f)
read_table (suc count) payload f = do (rest, f') ← read_row payload f; read_table count rest f'

-- `except RuntimeError`
pub format_error : Result Dict → Result Dict
format_error (ok starts) = ok starts
format_error (err e) = err archive_format

-- The table of slots; a slice that is assigned has as many places as the symbol's frequency.
pub fill_lookup : Dict → Dict → List ℕ → Dict → Dict
fill_lookup f starts [] lookup = lookup
fill_lookup f starts (s ∷ ss) lookup =
    fill_lookup f starts ss
      (λ slot. if leb (starts s) slot && ltb slot (starts s + f s) then s else lookup slot)

-- `while state < _RANS_L`; the list is `payload[position:]`. `(state << 8) | byte` is a sum.
unfoldable pub refill : ℕ → Bytes → Result (ℕ × Bytes)
refill state [] = if ltb state lower then err archive_format else ok (state, [])
refill state (b ∷ payload) =
    let more = refill (state * 256 + b) payload in
    if ltb state lower then more else ok (state, b ∷ payload)

-- `for _ in range(expected_size)`
unfoldable pub decode_symbols :
    Dict → Dict → Dict → ℕ → ℕ → Bytes → Bytes → Result (ℕ × Bytes × Bytes)
unfolding refill
decode_symbols f starts lookup zero state payload output = ok (state, payload, output)
decode_symbols f starts lookup (suc count) state payload output = do
  let slot = state % scale
  let symbol = lookup slot
  (state', rest) ← refill (f symbol * (state / 2 ^ 12) + slot - starts symbol) payload
  decode_symbols f starts lookup count state' rest (output ++ (symbol ∷ []))

-- The decoder after the empty block and the checks of the header.
unfoldable pub decode_body : Bytes → ℕ → Result Bytes
unfolding unpack_from
decode_body payload expected_size = do
  raise_if (ltb (length payload) 2) archive_format
  (symbol_count, _) ← unpack_from (uint 2 ∷ []) payload
  raise_if (not (leb 1 symbol_count && leb symbol_count 256)) archive_format
  raise_if (ltb (length payload) (2 + symbol_count * 3 + 4)) archive_format
  (rest, f) ← read_table symbol_count (drop 2 payload) (λ _. 0)
  starts ← format_error (cumulative f)
  (state, _) ← unpack_from (uint 4 ∷ []) (reverse (take 4 rest))
  raise_if (ltb state lower) archive_format
  let lookup = fill_lookup f starts (symbols 256 f) (λ _. 0)
  (state', left, output) ← decode_symbols f starts lookup expected_size state (drop 4 rest) []
  raise_if (not (length left == 0) || not (state' == lower)) archive_format
  ok output

unfoldable pub decode : Bytes → ℕ → Result Bytes
decode payload zero = if length payload == 0 then ok [] else err archive_format
decode payload (suc n) = decode_body payload (suc n)
