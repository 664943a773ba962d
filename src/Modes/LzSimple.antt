-- ===== src/Modes/LzSimple.antt =====
-- modes/lz_simple.py: literals and matches, found through a table of three-byte keys.
pub mod Copied
pub mod Window
pub mod Search
pub mod Tokens
pub mod RoundTrip
mod Tests
pub mod Total
use mosaic_archive.Base.{
  ℕ, zero, suc, ◌+◌, ◌-◌, ◌*◌, ◌%◌, min, List, [], ◌∷◌, ◌++◌, Bytes, length, take, drop, get_or,
  bytes_eq, ltb, leb, ◌==◌, ◌&&◌, ◌||◌, not, if◌then◌else◌, Result, ok, err, raise_if, ◌>>=◌, ◌>>◌,
  archive_format, index_error, out_of_fuel,
}
use mosaic_archive.Struct.{uint, unpack_from}
use mosaic_archive.Struct.Integers.{be}
use mathlib.Core.List.{reverse}

abbrev pub minimum_match : ℕ
minimum_match = 6

abbrev pub maximum_match : ℕ
maximum_match = 65535

abbrev pub maximum_distance : ℕ
maximum_distance = 65535

abbrev pub candidate_limit : ℕ
candidate_limit = 32

-- `_emit_literals`: chunks of at most 65,535 bytes. Each round takes a byte at least, so as many
-- rounds as there are literals are enough. The length of a chunk fits two bytes.
emit_literals_loop : ℕ → Bytes → Bytes → Bytes
emit_literals_loop fuel [] output = output
emit_literals_loop zero (b ∷ literals) output = output
emit_literals_loop (suc fuel) (b ∷ literals) output =
    let chunk = take 65535 (b ∷ literals) in
    emit_literals_loop fuel (drop 65535 (b ∷ literals))
      (output ++ (0 ∷ (be 2 (length chunk) ++ chunk)))

pub emit_literals : Bytes → Bytes → Bytes
unfolding emit_literals_loop be
emit_literals output literals = emit_literals_loop (length literals) literals output

-- The dictionary of positions by key; a key that is missing has no positions.
abbrev pub Positions : Type 0
Positions = Bytes → List ℕ

abbrev pub slice : Bytes → ℕ → ℕ → Bytes
slice block start size = take size (drop start block)

-- `candidates[-n:]`
abbrev pub last_n : ℕ → List ℕ → List ℕ
last_n n entries = drop (length entries - n) entries

-- `del entries[: -candidate_limit * 2]` where a key has more than four times the limit.
pub trim : List ℕ → List ℕ
trim entries =
    if ltb (candidate_limit * 4) (length entries)
    then last_n (candidate_limit * 2) entries
    else entries

-- `index_position`: the table keeps a bounded number of positions for a key.
pub index_position : Bytes → Positions → ℕ → Positions
unfolding trim
index_position block positions index =
    let key = slice block index 3 in
    let entries = trim (positions key ++ (index ∷ [])) in
    if leb (index + 3) (length block)
    then (λ k. if bytes_eq k key then entries else positions k)
    else positions

-- `for consumed in range(best_length): index_position(position + consumed)`
pub index_range : Bytes → ℕ → ℕ → Positions → Positions
index_range block zero position positions = positions
index_range block (suc rounds) position positions =
    index_range block rounds (position + 1) (index_position block positions position)

-- The inner `while`, with `limit - match_length` rounds left. The places that it reads lie below
-- `position + limit`, so in the block.
pub extend_match : Bytes → ℕ → ℕ → ℕ → ℕ → ℕ → ℕ
extend_match block candidate distance position zero match_length = match_length
extend_match block candidate distance position (suc rounds) match_length =
    let longer = extend_match block candidate distance position rounds (match_length + 1) in
    if get_or block (candidate + match_length % distance) 0
      == get_or block (position + match_length) 0
    then longer
    else match_length

-- The loop over the candidates, latest first, with the best length and distance so far.
pub best_match : Bytes → ℕ → List ℕ → ℕ → ℕ → ℕ × ℕ
unfolding extend_match
best_match block position [] best_length best_distance = (best_length, best_distance)
best_match block position (candidate ∷ candidates) best_length best_distance =
    let distance = position - candidate in
    let limit = min maximum_match (length block - position) in
    let match_length = extend_match block candidate distance position (limit - 3) 3 in
    let skipped = best_match block position candidates best_length best_distance in
    let improved = best_match block position candidates match_length distance in
    if leb distance 0 || ltb maximum_distance distance
    then skipped
    else if ltb best_length match_length
    then (if match_length == limit then (match_length, distance) else improved)
    else skipped

pub find_match : Bytes → Positions → ℕ → ℕ × ℕ
unfolding best_match
find_match block positions position =
    if leb (position + minimum_match) (length block)
    then best_match block position
        (reverse (last_n candidate_limit (positions (slice block position 3)))) 0 0
    else (0, 0)

pub record Encoder : Type 0 where
  pub output : Bytes
  pub literals : Bytes
  pub positions : Positions
  pub position : ℕ

-- `_emit_literals` and the clearing of the pending literals.
pub flush : Encoder → Encoder
unfolding emit_literals
flush s = record s { output = emit_literals s.output s.literals; literals = [] }

pub emit_match : Bytes → Encoder → ℕ → ℕ → Encoder
unfolding flush index_range index_position
emit_match block s best_length best_distance =
    let t = flush s in
    record {
      output = t.output ++ (1 ∷ (be 2 best_distance ++ be 2 best_length));
      literals = t.literals;
      positions = index_range block best_length t.position t.positions;
      position = t.position + best_length;
    }

pub emit_literal : Bytes → Encoder → Encoder
unfolding flush index_position
emit_literal block s =
    let t : Encoder = record {
      output = s.output;
      literals = s.literals ++ (get_or block s.position 0 ∷ []);
      positions = index_position block s.positions s.position;
      position = s.position + 1;
    } in
    if length t.literals == 65535 then flush t else t

-- One round of the main loop.
pub encode_step : Bytes → Encoder → Encoder
unfolding find_match emit_match emit_literal
encode_step block s =
    let (best_length, best_distance) = find_match block s.positions s.position in
    if leb minimum_match best_length
    then emit_match block s best_length best_distance
    else emit_literal block s

-- Each round takes a byte at least, so as many rounds as the block has bytes are enough.
pub encode_loop : ℕ → Bytes → Encoder → Encoder
unfolding encode_step
encode_loop zero block s = s
encode_loop (suc fuel) block s =
    let next = encode_loop fuel block (encode_step block s) in
    if ltb s.position (length block) then next else s

abbrev pub start : Encoder
start = record { output = []; literals = []; positions = λ _. []; position = 0 }

unfoldable pub encode : Bytes → Bytes
unfolding encode_loop flush
encode block = (flush (encode_loop (length block) block start)).output

-- `output[-distance]`; at a distance of 0 it is the first element.
unfoldable pub at_end : Bytes → ℕ → Result ℕ
at_end output distance =
    if ltb (length output) distance || length output == 0
    then err index_error
    else ok (get_or output (if distance == 0 then 0 else length output - distance) 0)

-- `for _ in range(n): output.append(output[-distance])`
unfoldable pub copy : ℕ → ℕ → Bytes → Result Bytes
unfolding at_end
copy zero distance output = ok output
copy (suc n) distance output = do b ← at_end output distance; copy n distance (output ++ (b ∷ []))

-- A literal token after its tag: what is left of the payload, and the output.
pub decode_literal : ℕ → Bytes → Bytes → Result (Bytes × Bytes)
unfolding unpack_from
decode_literal expected_size payload output = do
  raise_if (ltb (length payload) 2) archive_format
  (n, _) ← unpack_from (uint 2 ∷ []) payload
  let rest = drop 2 payload
  raise_if (n == 0 || ltb (length rest) n) archive_format
  raise_if (ltb expected_size (length output + n)) archive_format
  ok (drop n rest, output ++ take n rest)

-- A match token after its tag.
pub decode_match : ℕ → Bytes → Bytes → Result (Bytes × Bytes)
unfolding unpack_from copy
decode_match expected_size payload output = do
  raise_if (ltb (length payload) 4) archive_format
  (distance, (n, _)) ← unpack_from (uint 2 ∷ uint 2 ∷ []) payload
  raise_if
      (distance == 0
        || ltb (length output) distance
        || ltb n minimum_match
        || ltb expected_size (length output + n))
      archive_format
  extended ← copy n distance output
  ok (drop 4 payload, extended)

pub decode_token : ℕ → ℕ → Bytes → Bytes → Result (Bytes × Bytes)
unfolding decode_literal decode_match
decode_token expected_size tag payload output =
    if tag == 0
    then decode_literal expected_size payload output
    else if tag == 1
    then decode_match expected_size payload output
    else err archive_format

-- The list is `payload[position:]`. Each round takes the tag at least.
pub decode_loop : ℕ → ℕ → Bytes → Bytes → Result Bytes
unfolding decode_token
decode_loop fuel expected_size [] output = ok output
decode_loop zero expected_size (tag ∷ payload) output = err out_of_fuel
decode_loop (suc fuel) expected_size (tag ∷ payload) output = do
  (rest, output') ← decode_token expected_size tag payload output
  decode_loop fuel expected_size rest output'

unfoldable pub decode : Bytes → ℕ → Result Bytes
unfolding decode_loop
decode payload expected_size = do
  output ← decode_loop (length payload) expected_size payload []
  raise_if (not (length output == expected_size)) archive_format
  ok output
