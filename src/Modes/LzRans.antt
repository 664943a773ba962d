-- ===== src/Modes/LzRans.antt =====
-- modes/lz_rans.py: literals and matches in five streams, each coded by BYTE_RANS. The positions by
-- key, slices of the block and the copying of a match are those of modes/lz_simple.py.
pub mod Varint
pub mod Search
pub mod Tokens
pub mod Sizes
pub mod Holds
pub mod Tokenize
pub mod RoundTrip
mod Tests
use mathlib.Core.List.{reverse}
use mosaic_archive.Base.{
  ℕ, zero, suc, ◌+◌, ◌-◌, ◌*◌, min, List, [], ◌∷◌, ◌++◌, Bytes, length, take, drop, get_or,
  bytes_eq, ltb, leb, ◌==◌, ◌&&◌, ◌||◌, not, if◌then◌else◌, Result, ok, err, raise_if, ◌>>=◌, ◌>>◌,
  archive_format, index_error, true, false,
}
use mosaic_archive.Struct.{uint, str, Format, Values, size, pack, unpack_from}
use mosaic_archive.Modes.ByteRans
use mosaic_archive.Modes.LzSimple.{Positions, slice, last_n, copy}
use Varint.{encode_varint, decode_varints}

abbrev pub minimum_match : ℕ
minimum_match = 4

abbrev pub maximum_match : ℕ
maximum_match = 65535

abbrev pub maximum_distance : ℕ
maximum_distance = 65535

abbrev pub candidate_limit : ℕ
candidate_limit = 64

-- `b"LZR1"`
abbrev pub magic : Bytes
magic = 76 ∷ 90 ∷ 82 ∷ 49 ∷ []

-- `_HEADER`, of the format ">4sIIIIIIIIII"
abbrev pub header : Format
header =
    str 4
    ∷ uint 4
    ∷ uint 4
    ∷ uint 4
    ∷ uint 4
    ∷ uint 4
    ∷ uint 4
    ∷ uint 4
    ∷ uint 4
    ∷ uint 4
    ∷ uint 4
    ∷ []

-- `del entries[: -_CANDIDATE_LIMIT * 2]` where a key has more than four times the limit.
pub trim : List ℕ → List ℕ
trim entries =
    if ltb (candidate_limit * 4) (length entries)
    then last_n (candidate_limit * 2) entries
    else entries

pub index_at : Bytes → Positions → ℕ → Positions
unfolding trim
index_at block positions index =
    let key = slice block index 3 in
    let entries = trim (positions key ++ (index ∷ [])) in
    if leb (index + 3) (length block)
    then (λ k. if bytes_eq k key then entries else positions k)
    else positions

-- `for consumed in range(best_length): index_at(position + consumed)`
pub index_range : Bytes → ℕ → ℕ → Positions → Positions
index_range block zero position positions = positions
index_range block (suc rounds) position positions =
    index_range block rounds (position + 1) (index_at block positions position)

-- The inner `while`, with `limit - length` rounds left.
pub extend_match : Bytes → ℕ → ℕ → ℕ → ℕ → ℕ
extend_match block position distance zero n = n
extend_match block position distance (suc rounds) n =
    let longer = extend_match block position distance rounds (n + 1) in
    if get_or block (position + n) 0 == get_or block (position + n - distance) 0 then longer else n

-- The loop over the candidates, latest first, with the best length and distance so far.
pub best_match : Bytes → ℕ → List ℕ → ℕ → ℕ → ℕ × ℕ
unfolding extend_match
best_match block position [] best_length best_distance = (best_length, best_distance)
best_match block position (candidate ∷ candidates) best_length best_distance =
    let distance = position - candidate in
    let limit = min maximum_match (length block - position) in
    let n = extend_match block position distance (limit - 3) 3 in
    let skipped = best_match block position candidates best_length best_distance in
    let improved = best_match block position candidates n distance in
    if leb distance 0 || ltb maximum_distance distance
    then skipped
    else if ltb best_length n
    then (if n == limit then (n, distance) else improved)
    else skipped

pub find_match : Bytes → Positions → ℕ → ℕ × ℕ
unfolding best_match
find_match block positions position =
    if leb (position + minimum_match) (length block)
    then best_match block position
        (reverse (last_n candidate_limit (positions (slice block position 3)))) 0 0
    else (0, 0)

pub record Tokenizer : Type 0 where
  pub tokens : Bytes
  pub literals : Bytes
  pub literal_lengths : Bytes
  pub match_lengths : Bytes
  pub distances : Bytes
  pub pending_literals : Bytes
  pub positions : Positions
  pub position : ℕ

pub flush_literals : Tokenizer → Tokenizer
flush_literals s = if length s.pending_literals == 0 then s else record s {
  tokens = s.tokens ++ (0 ∷ []);
  literal_lengths = encode_varint (length s.pending_literals) s.literal_lengths;
  literals = s.literals ++ s.pending_literals;
  pending_literals = [];
}

pub emit_match : Bytes → Tokenizer → ℕ → ℕ → Tokenizer
unfolding flush_literals index_range index_at
emit_match block s best_length best_distance =
    let t = flush_literals s in
    record t {
      tokens = t.tokens ++ (1 ∷ []);
      match_lengths = encode_varint best_length t.match_lengths;
      distances = encode_varint best_distance t.distances;
      positions = index_range block best_length t.position t.positions;
      position = t.position + best_length;
    }

pub emit_literal : Bytes → Tokenizer → Tokenizer
unfolding index_at
emit_literal block s = record s {
  pending_literals = s.pending_literals ++ (get_or block s.position 0 ∷ []);
  positions = index_at block s.positions s.position;
  position = s.position + 1;
}

-- One round of the main loop.
pub tokenize_step : Bytes → Tokenizer → Tokenizer
unfolding find_match emit_match emit_literal
tokenize_step block s =
    let (best_length, best_distance) = find_match block s.positions s.position in
    if leb minimum_match best_length
    then emit_match block s best_length best_distance
    else emit_literal block s

-- Each round takes a byte at least, so as many rounds as the block has bytes are enough.
pub tokenize_loop : ℕ → Bytes → Tokenizer → Tokenizer
unfolding tokenize_step
tokenize_loop zero block s = s
tokenize_loop (suc fuel) block s =
    let next = tokenize_loop fuel block (tokenize_step block s) in
    if ltb s.position (length block) then next else s

abbrev pub start : Tokenizer
start = record {
  tokens = [];
  literals = [];
  literal_lengths = [];
  match_lengths = [];
  distances = [];
  pending_literals = [];
  positions = λ _. [];
  position = 0;
}

unfoldable pub tokenize : Bytes → Tokenizer
unfolding tokenize_loop flush_literals
tokenize block = flush_literals (tokenize_loop (length block) block start)

-- `LzRansMode.encode`, with the five streams in the order of their descriptors.
unfoldable pub encode : Bytes → Result Bytes
unfolding tokenize
encode [] = ok []
encode (b ∷ bs) = do
  let t = tokenize (b ∷ bs)
  tokens ← ByteRans.encode t.tokens
  literals ← ByteRans.encode t.literals
  literal_lengths ← ByteRans.encode t.literal_lengths
  match_lengths ← ByteRans.encode t.match_lengths
  distances ← ByteRans.encode t.distances
  front ← pack header (
    magic,
    (
      length t.tokens,
      (
        length tokens,
        (
          length t.literals,
          (
            length literals,
            (
              length t.literal_lengths,
              (
                length literal_lengths,
                (
                  length t.match_lengths,
                  (length match_lengths, (length t.distances, (length distances, tt))),
                ),
              ),
            ),
          ),
        ),
      ),
    ),
  )
  ok (front ++ (tokens ++ (literals ++ (literal_lengths ++ (match_lengths ++ distances)))))

-- One round of the loop over the streams: the decoded stream, and what is left of the payload.
pub decode_stream : Bytes → ℕ → ℕ → Result (Bytes × Bytes)
decode_stream payload raw_length encoded_length = do
  raw ← ByteRans.decode (take encoded_length payload) raw_length
  ok (raw, drop encoded_length payload)

-- `tokens.count(token)`
pub count : ℕ → Bytes → ℕ
count token [] = 0
count token (t ∷ ts) = (if t == token then 1 else 0) + count token ts

-- The streams, of which each list is what the decoder's index has not yet passed.
pub record Streams : Type 0 where
  pub literals : Bytes
  pub literal_lengths : List ℕ
  pub match_lengths : List ℕ
  pub distances : List ℕ

pub decode_literal : ℕ → Streams → Bytes → Result (Streams × Bytes)
decode_literal expected_size s output = elim s.literal_lengths [
  | [] ↦ err index_error
  | n ∷ rest ↦ do
    raise_if (n == 0 || ltb (length s.literals) n) archive_format
    raise_if (ltb expected_size (length output + n)) archive_format
    ok (
      record s { literals = drop n s.literals; literal_lengths = rest },
      output ++ take n s.literals,
    )
]

pub decode_match : ℕ → Streams → Bytes → Result (Streams × Bytes)
unfolding copy
decode_match expected_size s output = elim s.match_lengths [
  | [] ↦ err index_error
  | n ∷ lengths ↦ elim s.distances [
    | [] ↦ err index_error
    | distance ∷ distances ↦ do
      raise_if
          (ltb n minimum_match
            || distance == 0
            || ltb (length output) distance
            || ltb expected_size (length output + n))
          archive_format
      extended ← copy n distance output
      ok (record s { match_lengths = lengths; distances = distances }, extended)
  ]
]

-- `for token in tokens`
pub decode_tokens : ℕ → Bytes → Streams → Bytes → Result (Streams × Bytes)
unfolding decode_literal decode_match
decode_tokens expected_size [] s output = ok (s, output)
decode_tokens expected_size (token ∷ tokens) s output = do
  (s', output') ←
      if token == 0
      then decode_literal expected_size s output
      else decode_match expected_size s output
  decode_tokens expected_size tokens s' output'

-- The decoder behind the streams.
unfoldable pub decode_streams : ℕ → Bytes → Bytes → Bytes → Bytes → Bytes → Result Bytes
unfolding count decode_tokens
decode_streams expected_size tokens literals literal_data match_data distance_data = do
  raise_if (not (count 0 tokens + count 1 tokens == length tokens)) archive_format
  literal_lengths ← decode_varints literal_data (count 0 tokens)
  match_lengths ← decode_varints match_data (count 1 tokens)
  distances ← decode_varints distance_data (count 1 tokens)
  (s, output) ←
      decode_tokens expected_size tokens
        (record {
          literals = literals;
          literal_lengths = literal_lengths;
          match_lengths = match_lengths;
          distances = distances;
        })
        []
  raise_if (not (length s.literals == 0) || not (length output == expected_size)) archive_format
  ok output

unfoldable pub decode_body : Bytes → ℕ → Result Bytes
unfolding decode_stream decode_streams
decode_body payload expected_size = do
  raise_if (ltb (length payload) (size header)) archive_format
  (found, (r0, (e0, (r1, (e1, (r2, (e2, (r3, (e3, (r4, (e4, _))))))))))) ←
      unpack_from header payload
  raise_if (not (bytes_eq found magic)) archive_format
  raise_if
      (ltb expected_size r0
        || ltb expected_size r1
        || ltb expected_size r2
        || ltb expected_size r3
        || ltb expected_size r4)
      archive_format
  raise_if (not (e0 + e1 + e2 + e3 + e4 == length payload - size header)) archive_format
  (tokens, rest0) ← decode_stream (drop (size header) payload) r0 e0
  (literals, rest1) ← decode_stream rest0 r1 e1
  (literal_data, rest2) ← decode_stream rest1 r2 e2
  (match_data, rest3) ← decode_stream rest2 r3 e3
  (distance_data, _) ← decode_stream rest3 r4 e4
  decode_streams expected_size tokens literals literal_data match_data distance_data

-- `LzRansMode.decode`
unfoldable pub decode : Bytes → ℕ → Result Bytes
unfolding decode_body
decode payload zero = if length payload == 0 then ok [] else err archive_format
decode payload (suc n) = decode_body payload (suc n)
