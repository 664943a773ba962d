-- ===== src/Cdc.antt =====
-- cdc.py: content-defined chunks. The Gear table, which comes from hashlib's SHA-256, is a parameter.
pub mod Boundaries
pub mod Scan
pub mod Refinement
pub mod Iteration
mod Tests
use Prim.Native.Nat.{bit_and, bit_xor}
use mosaic_archive.Base.{
  ℕ, zero, suc, ◌+◌, ◌-◌, ◌*◌, min, List, [], ◌∷◌, ◌++◌, Bytes, length, take, drop, Bool, not, ◌||◌,
  ◌&&◌, ltb, leb, ◌==◌, if◌then◌else◌, Option, none, some, Result, ok, err, raise_if, ◌>>=◌, ◌>>◌,
  value_error, out_of_fuel, true, false,
}

pub record ChunkingConfig : Type 0 where
  pub min_size : ℕ
  pub avg_size : ℕ
  pub max_size : ℕ

-- `ChunkingConfig.__post_init__`
unfoldable pub post_init : ChunkingConfig → Result (Unit {0})
post_init c = do
  raise_if (ltb c.min_size 64) value_error
  raise_if (not (bit_and c.avg_size (c.avg_size - 1) == 0)) value_error
  raise_if (not (leb c.min_size c.avg_size && leb c.avg_size c.max_size)) value_error
  raise_if (ltb (16 * 1024 * 1024) c.max_size) value_error
  ok tt

-- `_masked_table`, and the fingerprint after one more byte.
abbrev pub masked_table : (ℕ → ℕ) → ℕ → ℕ → ℕ
masked_table gear boundary_mask byte = bit_and (gear byte) boundary_mask

unfoldable pub next_fingerprint : (ℕ → ℕ) → ℕ → ℕ → ℕ → ℕ
next_fingerprint gear boundary_mask fingerprint byte =
    bit_and (bit_xor (fingerprint * 2) (masked_table gear boundary_mask byte)) boundary_mask

pub record Chunker : Type 0 where
  pub chunk : Bytes
  pub chunk_size : ℕ
  pub emitted_size : ℕ
  pub fingerprint : ℕ
  pub position : ℕ
  pub yielded : List Bytes

abbrev pub emit : Chunker → Chunker
emit s = record {
  chunk = s.chunk;
  chunk_size = 0;
  emitted_size = s.emitted_size + s.chunk_size;
  fingerprint = 0;
  position = s.position;
  yielded = s.yielded ++ (take s.chunk_size (drop s.emitted_size s.chunk) ∷ []);
}

-- `chunk.extend(input_block)`, and `del chunk[:emitted_size]`.
abbrev pub begin_block : Bytes → Chunker → Chunker
begin_block input_block s = record {
  chunk = s.chunk ++ input_block;
  chunk_size = s.chunk_size;
  emitted_size = s.emitted_size;
  fingerprint = s.fingerprint;
  position = 0;
  yielded = s.yielded;
}

abbrev pub end_block : Chunker → Chunker
end_block s = record {
  chunk = drop s.emitted_size s.chunk;
  chunk_size = s.chunk_size;
  emitted_size = 0;
  fingerprint = s.fingerprint;
  position = s.position;
  yielded = s.yielded;
}

abbrev pub last_chunk : Bytes → List Bytes
last_chunk [] = []
last_chunk (b ∷ bs) = (b ∷ bs) ∷ []

-- `gear` is `_GEAR_TABLE`.
module _ (gear : ℕ → ℕ) (config : ChunkingConfig) where
  -- The fingerprint after the bytes, up to the first at which it is 0, and the place of that one.
  unfoldable pub find_boundary : ℕ → Bytes → ℕ × Option ℕ
  find_boundary fingerprint [] = (fingerprint, none)
  find_boundary fingerprint (byte ∷ bytes) =
      let next = next_fingerprint gear (config.avg_size - 1) fingerprint byte in
      elim (next == 0) [
        | true ↦ (next, some 0)
        | false ↦
            let later = find_boundary next bytes in
            (later.0, elim later.1 [ none ↦ none | some offset ↦ some (suc offset) ])
      ]

  -- What the fingerprints of the bytes up to `scan_end` lead to.
  abbrev pub after_scan : ℕ → Chunker → ℕ × Option ℕ → Chunker
  after_scan scan_end s (fingerprint, none) =
      let grown : Chunker = record {
        chunk = s.chunk;
        chunk_size = s.chunk_size + (scan_end - s.position);
        emitted_size = s.emitted_size;
        fingerprint = fingerprint;
        position = scan_end;
        yielded = s.yielded;
      } in
      if ltb grown.chunk_size config.max_size then grown else emit grown
  after_scan scan_end s (fingerprint, some offset) = emit (record {
    chunk = s.chunk;
    chunk_size = s.chunk_size + offset + 1;
    emitted_size = s.emitted_size;
    fingerprint = fingerprint;
    position = s.position + offset + 1;
    yielded = s.yielded;
  })

  -- The bytes that cannot end a chunk.
  abbrev pub skip_bytes : Bytes → Chunker → Chunker
  skip_bytes input_block s =
      let skip = min (config.min_size - 1 - s.chunk_size) (length input_block - s.position) in
      record {
        chunk = s.chunk;
        chunk_size = s.chunk_size + skip;
        emitted_size = s.emitted_size;
        fingerprint = s.fingerprint;
        position = s.position + skip;
        yielded = s.yielded;
      }

  abbrev pub scan_bytes : Bytes → Chunker → Chunker
  scan_bytes input_block s =
      let scan_end = min (length input_block) (s.position + config.max_size - s.chunk_size) in
      after_scan scan_end s
        (find_boundary s.fingerprint (take (scan_end - s.position) (drop s.position input_block)))

  -- One round of `while position < input_size`; the loop ends after a `break` because the position
  -- is at the end of the block.
  unfoldable pub block_round : Bytes → Chunker → Chunker
  block_round input_block s =
      let skipped = skip_bytes input_block s in
      if leb (length input_block) skipped.position then skipped else scan_bytes input_block skipped

  unfoldable pub block_loop : ℕ → Bytes → Chunker → Result Chunker
  block_loop zero input_block s =
      if ltb s.position (length input_block) then err out_of_fuel else ok s
  block_loop (suc fuel) input_block s = elim (ltb s.position (length input_block)) [
    | true ↦ block_loop fuel input_block (block_round input_block s)
    | false ↦ ok s
  ]

  -- The list holds the blocks that `stream.read` returns before the empty one that ends its loop; a
  -- list with an empty block in it is no run of the program. One round moves the position, so a
  -- block needs no more rounds than it has bytes.
  unfoldable pub read_blocks : List Bytes → Chunker → Result Chunker
  unfolding block_loop
  read_blocks [] s = ok s
  read_blocks (input_block ∷ blocks) s = do
    s' ← block_loop (length input_block) input_block (begin_block input_block s)
    read_blocks blocks (end_block s')

  -- The chunks that are yielded where the calls of `stream.read` return `blocks`.
  unfoldable pub iter_content_defined_chunks : List Bytes → Result (List Bytes)
  unfolding read_blocks
  iter_content_defined_chunks blocks = do
    s ← read_blocks blocks (record {
      chunk = [];
      chunk_size = 0;
      emitted_size = 0;
      fingerprint = 0;
      position = 0;
      yielded = [];
    })
    ok (s.yielded ++ last_chunk s.chunk)
