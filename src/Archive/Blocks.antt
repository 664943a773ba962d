-- ===== src/Archive/Blocks.antt =====
-- archive.py: the blocks of a file, and their records written, read and decoded.
use mosaic_archive.Base.{
  ℕ, zero, suc, ◌+◌, ◌*◌, ◌^◌, ◌≤◌, ◌<◌, ◌≡◌, refl, sym, ap, ◌∙◌, List, [], ◌∷◌, ◌++◌, append_assoc,
  Bytes, IsByte, All, All-take, All-drop, length, length-append, length-take, length-drop, take,
  drop, take-append-drop, join, ◌==◌, ne→==_false, le→ltb_false, Bool-cases, inl, inr, ==_iff,
  false, ok, arith, >>=-eq-ok,
}
use mosaic_archive.Struct.{size}
use mosaic_archive.Struct.RoundTrip.{pack_total, unpack-sized}
use mosaic_archive.Dedup.Frames.RoundTrip.{read_exact-append}
use mosaic_archive.Modes.Deflate.{ZlibLaws}
use mosaic_archive.Modes.Registry.{ModeId, value, get_mode}
use mosaic_archive.Modes.Registry.Choice.{choose_best_mode_lem}
use mosaic_archive.Archive.Types.{block_header, EncodedRecord, Platform}
use mosaic_archive.Archive.Encode.{read_blocks, write_records, encode_blocks}
use mosaic_archive.Archive.Decode.{read_records, decode_records}

-- A block of at most `n` bytes, and one at least.
abbrev pub IsBlock : ℕ → Bytes → Type 0
IsBlock n block = All IsByte block × (1 ≤ length block) × (length block ≤ n)

pub no_bytes : (xs : Bytes) → length xs ≡ 0 → xs ≡ []
no_bytes [] h = refl
no_bytes (x ∷ xs) h = absurd (omega (arith, h))

-- The blocks are the file in pieces.
pub read_blocks_lem :
    (fuel n : ℕ) (source : Bytes)
    → 1 ≤ n
    → length source ≤ fuel
    → All IsByte source
    → (join (read_blocks fuel n source) ≡ source) × All (IsBlock n) (read_blocks fuel n source)
unfolding read_blocks
read_blocks_lem zero n source pos le h = (sym (no_bytes source (omega arith)), tt)
read_blocks_lem (suc fuel) n source pos le h =
    let l = length-take n source in
    elim (Bool-cases (length (take n source) == 0)) [
      | inl e ↦
          let z = (==_iff (length (take n source)) 0).0 e in
          rw e (sym (no_bytes source (omega (arith, l, z))), tt)
      | inr e ↦
          let (whole, blocks) =
            read_blocks_lem fuel n (drop n source) pos
              (omega (arith, l, length-drop n source, positive e)) (All-drop IsByte n source h) in
          rw e (
            ap (λ r. take n source ++ r) whole ∙ take-append-drop n source,
            ((All-take IsByte n source h, positive e, omega (arith, l)), blocks),
          )
    ]
  where
    positive : (length (take n source) == 0) ≡ false → 1 ≤ length (take n source)
    positive e = ground arith

pub small_value : (id : ModeId) → value id < 256
small_value ModeId.raw = omega arith
small_value ModeId.rle = omega arith
small_value ModeId.delta8 = omega arith
small_value ModeId.lz_simple = omega arith
small_value ModeId.byte_rans = omega arith
small_value ModeId.deflate = omega arith
small_value ModeId.lz_rans = omega arith

module _ (on : Platform) (laws : ZlibLaws on.zlib) where
  -- The records of blocks: their bytes, what is read from these, and what they decode to.
  pub record Recorded (n : ℕ) (blocks : List Bytes) : Type 0 where
    pub records : List EncodedRecord
    pub encodes : encode_blocks on blocks ≡ ok records
    pub decodes : decode_records on records ≡ ok (join blocks)
    pub counted : length records ≡ length blocks
    pub bytes : Bytes
    pub writes : write_records records ≡ ok bytes
    pub short : length bytes ≤ length (join blocks) + 9 * length blocks
    pub reads :
        (tail : Bytes)
        → read_records on (length records) n (bytes ++ tail)
          ≡ ok (records, (length (join blocks), tail))

  Recorded-one :
      (n : ℕ) (block : Bytes) (blocks : List Bytes)
      → n ≤ 2 ^ 24
      → IsBlock n block
      → Recorded n blocks
      → Recorded n (block ∷ blocks)
  unfolding encode_blocks decode_records write_records read_records
  Recorded-one n block blocks small (bytes, some_bytes, fits) more =
      let (e, runs, c) = choose_best_mode_lem on.zlib laws block bytes (omega arith) in
      let (mode, found, decoded) =
        >>=-eq-ok (get_mode on.zlib (value e.mode.id)) (λ m. m.decode e.payload (length block))
          c.decodes in
      let shorter = c.no_longer in
      let front =
        pack_total block_header (value e.mode.id, (length block, (length e.payload, tt)))
          (small_value e.mode.id, (omega arith, (omega (arith, shorter), tt))) in
      let r : EncodedRecord = record {
        mode_id = value e.mode.id;
        original_size = length block;
        payload = e.payload;
      } in
      record {
        records = r ∷ more.records;
        encodes = rw (runs, more.encodes);
        decodes = rw (found, decoded, more.decodes);
        counted = ap suc more.counted;
        bytes = (front.bytes ++ e.payload) ++ more.bytes;
        writes = rw (front.packs, more.writes);
        short = omega (
          arith,
          more.short,
          shorter,
          some_bytes,
          front.sized,
          length-append (front.bytes ++ e.payload) more.bytes,
          length-append front.bytes e.payload,
          length-append block (join blocks),
        );
        reads = λ tail. rw (
          append_assoc (front.bytes ++ e.payload) more.bytes tail,
          append_assoc front.bytes e.payload (more.bytes ++ tail),
          read_exact-append front.bytes (e.payload ++ (more.bytes ++ tail)) (size block_header)
              (sym front.sized),
          unpack-sized block_header front.bytes front.sized,
          front.reads,
          found,
          ne→==_false (length block) 0 (λ z. omega (arith, z, some_bytes)),
          le→ltb_false (length block) n fits,
          read_exact-append e.payload (more.bytes ++ tail) (length e.payload) refl,
          more.reads tail,
          length-append block (join blocks),
        );
      }

  pub recorded :
      (n : ℕ) (blocks : List Bytes) → n ≤ 2 ^ 24 → All (IsBlock n) blocks → Recorded n blocks
  unfolding encode_blocks decode_records write_records read_records
  recorded n [] small h = record {
    records = [];
    encodes = refl;
    decodes = refl;
    counted = refl;
    bytes = [];
    writes = refl;
    short = omega arith;
    reads = λ tail. refl;
  }
  recorded n (block ∷ blocks) small h =
      Recorded-one n block blocks small h.0 (recorded n blocks small h.1)
