-- ===== src/Archive/Inner.antt =====
-- archive.py: the encrypted part of an archive, written and parsed back.
use mosaic_archive.Base.{
  ℕ, ◌+◌, ◌*◌, ◌^◌, ◌≤◌, ◌<◌, ◌≡◌, refl, sym, ap, ◌∙◌, List, [], ◌∷◌, ◌++◌, append-nil, Bytes,
  IsByte, All, length, length-append, ◌==◌, ◌&&◌, not, false, bytes_eq_refl, ==_refl, ne→==_false,
  le→ltb_false, some, ok, arith,
}
use mosaic_archive.Struct.{size}
use mosaic_archive.Struct.RoundTrip.{pack_total, unpack-sized}
use mosaic_archive.Text.{Text, UnicodeLaws, or_value_error}
use mosaic_archive.Paths.{name}
use mosaic_archive.Format.PublicHeader.{PublicHeader}
use mosaic_archive.Dedup.Frames.RoundTrip.{read_exact-append}
use mosaic_archive.Modes.Deflate.{ZlibLaws}
use mosaic_archive.Archive.Types.{
  inner_magic, inner_prefix, block_count_format, max_block_count, EncodedRecord, Platform,
}
use mosaic_archive.Archive.Encode.{read_blocks, build_inner_stream}
use mosaic_archive.Archive.Decode.{decode_name, parse_inner, decode_records}
use mosaic_archive.Archive.Blocks.{recorded, read_blocks_lem}

-- What a file must be for its archive, with the limits of the reader.
pub record IsArchivable (on : Platform) (file_name : Text) (source : Bytes)
    (chunk_size max_output_size max_frame_count : ℕ) : Type 0 where
  pub bytes : All IsByte source
  pub chunk_positive : 1 ≤ chunk_size
  pub chunk_bounded : chunk_size ≤ 2 ^ 24
  pub blocks_fit : length (read_blocks (length source) chunk_size source) ≤ max_block_count
  pub frames_fit : length (read_blocks (length source) chunk_size source) ≤ max_frame_count
  pub output_fits : length source ≤ max_output_size
  pub name_bytes : Bytes
  pub name_encodes : (on.unicode).encode file_name ≡ some name_bytes
  pub name_fits : length name_bytes ≤ 65535
  pub name_some : (length file_name == 0) ≡ false
  pub name_plain : name file_name ≡ file_name

no_blocks :
    (n m : ℕ) (source : Bytes)
    → n ≡ length (read_blocks (length source) m source)
    → ((length source == 0) && not (n == 0)) ≡ false
unfolding read_blocks
no_blocks n m [] e = rw e refl
no_blocks n m (b ∷ source) e =
    let some_bytes : (length (b ∷ source) == 0) ≡ false = ne→==_false _ 0 (λ z. omega (arith, z)) in
    rw some_bytes refl

module _ (on : Platform) (zlib_laws : ZlibLaws on.zlib) (unicode_laws : UnicodeLaws on.unicode)
    (hashes : (b : Bytes) → length (on.sha256 b) ≡ 32) where
  pub record InnerStream (file_name : Text) (source : Bytes)
      (chunk_size max_output_size max_frame_count : ℕ) : Type 0 where
    pub inner : Bytes
    pub builds : build_inner_stream on file_name source chunk_size ≡ ok inner
    pub short :
        length inner
        ≤ 65585 + length source + 9 * length (read_blocks (length source) chunk_size source)
    pub records : List EncodedRecord
    pub decodes : decode_records on records ≡ ok source
    pub parses :
        (header : PublicHeader) (archive_size padded_size : ℕ)
        → header.chunk_size ≡ chunk_size
        → parse_inner on inner header archive_size padded_size max_output_size max_frame_count
          ≡ ok (record {
            file_name = file_name;
            original_size = length source;
            expected_hash = on.sha256 source;
            records = records;
            compressed_size = length inner;
            padded_plaintext_size = padded_size;
            header = header;
            archive_size = archive_size;
          })

  pub inner_stream :
      (file_name : Text) (source : Bytes) (chunk_size max_output_size max_frame_count : ℕ)
      → IsArchivable on file_name source chunk_size max_output_size max_frame_count
      → length source < 2 ^ 64
      → InnerStream file_name source chunk_size max_output_size max_frame_count
  unfolding build_inner_stream parse_inner decode_name or_value_error
  inner_stream file_name source chunk_size max_output_size max_frame_count a small =
      let (whole, blocks) =
        read_blocks_lem (length source) chunk_size source a.chunk_positive (omega arith) a.bytes in
      let r =
        recorded on zlib_laws chunk_size (read_blocks (length source) chunk_size source)
          a.chunk_bounded blocks in
      let count = length r.records in
      let size_of_all = ap length whole in
      let prefix =
        pack_total inner_prefix (inner_magic, (length source, (length a.name_bytes, tt)))
          (refl, (small, (omega (arith, a.name_fits), tt))) in
      let counter =
        pack_total block_count_format (count, tt) (omega (arith, r.counted, a.blocks_fit), tt) in
      let blocks_fit =
        le→ltb_false count max_block_count (omega (arith, r.counted, a.blocks_fit)) in
      let frames_fit =
        le→ltb_false count max_frame_count (omega (arith, r.counted, a.frames_fit)) in
      let hash = on.sha256 source in
      let rest = hash ++ (counter.bytes ++ r.bytes) in
      record {
        inner = prefix.bytes ++ (a.name_bytes ++ rest);
        builds = rw (
          r.encodes,
          blocks_fit,
          a.name_encodes,
          le→ltb_false (length a.name_bytes) 65535 a.name_fits,
          prefix.packs,
          counter.packs,
          r.writes,
        );
        short = omega (
          arith,
          r.short,
          size_of_all,
          a.name_fits,
          prefix.sized,
          counter.sized,
          hashes source,
          length-append prefix.bytes (a.name_bytes ++ rest),
          length-append a.name_bytes rest,
          length-append hash (counter.bytes ++ r.bytes),
          length-append counter.bytes r.bytes,
        );
        records = r.records;
        decodes = r.decodes ∙ ap ok whole;
        parses = λ header archive_size padded_size e. rw (
          read_exact-append prefix.bytes (a.name_bytes ++ rest) (size inner_prefix)
              (sym prefix.sized),
          unpack-sized inner_prefix prefix.bytes prefix.sized,
          prefix.reads,
          bytes_eq_refl inner_magic,
          le→ltb_false (length source) max_output_size a.output_fits,
          read_exact-append a.name_bytes rest (length a.name_bytes) refl,
          unicode_laws.decodes file_name a.name_bytes a.name_encodes,
          a.name_some,
          a.name_plain,
          bytes_eq_refl file_name,
          read_exact-append hash (counter.bytes ++ r.bytes) 32 (sym (hashes source)),
          read_exact-append counter.bytes r.bytes (size block_count_format) (sym counter.sized),
          unpack-sized block_count_format counter.bytes counter.sized,
          counter.reads,
          blocks_fit,
          frames_fit,
          e,
          rw append-nil at (r.reads []),
          size_of_all,
          ==_refl (length source),
          no_blocks count chunk_size source r.counted,
        );
      }
