-- ===== src/Archive/Bounds.antt =====
-- archive.py: how much a decoder restores, whatever the bytes of the archive are.
use mosaic_archive.Base.{
  ℕ, zero, suc, ◌+◌, ◌≤◌, ◌≡◌, sym, ap, List, [], ◌∷◌, Bytes, length, length-append, ok, ok-inj,
  arith, >>=-eq-ok, raise_if-eq-ok, bytes_eq, not, integrity,
}
use mosaic_archive.Format.PublicHeader.{PublicHeader}
use mosaic_archive.Modes.Registry.{get_mode}
use mosaic_archive.Modes.Registry.Exact.{get_mode-IsExact}
use mosaic_archive.Archive.Types.{Platform, EncodedRecord, DecodedArchive}
use mosaic_archive.Archive.Decode.{
  read_records, parse_inner, open_archive, decode_records, decode_file,
}

abbrev total_size : List EncodedRecord → ℕ
total_size [] = 0
total_size (r ∷ rs) = r.original_size + total_size rs

module _ (on : Platform) where
  decoded_size :
      (rs : List EncodedRecord) (output : Bytes)
      → decode_records on rs ≡ ok output
      → length output ≡ total_size rs
  unfolding decode_records
  decoded_size [] output h = ap length (sym (ok-inj h))
  decoded_size (r ∷ rs) output h =
      let (mode, found, h1) = >>=-eq-ok (get_mode on.zlib r.mode_id) _ h in
      let (block, decoded, h2) = >>=-eq-ok (mode.decode r.payload r.original_size) _ h1 in
      let (rest, more, h3) = >>=-eq-ok (decode_records on rs) _ h2 in
      omega (
        arith,
        ap length (ok-inj h3),
        length-append block rest,
        get_mode-IsExact on.zlib r.mode_id mode found r.payload r.original_size block decoded,
        decoded_size rs rest more,
      )

  read_total :
      (n chunk_size : ℕ) (stream : Bytes) {r : List EncodedRecord × (ℕ × Bytes)}
      → read_records on n chunk_size stream ≡ ok r
      → total_size r.0 ≡ r.1.0
  unfolding read_records
  read_total zero chunk_size stream h = grind arith
  read_total (suc n) chunk_size stream h = grind (arith, read_total n chunk_size)

  parsed_size :
      (inner : Bytes) (header : PublicHeader)
      (archive_size padded_size max_output_size max_frame_count : ℕ) {d : DecodedArchive}
      → parse_inner on inner header archive_size padded_size max_output_size max_frame_count ≡ ok d
      → total_size d.records ≤ max_output_size
  unfolding parse_inner
  parsed_size inner header archive_size padded_size max_output_size max_frame_count h =
      grind (arith, read_total)

  opened_size :
      (archive password : Bytes) (max_output_size max_frame_count max_archive_size : ℕ)
      {d : DecodedArchive}
      → open_archive on archive password max_output_size max_frame_count max_archive_size ≡ ok d
      → (total_size d.records ≤ max_output_size) × (length archive ≤ max_archive_size)
  unfolding open_archive
  opened_size archive password max_output_size max_frame_count max_archive_size h =
      (grind (arith, parsed_size), grind arith)

  -- Whatever the bytes of an archive are, what `decode_file` restores from them is not longer than
  -- the limit on the output, and the archive is not longer than the limit on the archive.
  pub decode_file_bounds :
      (archive password : Bytes) (max_output_size max_frame_count max_archive_size : ℕ)
      (restored : Bytes)
      → decode_file on archive password max_output_size max_frame_count max_archive_size
        ≡ ok restored
      → (length restored ≤ max_output_size) × (length archive ≤ max_archive_size)
  unfolding decode_file
  decode_file_bounds archive password max_output_size max_frame_count max_archive_size restored h =
      let (d, opened, h1) =
        >>=-eq-ok
          (open_archive on archive password max_output_size max_frame_count max_archive_size) _ h in
      let (output, decoded, h2) = >>=-eq-ok (decode_records on d.records) _ h1 in
      let (_, same) =
        raise_if-eq-ok (not (bytes_eq (on.sha256 output) d.expected_hash)) integrity (ok output)
          h2 in
      let (small, fits) =
        opened_size archive password max_output_size max_frame_count max_archive_size opened in
      (omega (arith, decoded_size d.records output decoded, ap length (ok-inj same), small), fits)
