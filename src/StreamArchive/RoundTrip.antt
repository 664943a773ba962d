-- ===== src/StreamArchive/RoundTrip.antt =====
-- MSC2: the bytes of a file go through its data frames.
use native.Mathlib.Nat.{add-mul}
use mathlib.Core.Path.{subst}
use mosaic_archive.Base.{
  ℕ, zero, suc, ◌+◌, ◌-◌, ◌*◌, ◌^◌, ◌≤◌, ◌<◌, ◌≡◌, refl, sym, ◌∙◌, List, [], ◌∷◌, ◌++◌,
  append_assoc, Bytes, IsByte, All, All-take, All-drop, length, length-append, length-take,
  length-drop, take, drop, take-append-drop, drop-append, min, ◌==◌, false, true, inl, inr,
  Bool-cases, ==_iff, ==_refl, le→ltb_false, bytes_eq, bytes_eq_refl, ok, arith, >>=-eq-ok,
}
use mosaic_archive.Struct.{size}
use mosaic_archive.Struct.RoundTrip.{pack_total, unpack_values-append, unpack_from-ok}
use mosaic_archive.Padding.RoundTrip.{padded_length_bounds}
use mosaic_archive.Format.StreamHeader.{Msc2Header}
use mosaic_archive.Format.StreamHeader.RoundTrip.{IsMsc2}
use mosaic_archive.Modes.Registry.{value, get_mode}
use mosaic_archive.Modes.Registry.Choice.{choose_best_mode_lem}
use mosaic_archive.Archive.Types.{Platform}
use mosaic_archive.Archive.Encode.{read_blocks}
use mosaic_archive.Archive.Blocks.{IsBlock, no_bytes, small_value}
use mosaic_archive.Archive.RoundTrip.{PlatformLaws}
use mosaic_archive.Manifest.{Entry}
use mosaic_archive.StreamArchive.Frames.RoundTrip.{Written, read-write_frame}
use mosaic_archive.StreamArchive.Files.{
  data_prefix, write_block, write_blocks, read_block, read_blocks_of, read_file,
}

module _ (on : Platform) (laws : PlatformLaws on) (key global_header : Bytes) (header : Msc2Header)
    (valid : IsMsc2 header) (entry_index : ℕ) (entry : Entry) (indexed : entry_index < 2 ^ 32)
    (known : length key ≡ 32) (short : length global_header < 2 ^ 30) where
  record BlockFrame (local_frame frame_index : ℕ) (block : Bytes) : Type 0 where
    frame : Bytes
    writes : write_block on key global_header header entry_index frame_index block ≡ ok frame
    reads :
        (rest : Bytes)
        → read_block on key global_header header entry_index entry local_frame frame_index
            (frame ++ rest)
          ≡ ok (block, rest)

  block_frame :
      (local_frame frame_index : ℕ) (block : Bytes)
      → IsBlock header.chunk_size block
      → length block ≡ min header.chunk_size (entry.size - local_frame * header.chunk_size)
      → frame_index < 2 ^ 64
      → BlockFrame local_frame frame_index block
  unfolding write_block read_block
  block_frame local_frame frame_index block (bytes, some_bytes, fits) expected small =
      let bounded = valid.chunk_bounded in
      let (e, runs, c) = choose_best_mode_lem on.zlib laws.zlib_laws block bytes (omega arith) in
      let (mode, found, decoded) =
        >>=-eq-ok (get_mode on.zlib (value e.mode.id)) (λ m. m.decode e.payload (length block))
          c.decodes in
      let shorter = c.no_longer in
      let prefix =
        pack_total data_prefix (entry_index, (length block, (value e.mode.id, tt)))
          (indexed, (omega arith, (small_value e.mode.id, tt))) in
      let payload = prefix.bytes ++ e.payload in
      let total = length-append prefix.bytes e.payload in
      let bounds =
        padded_length_bounds (length payload) header.padding_size
          (omega (arith, valid.padding_low)) in
      let w : Written on.cipher laws.cipher_laws on.random_padding laws.padding_random frame_index 2
          payload key global_header header =
        read-write_frame on.cipher laws.cipher_laws on.random_padding laws.padding_random
          frame_index 2 payload key global_header header valid (inr refl) small
          (omega (arith, total, prefix.sized, shorter, bounds, fits)) known short in
      let long = unpack_from-ok data_prefix payload (omega (arith, total, prefix.sized)) in
      let whole =
        le→ltb_false (size data_prefix) (length payload) (omega (arith, total, prefix.sized)) in
      let inside =
        le→ltb_false (local_frame * header.chunk_size) entry.size
          (omega (arith, expected, some_bytes, valid.chunk_positive)) in
      let same : (length block
            == min header.chunk_size (entry.size - local_frame * header.chunk_size))
          ≡ true =
        (==_iff (length block)
            (min header.chunk_size (entry.size - local_frame * header.chunk_size))).1
          expected in
      let values =
        unpack_values-append data_prefix prefix.bytes e.payload (omega (arith, prefix.sized))
        ∙ prefix.reads in
      record {
        frame = w.frame;
        writes = rw (runs, prefix.packs, w.returns);
        reads = λ rest. rw (
          w.reads rest,
          whole,
          long,
          values,
          ==_refl entry_index,
          inside,
          same,
          found,
          drop-append (size data_prefix) prefix.bytes e.payload (sym prefix.sized),
          decoded,
        );
      }

  -- The frames of the bytes of a file from a place on: what they are written as, and what is read.
  record FileFrames (local_frame frame_index : ℕ) (source : Bytes) (blocks : List Bytes)
      : Type 0 where
    bytes : Bytes
    writes :
        write_blocks on key global_header header entry_index frame_index blocks
        ≡ ok (bytes, frame_index + length blocks)
    reads :
        (rest : Bytes)
        → read_blocks_of on key global_header header
            (length blocks)
            entry_index
            entry
            local_frame
            frame_index
            (bytes ++ rest)
          ≡ ok (source, (frame_index + length blocks, rest))

  more_frames :
      (local_frame frame_index : ℕ) (block source : Bytes) (blocks : List Bytes)
      → BlockFrame local_frame frame_index block
      → FileFrames (local_frame + 1) (frame_index + 1) source blocks
      → FileFrames local_frame frame_index (block ++ source) (block ∷ blocks)
  unfolding write_blocks read_blocks_of
  more_frames local_frame frame_index block source blocks b more =
      let next : frame_index + 1 + length blocks ≡ frame_index + suc (length blocks) =
        omega arith in
      record {
        bytes = b.frame ++ more.bytes;
        writes = rw (b.writes, more.writes, next);
        reads = λ rest. rw (
          append_assoc b.frame more.bytes rest,
          b.reads (more.bytes ++ rest),
          more.reads rest,
          next,
        );
      }

  no_frames :
      (local_frame frame_index : ℕ) (source : Bytes)
      → length source ≡ 0
      → FileFrames local_frame frame_index source []
  unfolding write_blocks read_blocks_of
  no_frames local_frame frame_index source h =
      let next : frame_index + 0 ≡ frame_index = omega arith in
      record {
        bytes = [];
        writes = rw next refl;
        reads = λ rest. rw (no_bytes source h, next) refl;
      }

  file_frames :
      (fuel local_frame frame_index : ℕ) (source : Bytes)
      → length source ≤ fuel
      → All IsByte source
      → entry.size - local_frame * header.chunk_size ≡ length source
      → frame_index + fuel < 2 ^ 64
      → FileFrames local_frame frame_index source (read_blocks fuel header.chunk_size source)
  unfolding read_blocks
  file_frames zero local_frame frame_index source le h left small =
      no_frames local_frame frame_index source (omega arith)
  file_frames (suc fuel) local_frame frame_index source le h left small =
      let n = header.chunk_size in
      let l = length-take n source in
      let d = length-drop n source in
      let pos = valid.chunk_positive in
      elim (Bool-cases (length (take n source) == 0)) [
        | inl e ↦
            let z = (==_iff (length (take n source)) 0).0 e in
            rw e (no_frames local_frame frame_index source (omega (arith, l, z, pos)))
        | inr e ↦
            let some_bytes = positive (take n source) e in
            let more =
              more_frames local_frame frame_index (take n source) (drop n source)
                (read_blocks fuel n (drop n source))
                (block_frame local_frame frame_index (take n source)
                  (All-take IsByte n source h, some_bytes, omega (arith, l))
                  (omega (arith, l, left)) (omega arith))
                (file_frames fuel (local_frame + 1) (frame_index + 1) (drop n source)
                  (omega (arith, l, d, some_bytes)) (All-drop IsByte n source h)
                  (omega (arith, d, left, add-mul local_frame 1 n)) (omega arith)) in
            rw e (
              subst
                (λ s.
                  FileFrames local_frame frame_index s
                    (take n source ∷ read_blocks fuel n (drop n source)))
                (take-append-drop n source) more)
      ]
    where
      positive : (block : Bytes) → (length block == 0) ≡ false → 1 ≤ length block
      positive block e = ground arith

  checked :
      (frame_index : ℕ) (stream source rest : Bytes)
      → read_blocks_of on key global_header header entry.count entry_index entry 0 frame_index
          stream
        ≡ ok (source, (frame_index + entry.count, rest))
      → entry.size ≡ length source
      → entry.digest ≡ on.sha256 source
      → read_file on key global_header header entry_index entry frame_index stream
        ≡ ok (source, (frame_index + entry.count, rest))
  unfolding read_file
  checked frame_index stream source rest reads sized digested =
      let size_test = (==_iff (length source) entry.size).1 (sym sized) in
      let digest_test : bytes_eq (on.sha256 source) entry.digest ≡ true =
        subst (λ d. bytes_eq (on.sha256 source) d ≡ true) (sym digested)
          (bytes_eq_refl (on.sha256 source)) in
      rw (reads, size_test, digest_test) refl

  -- The blocks of a file, written one after the other as data frames, are read back as the file:
  -- its digest and size match, the frames are consumed to the last byte, whatever follows them, and
  -- both sides agree on the index of the next frame. The entry states the number of the blocks, the
  -- size and the digest of the file; the laws of the packages, a valid header and a key of 32 bytes
  -- are assumed, and that the frame's indices fit and the global header is below 2 ^ 30 bytes.
  pub read-write_file :
      (frame_index : ℕ) (source rest : Bytes)
      → All IsByte source
      → entry.size ≡ length source
      → entry.count ≡ length (read_blocks (length source) header.chunk_size source)
      → entry.digest ≡ on.sha256 source
      → frame_index + length source < 2 ^ 64
      → (frames : Bytes) × (write_blocks on key global_header header entry_index frame_index
            (read_blocks (length source) header.chunk_size source)
          ≡ ok (frames, frame_index + entry.count))
        × (read_file on key global_header header entry_index entry frame_index (frames ++ rest)
            ≡ ok (source, (frame_index + entry.count, rest)))
  read-write_file frame_index source rest h sized counted digested small =
      let f =
        file_frames (length source) 0 frame_index source (omega arith) h (omega (arith, sized))
          small in
      (
        f.bytes,
        subst
            (λ n.
              write_blocks on key global_header header entry_index frame_index
                (read_blocks (length source) header.chunk_size source)
              ≡ ok (f.bytes, frame_index + n))
            (sym counted) f.writes,
        checked frame_index (f.bytes ++ rest) source rest
            (subst
              (λ n.
                read_blocks_of on key global_header header n entry_index entry 0 frame_index
                  (f.bytes ++ rest)
                ≡ ok (source, (frame_index + n, rest)))
              (sym counted) (f.reads rest))
            sized digested,
      )
