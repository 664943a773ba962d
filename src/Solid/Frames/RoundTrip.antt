-- ===== src/Solid/Frames/RoundTrip.antt =====
-- The frames of a solid lane: their size is the one foretold, and they are read back.
use native.Mathlib.Nat.{div-eq-sub-div}
use mosaic_archive.Base.{
  ℕ, zero, suc, ◌+◌, ◌-◌, ◌*◌, ◌/◌, ◌^◌, ◌≤◌, ◌<◌, ◌≡◌, refl, sym, ap, ◌∙◌, min, [], ◌∷◌, ◌++◌,
  append_assoc, append-nil, Bytes, Bool, true, false, length, length-append, length-take,
  length-drop, take, drop, take_all, take-append-drop, ltb, ◌==◌, ◌||◌, ==_refl, ne→==_false,
  le→leb, le→ltb_false, ltb→lt, ltb_false→le, Bool-cases, inl, inr, ok, arith,
}
use mosaic_archive.Base.Int.{pos}
use mosaic_archive.Aead.{Aead, AeadLaws}
use mosaic_archive.Archive.Blocks.{no_bytes}
use mosaic_archive.Solid.FramedSize.{frame_size, solid_lane_framed_size}
use mosaic_archive.Solid.FramedSize.Pieces.{framed, framed_size-framed, framed_one, framed_more}
use mosaic_archive.Solid.Frames.{
  Lane, validate_options, Writer, WriteStats, emit, write_loop,
  write_precompressed_solid_lane_frames, read_frame, read_loop, read_solid_lane_frames,
}
use mosaic_archive.Solid.Frames.Frame.{IsLane, Emitted, emitted}

module _ (cipher : Aead) (urandom : ℕ → Bytes) (o : Lane) where
  -- A round of the writer, from what it takes and leaves.
  write_step :
      (fuel remaining left : ℕ) (source payload rest : Bytes) (final : Bool) (s next : Writer)
      → min o.frame_payload_size (suc remaining) ≡ length payload
      → take (length payload) source ≡ payload
      → drop (length payload) source ≡ rest
      → suc remaining - length payload ≡ left
      → (left == 0) ≡ final
      → emit cipher urandom o s payload final ≡ ok next
      → write_loop cipher urandom o (suc fuel) (suc remaining) source s
        ≡ write_loop cipher urandom o fuel left rest next
  unfolding write_loop
  write_step fuel remaining left source payload rest final s next n taken dropped less last runs =
      rw (n, taken, dropped, ==_refl (length payload), less, last, runs) refl

  read_step :
      (frames index remaining : ℕ) (stream payload rest bytes left : Bytes) (final : Bool)
      → (frames == 0) ≡ final
      → read_frame cipher o index final stream ≡ ok (payload, rest)
      → length payload ≤ remaining
      → read_loop cipher o frames (index + 1) (remaining - length payload) rest ≡ ok (bytes, left)
      → read_loop cipher o (suc frames) index remaining stream ≡ ok (payload ++ bytes, left)
  unfolding read_loop
  read_step frames index remaining stream payload rest bytes left final last reads fits more =
      rw (last, reads, le→ltb_false (length payload) remaining fits, more) refl

module _ (cipher : Aead) (laws : AeadLaws cipher) (urandom : ℕ → Bytes)
    (random : (n : ℕ) → length (urandom n) ≡ n) (o : Lane) (valid : IsLane o) where
  -- The frames of a source from the writer's state on.
  record Framed (fuel : ℕ) (source : Bytes) (s : Writer) : Type 0 where
    count : ℕ
    some_frames : 1 ≤ count
    last : Writer
    bytes : Bytes
    runs : write_loop cipher urandom o fuel (length source) source s ≡ ok (last, [])
    written : last.destination ≡ s.destination ++ bytes
    counted : last.index ≡ s.index + count
    sized : length bytes ≡ framed o.frame_payload_size o.padding_size (length source)
    reads :
        (rest : Bytes)
        → read_loop cipher o count s.index (length source) (bytes ++ rest) ≡ ok (source, rest)

  one_frame :
      (fuel b : ℕ) (bs : Bytes) (s : Writer)
      → suc (length bs) ≤ o.frame_payload_size
      → s.index < 2 ^ 32
      → Framed (suc fuel) (b ∷ bs) s
  unfolding write_loop read_loop
  one_frame fuel b bs s fits small =
      let source = b ∷ bs in
      let e : Emitted cipher laws urandom random o valid s source true =
        emitted cipher laws urandom random o valid s source true small (fits, inl refl) in
      record {
        count = 1;
        some_frames = omega arith;
        last = e.next;
        bytes = e.frame;
        runs =
            write_step cipher urandom o fuel (length bs) 0 source source [] true s e.next
              (omega (arith, fits)) (take_all (length source) source (omega arith))
              (no_bytes _ (omega (arith, length-drop (length source) source))) (omega arith) refl
              e.runs
            ∙ refl;
        written = e.written;
        counted = e.counted;
        sized =
            e.sized
            ∙ sym
                (framed_one (length source) o.frame_payload_size o.padding_size (omega arith) fits);
        reads = λ rest.
            read_step cipher urandom o 0 s.index (length source) (e.frame ++ rest) source rest []
              rest true refl (e.reads rest) (omega arith) refl
            ∙ ap (λ x. ok (x, rest)) (append-nil source);
      }

  more_frames :
      (fuel b : ℕ) (bs : Bytes) (s : Writer)
      → o.frame_payload_size < suc (length bs)
      → s.index < 2 ^ 32
      → ((next : Writer)
          → next.index ≡ s.index + 1
          → Framed fuel (drop o.frame_payload_size (b ∷ bs)) next)
      → Framed (suc fuel) (b ∷ bs) s
  more_frames fuel b bs s longer small more =
      let source = b ∷ bs in
      let f = o.frame_payload_size in
      let p = o.padding_size in
      let payload = take f source in
      let rest_of = drop f source in
      let full : length payload ≡ f = omega (arith, length-take f source, longer) in
      let left : length rest_of ≡ suc (length bs) - f = length-drop f source in
      let e : Emitted cipher laws urandom random o valid s payload false =
        emitted cipher laws urandom random o valid s payload false small
          (omega (arith, full), inr full) in
      let m = more e.next e.counted in
      let same : suc (length bs) - length payload ≡ length rest_of = omega (arith, full, left) in
      record {
        count = suc m.count;
        some_frames = omega arith;
        last = m.last;
        bytes = e.frame ++ m.bytes;
        runs =
            write_step cipher urandom o fuel (length bs) (length rest_of) source payload rest_of
              false s e.next (omega (arith, full, longer)) (ap (λ n. take n source) full)
              (ap (λ n. drop n source) full) (omega (arith, full, left))
              (ne→==_false (length rest_of) 0 (λ z. omega (arith, z, left, longer))) e.runs
            ∙ m.runs;
        written = rw (m.written, e.written) (append_assoc s.destination e.frame m.bytes);
        counted = omega (arith, m.counted, e.counted);
        sized = omega (
          arith,
          length-append e.frame m.bytes,
          e.sized ∙ ap (frame_size p) full,
          m.sized ∙ ap (framed f p) left,
          framed_more (length source) f p (omega (arith, valid.payload_low))
              (omega (arith, longer)),
        );
        reads = λ rest. rw (append_assoc e.frame m.bytes rest) (
            read_step cipher urandom o m.count s.index (length source)
              (e.frame ++ (m.bytes ++ rest)) payload (m.bytes ++ rest) rest_of rest false
              (ne→==_false m.count 0 (λ z. omega (arith, z, m.some_frames)))
              (e.reads (m.bytes ++ rest)) (omega (arith, full, longer))
              (ap (λ n. read_loop cipher o m.count (s.index + 1) n (m.bytes ++ rest)) same
                ∙ sym (
                    ap (λ i. read_loop cipher o m.count i (length rest_of) (m.bytes ++ rest))
                      e.counted)
                ∙ m.reads rest)
            ∙ ap (λ x. ok (x, rest)) (take-append-drop f source));
      }

  frames_of :
      (fuel : ℕ) (source : Bytes) (s : Writer)
      → 1 ≤ length source
      → length source ≤ fuel
      → s.index + length source / o.frame_payload_size < 2 ^ 32
      → Framed fuel source s
  frames_of fuel [] s some_bytes le small = absurd (omega (arith, some_bytes))
  frames_of zero (b ∷ bs) s some_bytes le small = absurd (omega (arith, le))
  frames_of (suc fuel) (b ∷ bs) s some_bytes le small =
      let f = o.frame_payload_size in
      elim (Bool-cases (ltb f (suc (length bs)))) [
        | inl longer ↦
            let lt : f < suc (length bs) = ltb→lt f (suc (length bs)) longer in
            let left = length-drop f (b ∷ bs) in
            let fewer : length (b ∷ bs) / f ≡ length (drop f (b ∷ bs)) / f + 1 =
              div-eq-sub-div (omega (arith, valid.payload_low)) (omega (arith, lt))
              ∙ ap (λ n. n / f + 1) (sym left) in
            more_frames fuel b bs s lt (omega (arith, small)) (λ next e.
              frames_of fuel (drop f (b ∷ bs)) next (omega (arith, left, lt))
                (omega (arith, left, le, valid.payload_low)) (omega (arith, e, fewer, small)))
        | inr fits ↦
            one_frame fuel b bs s (ltb_false→le f (suc (length bs)) fits) (omega (arith, small))
      ]

  options_pass : validate_options o ≡ ok tt
  unfolding validate_options
  options_pass =
      let high = valid.payload_high in
      rw (
        lane_known o.lane valid.lane,
        valid.nonce,
        le→leb 1024 o.frame_payload_size valid.payload_low,
        le→leb o.frame_payload_size (16 * 1024 * 1024) high,
        le→leb 256 o.padding_size valid.padding_low,
        le→leb o.padding_size o.frame_payload_size valid.padding_high,
      )
    where
      lane_known : (lane : ℕ) → lane ≤ 2 → (lane == 0 || lane == 1 || lane == 2) ≡ true
      lane_known lane h = ground arith

  -- What is known of a lane that was written.
  pub record LaneWritten (source : Bytes) (start_index : ℕ) : Type 0 where
    pub stream : Bytes
    pub stats : WriteStats
    pub returns :
        write_precompressed_solid_lane_frames cipher urandom o source (length source) start_index
        ≡ ok (stream, stats)
    pub foretold :
        solid_lane_framed_size (pos (length source)) o.frame_payload_size o.padding_size
        ≡ ok (length stream)
    pub next : stats.next_index ≡ start_index + stats.frame_count
    pub reads :
        (rest : Bytes)
        → read_solid_lane_frames cipher o
            (stream ++ rest)
            start_index
            stats.frame_count
            (length source)
          ≡ ok (source, rest)

  -- A compressed lane that is not empty is written as frames, under options that the code admits
  -- and from a first index that leaves room for one frame for each full payload. Their bytes are as
  -- many as `solid_lane_framed_size` foretells, the count of frames leads from the first index to
  -- the next one, and the reader, which passes the lane through, gets the lane back from as many
  -- frames and leaves the bytes behind them.
  pub read-write_solid_lane :
      (source : Bytes) (start_index : ℕ)
      → 1 ≤ length source
      → start_index + length source / o.frame_payload_size < 2 ^ 32
      → LaneWritten source start_index
  unfolding write_precompressed_solid_lane_frames read_solid_lane_frames
  read-write_solid_lane source start_index some_bytes small =
      let w =
        frames_of (length source) source
          (record { destination = []; index = start_index; padded_size = 0; maximum = 0 })
          some_bytes (omega arith) small in
      let count : (w.last).index - start_index ≡ w.count = omega (arith, w.counted) in
      record {
        stream = (w.last).destination;
        stats = record {
          frame_count = (w.last).index - start_index;
          next_index = (w.last).index;
          compressed_size = length source;
          padded_size = (w.last).padded_size;
          max_frame_payload = (w.last).maximum;
        };
        returns =
            rw
              (
                options_pass,
                le→ltb_false start_index 4294967295 (omega (arith, small)),
                ne→==_false (length source) 0 (λ e. omega (arith, e, some_bytes)),
                w.runs,
              )
              refl;
        foretold =
            framed_size-framed (length source) o.frame_payload_size o.padding_size some_bytes
              valid.payload_low valid.payload_high valid.padding_low valid.padding_high
            ∙ ap ok (sym w.sized ∙ ap length (sym w.written));
        next = omega (arith, w.counted);
        reads = λ rest.
            rw
              (
                w.written,
                count,
                options_pass,
                ne→==_false w.count 0 (λ e. omega (arith, e, w.some_frames)),
                w.reads rest,
                ==_refl (length source),
              )
              refl;
      }
