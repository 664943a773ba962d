-- ===== src/Solid/Frames/Frame.antt =====
-- One frame of a solid lane: what is emitted, and that it is read back.
use mosaic_archive.Base.{
  ℕ, ◌+◌, ◌-◌, ◌*◌, ◌%◌, ◌^◌, ◌≤◌, ◌<◌, ◌≡◌, refl, sym, max, ◌⊎◌, inl, inr, Bytes, Bool, true,
  false, not, ◌&&◌, ◌||◌, length, length-append, ◌++◌, append_assoc, ltb, ◌==◌, ok, ==_refl,
  le→ltb_false, arith,
}
use native.Mathlib.Nat.{le-div_iff_mul-le, div-mul-le_self, mul-le-mul_right}
use mosaic_archive.Aead.{Aead, AeadLaws}
use mosaic_archive.Struct.{size}
use mosaic_archive.Struct.Integers.{be, length-be}
use mosaic_archive.Struct.RoundTrip.{pack_total, unpack-sized}
use mosaic_archive.Padding.{pad_payload, padded_length}
use mosaic_archive.Padding.RoundTrip.{Padded, unpad-pad, padded_length_bounds}
use mosaic_archive.Format.Frame.Laws.{frame_nonce-ok}
use mosaic_archive.Dedup.Frames.RoundTrip.{read_exact-append}
use mosaic_archive.Solid.FramedSize.{frame_size}
use mosaic_archive.Solid.Frames.{
  frame_header, Lane, flags_of, Writer, emit, read_frame, maximum_padded,
}

-- The arguments that the code admits: those that `_validate_options` lets pass, a key of 32 bytes,
-- and associated data that the cipher takes.
pub record IsLane (o : Lane) : Type 0 where
  pub key : length o.key ≡ 32
  pub extra : length o.associated_data < 2 ^ 30
  pub lane : o.lane ≤ 2
  pub nonce : length o.nonce_prefix ≡ 4
  pub payload_low : 1024 ≤ o.frame_payload_size
  pub payload_high : o.frame_payload_size ≤ 16 * 1024 * 1024
  pub padding_low : 256 ≤ o.padding_size
  pub padding_high : o.padding_size ≤ o.frame_payload_size

padded_length_mono : (m n b : ℕ) → 0 < b → m ≤ n → padded_length m b ≤ padded_length n b
padded_length_mono m n b pos h =
    mul-le-mul_right b
      ((le-div_iff_mul-le pos).1 (omega (arith, div-mul-le_self (8 + m + b - 1) b)))

module _ (cipher : Aead) (laws : AeadLaws cipher) (urandom : ℕ → Bytes)
    (random : (n : ℕ) → length (urandom n) ≡ n) (o : Lane) (valid : IsLane o) where
  -- What is known of a frame that was emitted.
  pub record Emitted (s : Writer) (payload : Bytes) (final : Bool) : Type 0 where
    pub frame : Bytes
    pub next : Writer
    pub runs : emit cipher urandom o s payload final ≡ ok next
    pub written : next.destination ≡ s.destination ++ frame
    pub counted : next.index ≡ s.index + 1
    pub sized : length frame ≡ frame_size o.padding_size (length payload)
    pub reads :
        (rest : Bytes) → read_frame cipher o s.index final (frame ++ rest) ≡ ok (payload, rest)

  -- A payload that fits a frame, and fills it if the frame is not the last.
  abbrev pub IsPayload : Bytes → Bool → Type 0
  IsPayload payload final =
      (length payload ≤ o.frame_payload_size)
      × ((final ≡ true) ⊎ (length payload ≡ o.frame_payload_size))

  full_test :
      (payload : Bytes) (final : Bool)
      → IsPayload payload final
      → (ltb o.frame_payload_size (length payload)
          || (not final && not (length payload == o.frame_payload_size)))
        ≡ false
  full_test payload final (fits, kind) = elim kind [ inl e ↦ ground arith | inr e ↦ ground arith ]

  small_flags : (final : Bool) → flags_of final < 256
  small_flags true = omega arith
  small_flags false = omega arith

  pub emitted :
      (s : Writer) (payload : Bytes) (final : Bool)
      → s.index < 2 ^ 32
      → IsPayload payload final
      → Emitted s payload final
  unfolding emit read_frame
  emitted s payload final small fit =
      let fits = fit.0 in
      let b = o.padding_size in
      let low = valid.padding_low in
      let high : b ≤ 16 * 1024 * 1024 = omega (arith, valid.padding_high, valid.payload_high) in
      let padding : Padded payload b (pad_payload urandom payload b) =
        unpad-pad urandom payload b random low high (omega (arith, fits, valid.payload_high)) in
      let n = length padding.padded in
      let bounds = padded_length_bounds (length payload) b (omega (arith, low)) in
      let below : n + 16 ≤ maximum_padded cipher o + 16 = omega (
        arith,
        padding.sized,
        padded_length_mono (length payload) o.frame_payload_size b (omega (arith, low)) fits,
      ) in
      let bounded : n + 16 < 2 ^ 26 =
        omega (arith, bounds, padding.sized, fits, high, valid.payload_high) in
      let header =
        pack_total frame_header (s.index, (o.lane, (flags_of final, (n + 16, tt))))
          (
            omega arith,
            (omega (arith, valid.lane), (small_flags final, (omega (arith, bounded), tt))),
          ) in
      let nonce_ok = frame_nonce-ok o.nonce_prefix s.index valid.nonce (omega arith) in
      let c =
        laws.seals o.key (o.nonce_prefix ++ be 8 s.index) padding.padded
          (o.associated_data ++ header.bytes) valid.key
          (omega
            (arith, length-append o.nonce_prefix (be 8 s.index), length-be 8 s.index, valid.nonce))
          (omega (arith, bounded))
          (omega
            (arith, length-append o.associated_data header.bytes, header.sized, valid.extra)) in
      let same_size : n + 16 - 16 ≡ n = omega arith in
      let policy : (n + 16 - 16) % b ≡ 0 = rw same_size padding.whole in
      record {
        frame = header.bytes ++ c.sealed;
        next = record {
          destination = s.destination ++ (header.bytes ++ c.sealed);
          index = s.index + 1;
          padded_size = s.padded_size + n;
          maximum = max s.maximum (length payload);
        };
        runs =
            rw
              (
                le→ltb_false s.index 4294967295 (omega arith),
                padding.returns,
                header.packs,
                nonce_ok,
                c.encrypts,
              )
              refl;
        written = refl;
        counted = refl;
        sized =
            omega
              (arith, length-append header.bytes c.sealed, header.sized, c.sized, padding.sized);
        reads = λ rest. rw (
          append_assoc header.bytes c.sealed rest,
          read_exact-append header.bytes (c.sealed ++ rest) (size frame_header) (sym header.sized),
          unpack-sized frame_header header.bytes header.sized,
          header.reads,
          ==_refl s.index,
          ==_refl o.lane,
          ==_refl (flags_of final),
          le→ltb_false 16 (n + 16) (omega arith),
          le→ltb_false (n + 16) (maximum_padded cipher o + 16) below,
          policy,
          read_exact-append c.sealed rest (n + 16) (sym c.sized),
          nonce_ok,
          c.opens,
          padding.unpads,
          full_test payload final fit,
        );
      }
