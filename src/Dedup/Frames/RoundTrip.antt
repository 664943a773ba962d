-- ===== src/Dedup/Frames/RoundTrip.antt =====
-- A frame, from `write_frame` to `read_frame`.
use mosaic_archive.Base.{
  ℕ, ◌+◌, ◌-◌, ◌%◌, ◌^◌, ◌≤◌, ◌<◌, ◌≡◌, refl, sym, ◌⊎◌, inl, inr, Bytes, length, length-append,
  ◌++◌, append_assoc, ok, ==_refl, le→ltb_false, take-append, drop-append, arith,
}
use mosaic_archive.Aead.{Aead, AeadLaws}
use mosaic_archive.Struct.Integers.{be, length-be}
use mosaic_archive.Padding.{pad_payload, padded_length}
use mosaic_archive.Padding.RoundTrip.{Padded, unpad-pad, padded_length_bounds}
use mosaic_archive.Format.DedupHeader.{Msc3Header}
use mosaic_archive.Format.DedupHeader.RoundTrip.{IsMsc3}
use mosaic_archive.Format.Frame.{FrameHeader}
use mosaic_archive.Format.Frame.Laws.{parse-pack_frame_header, frame_nonce-ok}
use mosaic_archive.Dedup.Frames.{read_exact, Metrics, maximum, write_frame, read_frame}

pub read_exact-append :
    (front rest : Bytes) (n : ℕ)
    → n ≡ length front
    → read_exact (front ++ rest) n ≡ ok (front, rest)
unfolding read_exact
read_exact-append front rest n e =
    rw (take-append n front rest e, drop-append n front rest e, e, ==_refl (length front)) refl

maximum_in_range : (frame_type : ℕ) (h : Msc3Header) → IsMsc3 h → maximum frame_type h < 2 ^ 29
maximum_in_range frame_type h valid =
    let a = valid.max_high in let b = valid.padding_high in ground arith

module _ (cipher : Aead) (laws : AeadLaws cipher) (urandom : ℕ → Bytes)
    (random : (n : ℕ) → length (urandom n) ≡ n) where
  -- What is known of a frame that was written.
  pub record Written (index frame_type : ℕ) (payload key global_header : Bytes) (h : Msc3Header)
      : Type 0 where
    pub frame : Bytes
    pub metrics : Metrics
    pub returns :
        write_frame cipher urandom index frame_type payload key global_header h
        ≡ ok (frame, metrics)
    pub payload_counted : metrics.payload_size ≡ length payload
    pub counts : metrics.padded_size ≡ 8 + metrics.payload_size + metrics.overhead
    pub reads :
        (rest : Bytes)
        → read_frame cipher (frame ++ rest) index frame_type key global_header h
          ≡ ok (payload, (metrics.padded_size, rest))

  -- Under a valid header, a key of 32 bytes and a global header of less than 2 ^ 30, a frame of
  -- either type whose padded payload keeps with the tag within the limit of its type is written,
  -- and `read_frame` with the same key, place and header gets the payload back from it and leaves
  -- the bytes behind it; the metrics hold the size of the payload and count every byte of the
  -- padded one.
  pub read-write_frame :
      (index frame_type : ℕ) (payload key global_header : Bytes) (h : Msc3Header)
      → IsMsc3 h
      → (frame_type ≡ 1) ⊎ (frame_type ≡ 2)
      → index < 2 ^ 64
      → padded_length (length payload) h.padding_size + 16 ≤ maximum frame_type h
      → length key ≡ 32
      → length global_header < 2 ^ 30
      → Written index frame_type payload key global_header h
  unfolding write_frame read_frame
  read-write_frame index frame_type payload key global_header h valid kind small room known short =
      let limit = maximum_in_range frame_type h valid in
      let padding : Padded payload h.padding_size (pad_payload urandom payload h.padding_size) =
        unpad-pad urandom payload h.padding_size random valid.padding_low valid.padding_high
          (omega (arith, limit)) in
      let size = length padding.padded in
      let bounds =
        padded_length_bounds (length payload) h.padding_size (omega (arith, valid.padding_low)) in
      let fits : size + 16 ≤ maximum frame_type h = omega (arith, bounds, padding.sized, room) in
      let header : FrameHeader = record {
        index = index;
        frame_type = frame_type;
        ciphertext_length = size + 16;
      } in
      let (bytes, packs, thirteen, parses) =
        parse-pack_frame_header header (record { frame_type = kind; ciphertext = omega arith })
          (
            omega arith,
            (
              elim kind [ inl e ↦ omega arith | inr e ↦ omega arith ],
              (omega (arith, fits, limit), tt),
            ),
          ) in
      let same_size : size + 16 - 16 ≡ size = omega arith in
      let policy : (size + 16 - 16) % h.padding_size ≡ 0 = rw same_size padding.whole in
      let nonce = h.nonce_prefix ++ be 8 index in
      let nonce_ok = frame_nonce-ok h.nonce_prefix index valid.nonce (omega arith) in
      let c =
        laws.seals key nonce padding.padded (global_header ++ bytes) known
          (omega (arith, length-append h.nonce_prefix (be 8 index), length-be 8 index, valid.nonce))
          (omega (arith, fits, limit))
          (omega (arith, length-append global_header bytes, thirteen, short)) in
      let sealed = c.sealed in
      record {
        frame = bytes ++ sealed;
        metrics = record {
          payload_size = length payload;
          padded_size = size;
          overhead = size - 8 - length payload;
        };
        returns = rw (padding.returns, packs, nonce_ok, c.encrypts) refl;
        payload_counted = refl;
        counts = omega (arith, bounds, padding.sized);
        reads = λ rest.
            rw
              (
                append_assoc bytes sealed rest,
                read_exact-append bytes (sealed ++ rest) 13 (sym thirteen),
                parses,
                ==_refl index,
                ==_refl frame_type,
                policy,
                le→ltb_false (size + 16) (maximum frame_type h) fits,
                read_exact-append sealed rest (size + 16) (sym c.sized),
                nonce_ok,
                c.opens,
                padding.unpads,
              )
              refl;
      }
