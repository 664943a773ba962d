-- ===== src/Format/Frame/Laws.antt =====
-- Frame headers and nonces: the parser, and what a nonce consists of.
use mosaic_archive.Base.{
  refl, lt→ltb, ℕ, ◌^◌, ◌≤◌, ◌<◌, ◌≡◌, ap, sym, ◌∙◌, ◌↔◌, ◌⊎◌, ◌||◌, not, Bytes, IsByte, All,
  length, length-append, ◌==◌, ltb, ◌++◌, take-append, drop-append, ok, arith, archive_format,
  value_error, overflow_error, ok-inj, raise_if-eq-ok, >>=-eq-ok, ltb→lt, inl, inr,
}
use mosaic_archive.Struct.{Values}
use mosaic_archive.Struct.Integers.{be, length-be, from_be-be}
use mosaic_archive.Struct.RoundTrip.{Fits}
use mosaic_archive.Format.Parse.{parse_with_iff, parse_with-pack}
use mosaic_archive.Format.Frame.{
  frame_header, FrameHeader, header_values, pack_frame_header, accept, parse_frame_header,
  frame_nonce, to_bytes,
}

-- The frames that a reader takes: of a known type, with room for the tag of the cipher.
pub record IsFrame (h : FrameHeader) : Type 0 where
  pub frame_type : (h.frame_type ≡ 1) ⊎ (h.frame_type ≡ 2)
  pub ciphertext : 16 ≤ h.ciphertext_length

accept_iff :
    (v : Values frame_header) (h : FrameHeader)
    → (accept v ≡ ok h) ↔ ((v ≡ header_values h) × IsFrame h)
unfolding accept
accept_iff (index, (frame_type, (ciphertext_length, _))) h = (onward, back)
  where
    onward :
        accept (index, (frame_type, (ciphertext_length, tt))) ≡ ok h
        → ((index, (frame_type, (ciphertext_length, tt))) ≡ header_values h) × IsFrame h
    onward e =
        let (known, after) =
          raise_if-eq-ok (not (frame_type == 1 || frame_type == 2)) archive_format _ e in
        let (long, last) = raise_if-eq-ok (ltb ciphertext_length 16) archive_format _ after in
        (
          ap header_values (ok-inj last),
          rw (← ok-inj last) record { frame_type = ground arith; ciphertext = ground arith },
        )

    back :
        ((index, (frame_type, (ciphertext_length, tt))) ≡ header_values h) × IsFrame h
        → accept (index, (frame_type, (ciphertext_length, tt))) ≡ ok h
    back (same, valid) =
        let i : index ≡ h.index = ap (λ v. v.0) same in
        let t : frame_type ≡ h.frame_type = ap (λ v. v.1.0) same in
        let c : ciphertext_length ≡ h.ciphertext_length = ap (λ v. v.1.1.0) same in
        let long = valid.ciphertext in
        rw (i, t, c) (elim valid.frame_type [ inl one ↦ ground arith | inr two ↦ ground arith ])

-- Bytes are parsed to the header of a frame exactly where its type is known, its ciphertext holds a
-- tag, its numbers fit their fields, and the bytes are what `pack` writes for it.
pub parse_frame_header_iff :
    (buf : Bytes) (h : FrameHeader)
    → All IsByte buf
    → (parse_frame_header buf ≡ ok h)
      ↔ (IsFrame h × Fits frame_header (header_values h) × (pack_frame_header h ≡ ok buf))
unfolding parse_frame_header
parse_frame_header_iff buf h bytes =
    parse_with_iff frame_header header_values IsFrame accept accept_iff buf h bytes

-- What `frame_nonce` returns has twelve bytes, the prefix and the index in eight.
frame_nonce_lem :
    (prefix : Bytes) (index : ℕ) {nonce : Bytes}
    → frame_nonce prefix index ≡ ok nonce
    → (length prefix ≡ 4) × (index < 256 ^ 8) × (nonce ≡ prefix ++ be 8 index)
unfolding frame_nonce
frame_nonce_lem prefix index e =
    let (sized, after) = raise_if-eq-ok (not (length prefix == 4)) value_error _ e in
    let (counter, returned, last) = >>=-eq-ok (to_bytes index) _ after in
    let (small, bytes) = raise_if-eq-ok (not (ltb index (256 ^ 8))) overflow_error _ returned in
    (
      ground arith,
      ltb→lt index (256 ^ 8) (ground arith),
      sym (ok-inj last) ∙ ap (λ c. prefix ++ c) (sym (ok-inj bytes)),
    )

-- Two frames whose nonces agree have the same prefix and the same index: a nonce is used for one
-- frame of an archive only.
pub frame_nonce_inj :
    (prefix prefix' : Bytes) (index index' : ℕ) {nonce : Bytes}
    → frame_nonce prefix index ≡ ok nonce
    → frame_nonce prefix' index' ≡ ok nonce
    → (length nonce ≡ 12) × (prefix ≡ prefix') × (index ≡ index')
frame_nonce_inj prefix prefix' index index' {nonce} e e' =
    let (sized, small, written) = frame_nonce_lem prefix index e in
    let (sized', small', written') = frame_nonce_lem prefix' index' e' in
    let same : prefix ++ be 8 index ≡ prefix' ++ be 8 index' = sym written ∙ written' in
    (
      rw written (omega (arith, length-append prefix (be 8 index), length-be 8 index, sized)),
      sym (take-append 4 prefix (be 8 index) (sym sized))
          ∙ (rw same (take-append 4 prefix' (be 8 index') (sym sized'))),
      sym (from_be-be 8 index small)
          ∙ (rw
              (
                ← drop-append 4 prefix (be 8 index) (sym sized),
                same,
                drop-append 4 prefix' (be 8 index') (sym sized'),
              )
              (from_be-be 8 index' small')),
    )

-- A frame's header is packed in 13 bytes, which are parsed to it.
pub parse-pack_frame_header :
    (h : FrameHeader)
    → IsFrame h
    → Fits frame_header (header_values h)
    → (buf : Bytes) × (pack_frame_header h ≡ ok buf)
      × (length buf ≡ 13)
      × (parse_frame_header buf ≡ ok h)
unfolding parse_frame_header
parse-pack_frame_header h valid fits =
    parse_with-pack frame_header header_values IsFrame accept accept_iff h valid fits

pub frame_nonce-ok :
    (prefix : Bytes) (index : ℕ)
    → length prefix ≡ 4
    → index < 256 ^ 8
    → frame_nonce prefix index ≡ ok (prefix ++ be 8 index)
unfolding frame_nonce
frame_nonce-ok prefix index sized small = rw (sized, lt→ltb index (256 ^ 8) small) refl
