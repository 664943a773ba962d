-- ===== src/Format/PublicHeader/RoundTrip.antt =====
-- The MSC1 header: its validity and its parser.
use mosaic_archive.Base.{
  ℕ, ◌*◌, ◌^◌, ◌≤◌, ◌<◌, ◌≡◌, refl, ap, ◌∙◌, ◌↔◌, Bytes, IsByte, All, length, bytes_eq,
  bytes_eq_refl, bytes_eq→eq, ok, archive_format, arith,
}
use mosaic_archive.Struct.{Values}
use mosaic_archive.Struct.RoundTrip.{Fits}
use mosaic_archive.Format.Parse.{checked→, parse_with-pack, parse_with_iff}
use mosaic_archive.Format.PublicHeader.{
  from_values, magic, public_header, PublicHeader, header_values, pack_header,
  validate_public_header, accept, parse_public_header,
}

-- The headers that this version of the program reads.
pub record IsValid (h : PublicHeader) : Type 0 where
  pub version : h.version ≡ 1
  pub flags : h.flags ≡ 1
  pub kdf : h.kdf_id ≡ 1
  pub aead : h.aead_id ≡ 1
  pub chunk_positive : 1 ≤ h.chunk_size
  pub chunk_bounded : h.chunk_size ≤ 16 * 1024 * 1024
  pub padding_low : 256 ≤ h.padding_size
  pub padding_high : h.padding_size ≤ 16 * 1024 * 1024
  pub salt : length h.salt ≡ 16
  pub nonce : length h.nonce ≡ 12
  pub cost_low : 14 ≤ h.kdf_log_n
  pub cost_high : h.kdf_log_n ≤ 18
  pub r : h.kdf_r ≡ 8
  pub p : h.kdf_p ≡ 1
  pub ciphertext : 16 ≤ h.ciphertext_length

validate→IsValid : (h : PublicHeader) → validate_public_header h ≡ ok tt → IsValid h
unfolding validate_public_header
validate→IsValid h e = record {
  version = ground arith;
  flags = ground arith;
  kdf = ground arith;
  aead = ground arith;
  chunk_positive = ground arith;
  chunk_bounded = ground arith;
  padding_low = ground arith;
  padding_high = ground arith;
  salt = ground arith;
  nonce = ground arith;
  cost_low = ground arith;
  cost_high = ground arith;
  r = ground arith;
  p = ground arith;
  ciphertext = ground arith;
}

IsValid→validate : (h : PublicHeader) → IsValid h → validate_public_header h ≡ ok tt
unfolding validate_public_header
IsValid→validate h valid =
    let record {
      version = a;
      flags = b;
      kdf = c;
      aead = d;
      chunk_positive = e;
      chunk_bounded = f;
      padding_low = g;
      padding_high = i;
      salt = j;
      nonce = k;
      cost_low = l;
      cost_high = m;
      r = n;
      p = o;
      ciphertext = q;
    } =
      valid in
    ground arith

valid-Fits :
    (h : PublicHeader)
    → IsValid h
    → h.ciphertext_length < 2 ^ 64
    → Fits public_header (header_values h)
valid-Fits h v small =
    let byte : (n : ℕ) → n < 256 → n < 256 ^ 1 = λ n lt. omega arith in
    let word : (n : ℕ) → n ≤ 16 * 1024 * 1024 → n < 256 ^ 4 = λ n le. omega arith in
    (
      refl,
      (
        byte h.version (omega (arith, v.version)),
        (
          byte h.flags (omega (arith, v.flags)),
          (
            byte h.kdf_id (omega (arith, v.kdf)),
            (
              byte h.aead_id (omega (arith, v.aead)),
              (
                word h.chunk_size v.chunk_bounded,
                (
                  word h.padding_size v.padding_high,
                  (
                    v.salt,
                    (
                      v.nonce,
                      (
                        byte h.kdf_log_n (omega (arith, v.cost_high)),
                        (
                          byte h.kdf_r (omega (arith, v.r)),
                          (byte h.kdf_p (omega (arith, v.p)), (omega (arith, small), tt)),
                        ),
                      ),
                    ),
                  ),
                ),
              ),
            ),
          ),
        ),
      ),
    )

accept_iff :
    (v : Values public_header) (h : PublicHeader)
    → (accept v ≡ ok h) ↔ ((v ≡ header_values h) × IsValid h)
unfolding accept
accept_iff (found, fields) h = (onward, back)
  where
    onward : accept (found, fields) ≡ ok h → ((found, fields) ≡ header_values h) × IsValid h
    onward e =
        let (magic_found, validated, same) =
          checked→ (bytes_eq found magic) archive_format
            (validate_public_header (from_values fields)) (from_values fields) h e in
        (
          ap (λ m. (m, fields)) (bytes_eq→eq found magic magic_found) ∙ ap header_values same,
          rw (← same) (validate→IsValid (from_values fields) validated),
        )

    back : ((found, fields) ≡ header_values h) × IsValid h → accept (found, fields) ≡ ok h
    back (same, valid) =
        let found_magic : found ≡ magic = ap (λ v. v.0) same in
        let fields_same : fields ≡ (header_values h).1 = ap (λ v. v.1) same in
        rw (found_magic, fields_same, bytes_eq_refl magic, IsValid→validate h valid) refl

-- Bytes are parsed to a header exactly where the header is valid, its numbers fit their fields, and
-- the bytes are what `pack` writes for it: no other bytes stand for it.
pub parse_public_header_iff :
    (buf : Bytes) (h : PublicHeader)
    → All IsByte buf
    → (parse_public_header buf ≡ ok h)
      ↔ (IsValid h × Fits public_header (header_values h) × (pack_header h ≡ ok buf))
unfolding parse_public_header
parse_public_header_iff buf h bytes =
    parse_with_iff public_header header_values IsValid accept accept_iff buf h bytes

-- A valid header with a ciphertext shorter than 2 ^ 64 bytes is packed in 55 bytes, which are parsed
-- to it.
pub parse-pack_public_header :
    (h : PublicHeader)
    → IsValid h
    → h.ciphertext_length < 2 ^ 64
    → (buf : Bytes) × (pack_header h ≡ ok buf)
      × (length buf ≡ 55)
      × (parse_public_header buf ≡ ok h)
unfolding parse_public_header
parse-pack_public_header h valid small =
    parse_with-pack public_header header_values IsValid accept accept_iff h valid
      (valid-Fits h valid small)
