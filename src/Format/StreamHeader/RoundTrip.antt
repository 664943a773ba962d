-- ===== src/Format/StreamHeader/RoundTrip.antt =====
-- The MSC2 header: its validity and its parser.
use mosaic_archive.Base.{
  ℕ, ◌*◌, ◌^◌, ◌≤◌, ◌<◌, ◌≡◌, refl, ap, ◌∙◌, ◌↔◌, Bytes, IsByte, All, length, bytes_eq,
  bytes_eq_refl, bytes_eq→eq, ok, archive_format, arith,
}
use mosaic_archive.Struct.{Values}
use mosaic_archive.Struct.RoundTrip.{Fits}
use mosaic_archive.Format.Parse.{checked→, parse_with-pack, parse_with_iff}
use mosaic_archive.Format.StreamHeader.{
  from_values, magic, msc2_header, Msc2Header, header_values, pack_header, check_msc2_header,
  accept, parse_msc2_header,
}

-- The headers that this version of the program reads.
pub record IsMsc2 (h : Msc2Header) : Type 0 where
  pub version : h.version ≡ 2
  pub flags : h.flags ≡ 3
  pub kdf : h.kdf_id ≡ 1
  pub aead : h.aead_id ≡ 1
  pub chunk_positive : 1 ≤ h.chunk_size
  pub chunk_bounded : h.chunk_size ≤ 16 * 1024 * 1024
  pub padding_low : 256 ≤ h.padding_size
  pub padding_high : h.padding_size ≤ 16 * 1024 * 1024
  pub salt : length h.salt ≡ 16
  pub nonce : length h.nonce_prefix ≡ 4
  pub cost_low : 14 ≤ h.kdf_log_n
  pub cost_high : h.kdf_log_n ≤ 18
  pub r : h.kdf_r ≡ 8
  pub p : h.kdf_p ≡ 1
  pub count_positive : 1 ≤ h.frame_count
  pub count_bounded : h.frame_count ≤ 16777216

check→IsMsc2 : (h : Msc2Header) → check_msc2_header h ≡ ok tt → IsMsc2 h
unfolding check_msc2_header
check→IsMsc2 h e = record {
  version = ground arith;
  flags = ground arith;
  kdf = ground arith;
  aead = ground arith;
  chunk_positive = ground arith;
  chunk_bounded = ground arith;
  padding_low = ground arith;
  padding_high = ground arith;
  salt = ground arith;
  nonce = ground arith;
  cost_low = ground arith;
  cost_high = ground arith;
  r = ground arith;
  p = ground arith;
  count_positive = ground arith;
  count_bounded = ground arith;
}

IsMsc2→check : (h : Msc2Header) → IsMsc2 h → check_msc2_header h ≡ ok tt
unfolding check_msc2_header
IsMsc2→check h valid =
    let record {
      version = a;
      flags = b;
      kdf = c;
      aead = d;
      chunk_positive = e;
      chunk_bounded = f;
      padding_low = g;
      padding_high = i;
      salt = j;
      nonce = k;
      cost_low = l;
      cost_high = m;
      r = n;
      p = o;
      count_positive = q;
      count_bounded = t;
    } =
      valid in
    ground arith

msc2-Fits : (h : Msc2Header) → IsMsc2 h → Fits msc2_header (header_values h)
msc2-Fits h v =
    let byte : (n : ℕ) → n < 256 → n < 256 ^ 1 = λ n lt. omega arith in
    let word : (n : ℕ) → n ≤ 16 * 1024 * 1024 → n < 256 ^ 4 = λ n le. omega arith in
    (
      refl,
      (
        byte h.version (omega (arith, v.version)),
        (
          byte h.flags (omega (arith, v.flags)),
          (
            byte h.kdf_id (omega (arith, v.kdf)),
            (
              byte h.aead_id (omega (arith, v.aead)),
              (
                word h.chunk_size v.chunk_bounded,
                (
                  word h.padding_size v.padding_high,
                  (
                    v.salt,
                    (
                      v.nonce,
                      (
                        byte h.kdf_log_n (omega (arith, v.cost_high)),
                        (
                          byte h.kdf_r (omega (arith, v.r)),
                          (byte h.kdf_p (omega (arith, v.p)), (omega (arith, v.count_bounded), tt)),
                        ),
                      ),
                    ),
                  ),
                ),
              ),
            ),
          ),
        ),
      ),
    )

accept_iff :
    (v : Values msc2_header) (h : Msc2Header)
    → (accept v ≡ ok h) ↔ ((v ≡ header_values h) × IsMsc2 h)
unfolding accept
accept_iff (found, fields) h = (onward, back)
  where
    onward : accept (found, fields) ≡ ok h → ((found, fields) ≡ header_values h) × IsMsc2 h
    onward e =
        let (magic_found, validated, same) =
          checked→ (bytes_eq found magic) archive_format (check_msc2_header (from_values fields))
            (from_values fields) h e in
        (
          ap (λ m. (m, fields)) (bytes_eq→eq found magic magic_found) ∙ ap header_values same,
          rw (← same) (check→IsMsc2 (from_values fields) validated),
        )

    back : ((found, fields) ≡ header_values h) × IsMsc2 h → accept (found, fields) ≡ ok h
    back (same, valid) =
        let found_magic : found ≡ magic = ap (λ v. v.0) same in
        let fields_same : fields ≡ (header_values h).1 = ap (λ v. v.1) same in
        rw (found_magic, fields_same, bytes_eq_refl magic, IsMsc2→check h valid) refl

-- Bytes are parsed to an MSC2 header exactly where the header is valid, its numbers fit their
-- fields, and the bytes are what `pack` writes for it: no other bytes stand for it.
pub parse_msc2_header_iff :
    (buf : Bytes) (h : Msc2Header)
    → All IsByte buf
    → (parse_msc2_header buf ≡ ok h)
      ↔ (IsMsc2 h × Fits msc2_header (header_values h) × (pack_header h ≡ ok buf))
unfolding parse_msc2_header
parse_msc2_header_iff buf h bytes =
    parse_with_iff msc2_header header_values IsMsc2 accept accept_iff buf h bytes

-- A valid MSC2 header is packed in 47 bytes, which are parsed to it.
pub parse-pack_msc2_header :
    (h : Msc2Header)
    → IsMsc2 h
    → (buf : Bytes) × (pack_header h ≡ ok buf) × (length buf ≡ 47) × (parse_msc2_header buf ≡ ok h)
unfolding parse_msc2_header
parse-pack_msc2_header h valid =
    parse_with-pack msc2_header header_values IsMsc2 accept accept_iff h valid (msc2-Fits h valid)
