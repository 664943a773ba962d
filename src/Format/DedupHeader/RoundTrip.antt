-- ===== src/Format/DedupHeader/RoundTrip.antt =====
-- The MSC3 to MSC6 header: its validity and its parser.
use Prim.Native.Nat.{bit_and}
use mosaic_archive.Base.{
  ℕ, ◌-◌, ◌*◌, ◌^◌, ◌≤◌, ◌<◌, ◌≡◌, refl, ap, sym, ◌∙◌, ◌↔◌, Bytes, IsByte, All, length, bytes_eq,
  bytes_eq→eq, ok, archive_format, arith, true, inl, inr, Bool-cases,
}
use mosaic_archive.Struct.{Values}
use mosaic_archive.Struct.RoundTrip.{Fits}
use mosaic_archive.Format.Parse.{checked→, parse_with-pack, parse_with_iff}
use mosaic_archive.Format.DedupHeader.{
  msc3_magic, msc4_magic, msc5_magic, msc6_magic, msc3_header, Msc3Header, header_values,
  pack_header, check_msc3_header, accept, parse_msc3_header, from_values, magic_of, is_known_magic,
  expected_version,
}

-- The headers that this version of the program reads.
pub record IsMsc3 (h : Msc3Header) : Type 0 where
  pub version_low : 3 ≤ h.version
  pub version_high : h.version ≤ 6
  pub flags : h.flags ≡ 7
  pub kdf : h.kdf_id ≡ 1
  pub aead : h.aead_id ≡ 1
  pub min_low : 64 ≤ h.min_chunk_size
  pub power : bit_and h.avg_chunk_size (h.avg_chunk_size - 1) ≡ 0
  pub min_avg : h.min_chunk_size ≤ h.avg_chunk_size
  pub avg_max : h.avg_chunk_size ≤ h.max_chunk_size
  pub max_high : h.max_chunk_size ≤ 16 * 1024 * 1024
  pub padding_low : 256 ≤ h.padding_size
  pub padding_high : h.padding_size ≤ 16 * 1024 * 1024
  pub salt : length h.salt ≡ 16
  pub nonce : length h.nonce_prefix ≡ 4
  pub cost_low : 14 ≤ h.kdf_log_n
  pub cost_high : h.kdf_log_n ≤ 18
  pub r : h.kdf_r ≡ 8
  pub p : h.kdf_p ≡ 1
  pub count_positive : 1 ≤ h.frame_count
  pub count_bounded : h.frame_count ≤ 16777216

-- The tests say so, whatever version was expected.
check→IsMsc3 :
    (expected : ℕ) (h : Msc3Header)
    → 3 ≤ expected
    → expected ≤ 6
    → check_msc3_header expected h ≡ ok tt
    → IsMsc3 h
unfolding check_msc3_header
check→IsMsc3 expected h low high e = record {
  version_low = ground arith;
  version_high = ground arith;
  flags = ground arith;
  kdf = ground arith;
  aead = ground arith;
  min_low = ground arith;
  power = ground arith;
  min_avg = ground arith;
  avg_max = ground arith;
  max_high = ground arith;
  padding_low = ground arith;
  padding_high = ground arith;
  salt = ground arith;
  nonce = ground arith;
  cost_low = ground arith;
  cost_high = ground arith;
  r = ground arith;
  p = ground arith;
  count_positive = ground arith;
  count_bounded = ground arith;
}

check→version :
    (expected : ℕ) (h : Msc3Header) → check_msc3_header expected h ≡ ok tt → h.version ≡ expected
unfolding check_msc3_header
check→version expected h e = ground arith

IsMsc3→check : (h : Msc3Header) → IsMsc3 h → check_msc3_header h.version h ≡ ok tt
unfolding check_msc3_header
IsMsc3→check h valid =
    let record {
      version_low = x0;
      version_high = x1;
      flags = x2;
      kdf = x3;
      aead = x4;
      min_low = x5;
      power = x6;
      min_avg = x7;
      avg_max = x8;
      max_high = x9;
      padding_low = x10;
      padding_high = x11;
      salt = x12;
      nonce = x13;
      cost_low = x14;
      cost_high = x15;
      r = x16;
      p = x17;
      count_positive = x18;
      count_bounded = x19;
    } =
      valid in
    ground arith

-- The magics and the versions name each other.
magic_of-expected :
    (found : Bytes) → is_known_magic found ≡ true → magic_of (expected_version found) ≡ found
unfolding magic_of expected_version is_known_magic
magic_of-expected found known = elim (Bool-cases (bytes_eq found msc3_magic)) [
  | inl e ↦ rw e (sym (bytes_eq→eq found msc3_magic e))
  | inr e ↦ elim (Bool-cases (bytes_eq found msc4_magic)) [
    | inl g ↦ rw (e, g) (sym (bytes_eq→eq found msc4_magic g))
    | inr g ↦ elim (Bool-cases (bytes_eq found msc5_magic)) [
      | inl i ↦ rw (e, g, i) (sym (bytes_eq→eq found msc5_magic i))
      | inr i ↦ rw (e, g, i) (sym (bytes_eq→eq found msc6_magic (rw (e, g, i) at known)))
    ]
  ]
]

expected_in_range : (found : Bytes) → (3 ≤ expected_version found) × (expected_version found ≤ 6)
unfolding expected_version
expected_in_range found = (ground arith, ground arith)

magic_of_lem :
    (v : ℕ)
    → 3 ≤ v
    → v ≤ 6
    → (is_known_magic (magic_of v) ≡ true) × (expected_version (magic_of v) ≡ v)
unfolding magic_of expected_version is_known_magic bytes_eq
magic_of_lem v low high = (ground arith, ground arith)

msc3-Fits : (h : Msc3Header) → IsMsc3 h → Fits msc3_header (header_values h)
unfolding magic_of
msc3-Fits h v =
    let byte : (n : ℕ) → n < 256 → n < 256 ^ 1 = λ n lt. omega arith in
    let word : (n : ℕ) → n ≤ 16 * 1024 * 1024 → n < 256 ^ 4 = λ n le. omega arith in
    (
      ground arith,
      (
        byte h.version (omega (arith, v.version_high)),
        (
          byte h.flags (omega (arith, v.flags)),
          (
            byte h.kdf_id (omega (arith, v.kdf)),
            (
              byte h.aead_id (omega (arith, v.aead)),
              (
                word h.min_chunk_size (omega (arith, v.min_avg, v.avg_max, v.max_high)),
                (
                  word h.avg_chunk_size (omega (arith, v.avg_max, v.max_high)),
                  (
                    word h.max_chunk_size v.max_high,
                    (
                      word h.padding_size v.padding_high,
                      (
                        v.salt,
                        (
                          v.nonce,
                          (
                            byte h.kdf_log_n (omega (arith, v.cost_high)),
                            (
                              byte h.kdf_r (omega (arith, v.r)),
                              (
                                byte h.kdf_p (omega (arith, v.p)),
                                (omega (arith, v.count_bounded), tt),
                              ),
                            ),
                          ),
                        ),
                      ),
                    ),
                  ),
                ),
              ),
            ),
          ),
        ),
      ),
    )

accept_iff :
    (v : Values msc3_header) (h : Msc3Header)
    → (accept v ≡ ok h) ↔ ((v ≡ header_values h) × IsMsc3 h)
unfolding accept
accept_iff (found, fields) h = (onward, back)
  where
    onward : accept (found, fields) ≡ ok h → ((found, fields) ≡ header_values h) × IsMsc3 h
    onward e =
        let (known, checked, same) =
          checked→ (is_known_magic found) archive_format
            (check_msc3_header (expected_version found) (from_values fields)) (from_values fields) h
            e in
        let range = expected_in_range found in
        let version = check→version (expected_version found) (from_values fields) checked in
        (
          ap (λ m. (m, fields)) (sym (magic_of-expected found known) ∙ ap magic_of (sym version))
              ∙ ap header_values same,
          rw (← same)
              (check→IsMsc3 (expected_version found) (from_values fields) range.0 range.1 checked),
        )

    back : ((found, fields) ≡ header_values h) × IsMsc3 h → accept (found, fields) ≡ ok h
    back (same, valid) =
        let found_magic : found ≡ magic_of h.version = ap (λ v. v.0) same in
        let fields_same : fields ≡ (header_values h).1 = ap (λ v. v.1) same in
        let named = magic_of_lem h.version valid.version_low valid.version_high in
        rw (found_magic, fields_same, named.0, named.1, IsMsc3→check h valid) refl

-- Bytes are parsed to a header of a deduplicating container exactly where the header is valid, its
-- numbers fit their fields, and the bytes are what `pack` writes for it.
pub parse_msc3_header_iff :
    (buf : Bytes) (h : Msc3Header)
    → All IsByte buf
    → (parse_msc3_header buf ≡ ok h)
      ↔ (IsMsc3 h × Fits msc3_header (header_values h) × (pack_header h ≡ ok buf))
unfolding parse_msc3_header
parse_msc3_header_iff buf h bytes =
    parse_with_iff msc3_header header_values IsMsc3 accept accept_iff buf h bytes

-- A valid header of a deduplicating container, MSC3 to MSC6, is packed in 55 bytes, which are parsed
-- to it.
pub parse-pack_msc3_header :
    (h : Msc3Header)
    → IsMsc3 h
    → (buf : Bytes) × (pack_header h ≡ ok buf) × (length buf ≡ 55) × (parse_msc3_header buf ≡ ok h)
unfolding parse_msc3_header
parse-pack_msc3_header h valid =
    parse_with-pack msc3_header header_values IsMsc3 accept accept_iff h valid (msc3-Fits h valid)
