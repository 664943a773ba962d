-- ===== src/Archive/RoundTrip.antt =====
-- archive.py: a file is archived, and restored from the bytes of its archive.
use mosaic_archive.Base.{
  ℕ, ◌+◌, ◌*◌, ◌^◌, ◌≤◌, ◌<◌, ◌≡◌, refl, sym, ◌++◌, Bytes, length, length-append, take-append,
  drop-append, take_all, ◌==◌, false, bytes_eq_refl, ==_refl, ne→==_false, le→leb, le→ltb_false, ok,
  arith,
}
use mosaic_archive.Aead.{AeadLaws}
use mosaic_archive.Crypto.{normalize_password, derive_key}
use mosaic_archive.Text.{Text, UnicodeLaws}
use mosaic_archive.Padding.{pad_payload}
use mosaic_archive.Padding.RoundTrip.{Padded, unpad-pad, padded_length_bounds}
use mosaic_archive.Format.PublicHeader.{PublicHeader}
use mosaic_archive.Format.PublicHeader.RoundTrip.{IsValid, parse-pack_public_header}
use mosaic_archive.Modes.Deflate.{ZlibLaws}
use mosaic_archive.ResourceLimits.{validate_decode_limits}
use mosaic_archive.Archive.Types.{Platform, validate_encode_options}
use mosaic_archive.Archive.Encode.{read_blocks, encode_file}
use mosaic_archive.Archive.Decode.{decode_file}
use mosaic_archive.Archive.Inner.{IsArchivable, inner_stream}

-- What the packages document.
pub record PlatformLaws (on : Platform) : Type 0 where
  pub zlib_laws : ZlibLaws on.zlib
  pub unicode_laws : UnicodeLaws on.unicode
  pub cipher_laws : AeadLaws on.cipher
  pub key_size :
      (salt : Bytes) (n r p : ℕ) (password : Bytes) → length (on.scrypt salt n r p password) ≡ 32
  pub digest_size : (b : Bytes) → length (on.sha256 b) ≡ 32
  pub salt_size : length on.random_salt ≡ 16
  pub nonce_size : length on.random_nonce ≡ 12
  pub padding_random : (n : ℕ) → length (on.random_padding n) ≡ n

-- The options that the encoder admits besides the size of a block.
pub record AreOptions (padding_size kdf_log_n : ℕ) : Type 0 where
  pub padding_low : 256 ≤ padding_size
  pub padding_high : padding_size ≤ 16 * 1024 * 1024
  pub cost_low : 14 ≤ kdf_log_n
  pub cost_high : kdf_log_n ≤ 18

options_pass :
    (chunk_size padding_size kdf_log_n : ℕ)
    → 1 ≤ chunk_size
    → chunk_size ≤ 2 ^ 24
    → AreOptions padding_size kdf_log_n
    → validate_encode_options chunk_size padding_size kdf_log_n 8 1 ≡ ok tt
unfolding validate_encode_options
options_pass chunk_size padding_size kdf_log_n pos bounded o = rw (
  le→leb 1 chunk_size pos,
  le→leb chunk_size (16 * 1024 * 1024) bounded,
  le→leb 256 padding_size o.padding_low,
  le→leb padding_size (16 * 1024 * 1024) o.padding_high,
  le→leb 14 kdf_log_n o.cost_low,
  le→leb kdf_log_n 18 o.cost_high,
)

limits_pass :
    (max_output_size max_frame_count max_archive_size : ℕ)
    → 0 < max_frame_count
    → 0 < max_archive_size
    → validate_decode_limits max_output_size max_frame_count max_archive_size ≡ ok tt
unfolding validate_decode_limits
limits_pass max_output_size max_frame_count max_archive_size p q = rw (
  ne→==_false max_frame_count 0 (λ e. omega (arith, e, p)),
  ne→==_false max_archive_size 0 (λ e. omega (arith, e, q)),
)

-- The public header that the encoder writes.
abbrev header_of : Platform → ℕ → ℕ → ℕ → ℕ → PublicHeader
header_of on chunk_size padding_size kdf_log_n padded_size = record {
  version = 1;
  flags = 1;
  kdf_id = 1;
  aead_id = 1;
  chunk_size = chunk_size;
  padding_size = padding_size;
  salt = on.random_salt;
  nonce = on.random_nonce;
  kdf_log_n = kdf_log_n;
  kdf_r = 8;
  kdf_p = 1;
  ciphertext_length = padded_size + 16;
}

header_of-IsValid :
    (on : Platform) (laws : PlatformLaws on) (chunk_size padding_size kdf_log_n padded_size : ℕ)
    → 1 ≤ chunk_size
    → chunk_size ≤ 2 ^ 24
    → AreOptions padding_size kdf_log_n
    → IsValid (header_of on chunk_size padding_size kdf_log_n padded_size)
header_of-IsValid on laws chunk_size padding_size kdf_log_n padded_size pos bounded o = record {
  version = refl;
  flags = refl;
  kdf = refl;
  aead = refl;
  chunk_positive = pos;
  chunk_bounded = bounded;
  padding_low = o.padding_low;
  padding_high = o.padding_high;
  salt = laws.salt_size;
  nonce = laws.nonce_size;
  cost_low = o.cost_low;
  cost_high = o.cost_high;
  r = refl;
  p = refl;
  ciphertext = omega arith;
}

-- What no archive of the file exceeds: nine bytes for each block, the file, a block of the padding,
-- and the headers with the longest name.
abbrev pub size_bound : Bytes → ℕ → ℕ → ℕ
size_bound source chunk_size padding_size =
    65664
    + length source
    + 9 * length (read_blocks (length source) chunk_size source)
    + padding_size

-- A file whose bytes, name and blocks the format admits, and whose archive keeps below the 2 ^ 31
-- bytes that the cipher takes at once, is archived under a password that is not empty, and decoding
-- the archive under the same password and limits that leave room gives the bytes of the file back:
-- the blocks with their modes, the inner stream, the padding, the public header, the derivation of
-- the key, the cipher and the comparison of the digests included.
pub decode-encode_file :
    (on : Platform) (laws : PlatformLaws on) (file_name : Text) (source password : Bytes)
    (chunk_size padding_size kdf_log_n max_output_size max_frame_count max_archive_size : ℕ)
    → IsArchivable on file_name source chunk_size max_output_size max_frame_count
    → AreOptions padding_size kdf_log_n
    → (length password == 0) ≡ false
    → size_bound source chunk_size padding_size < 2 ^ 31
    → 0 < max_frame_count
    → size_bound source chunk_size padding_size ≤ max_archive_size
    → (archive : Bytes) × (encode_file on file_name source password chunk_size padding_size
          kdf_log_n 8 1
        ≡ ok archive)
      × (decode_file on archive password max_output_size max_frame_count max_archive_size
          ≡ ok source)
unfolding encode_file decode_file normalize_password derive_key
decode-encode_file on laws file_name source password chunk_size padding_size kdf_log_n
      max_output_size max_frame_count max_archive_size a o known small frames room =
    let s =
      inner_stream on laws.zlib_laws laws.unicode_laws laws.digest_size file_name source chunk_size
        max_output_size max_frame_count a (omega arith) in
    let p : Padded s.inner padding_size (pad_payload on.random_padding s.inner padding_size) =
      unpad-pad on.random_padding s.inner padding_size laws.padding_random o.padding_low
        o.padding_high (omega (arith, s.short, small)) in
    let bounds =
      padded_length_bounds (length s.inner) padding_size (omega (arith, o.padding_low)) in
    let header = header_of on chunk_size padding_size kdf_log_n (length p.padded) in
    let valid =
      header_of-IsValid on laws chunk_size padding_size kdf_log_n (length p.padded) a.chunk_positive
        a.chunk_bounded o in
    let (front, packs, sized, parses) =
      parse-pack_public_header header valid
        (omega (arith, bounds, p.sized, s.short, small, o.padding_high)) in
    let key = on.scrypt on.random_salt (2 ^ kdf_log_n) 8 1 password in
    let c =
      (laws.cipher_laws).seals key on.random_nonce p.padded front
        (laws.key_size on.random_salt (2 ^ kdf_log_n) 8 1 password) laws.nonce_size
        (omega (arith, bounds, p.sized, s.short, small)) (omega (arith, sized)) in
    let sealed = c.sealed in
    let tag = c.sized in
    let archive = front ++ sealed in
    let total : length archive ≡ 55 + (length p.padded + 16) =
      omega (arith, length-append front sealed, sized, tag) in
    let fits : length archive ≤ max_archive_size =
      omega (arith, total, bounds, p.sized, s.short, room) in
    (
      archive,
      rw (
        known,
        options_pass chunk_size padding_size kdf_log_n a.chunk_positive a.chunk_bounded o,
        s.builds,
        p.returns,
        packs,
        laws.salt_size,
        c.encrypts,
      ),
      rw (
        limits_pass max_output_size max_frame_count max_archive_size frames (omega (arith, room)),
        known,
        le→ltb_false (length archive) max_archive_size fits,
        take-append 55 front sealed (sym sized),
        parses,
        total,
        ==_refl (55 + (length p.padded + 16)),
        drop-append 55 front sealed (sym sized),
        take_all (length p.padded + 16) sealed (omega (arith, tag)),
        laws.salt_size,
        c.opens,
        p.whole,
        p.unpads,
        s.parses header (55 + (length p.padded + 16)) (length p.padded) refl,
        s.decodes,
        bytes_eq_refl (on.sha256 source),
      ),
    )
