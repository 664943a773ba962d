-- ===== src/Format/PublicHeader.antt =====
-- container_format.py: the public header of MSC1.
pub mod RoundTrip
use mosaic_archive.Base.{
  ℕ, ◌*◌, List, [], ◌∷◌, Bytes, Bool, not, ◌&&◌, ◌||◌, length, ltb, leb, ◌==◌, bytes_eq, Result, ok,
  err, raise_if, ◌>>=◌, ◌>>◌, archive_format, unsupported_version,
}
use mosaic_archive.Struct.{uint, str, Format, Values, size, pack, unpack}

-- `b"MSC1"`
abbrev pub magic : Bytes
magic = 77 ∷ 83 ∷ 67 ∷ 49 ∷ []

-- `PUBLIC_HEADER` behind the magic, of the format ">4sBBBBII16s12sBBBQ"
abbrev pub public_fields : Format
public_fields =
    uint 1
    ∷ uint 1
    ∷ uint 1
    ∷ uint 1
    ∷ uint 4
    ∷ uint 4
    ∷ str 16
    ∷ str 12
    ∷ uint 1
    ∷ uint 1
    ∷ uint 1
    ∷ uint 8
    ∷ []

abbrev pub public_header : Format
public_header = str 4 ∷ public_fields

pub record PublicHeader : Type 0 where
  pub version : ℕ
  pub flags : ℕ
  pub kdf_id : ℕ
  pub aead_id : ℕ
  pub chunk_size : ℕ
  pub padding_size : ℕ
  pub salt : Bytes
  pub nonce : Bytes
  pub kdf_log_n : ℕ
  pub kdf_r : ℕ
  pub kdf_p : ℕ
  pub ciphertext_length : ℕ

abbrev pub header_values : PublicHeader → Values public_header
header_values h = (
  magic,
  (
    h.version,
    (
      h.flags,
      (
        h.kdf_id,
        (
          h.aead_id,
          (
            h.chunk_size,
            (
              h.padding_size,
              (h.salt, (h.nonce, (h.kdf_log_n, (h.kdf_r, (h.kdf_p, (h.ciphertext_length, tt)))))),
            ),
          ),
        ),
      ),
    ),
  ),
)

-- `PublicHeader.pack`
abbrev pub pack_header : PublicHeader → Result Bytes
pack_header h = pack public_header (header_values h)

unfoldable pub validate_public_header : PublicHeader → Result (Unit {0})
validate_public_header h = do
  raise_if (not (h.version == 1)) unsupported_version
  raise_if (not (h.flags == 1)) archive_format
  raise_if (not (h.kdf_id == 1) || not (h.aead_id == 1)) archive_format
  raise_if (not (leb 1 h.chunk_size && leb h.chunk_size (16 * 1024 * 1024))) archive_format
  raise_if (not (leb 256 h.padding_size && leb h.padding_size (16 * 1024 * 1024))) archive_format
  raise_if (not (length h.salt == 16) || not (length h.nonce == 12)) archive_format
  raise_if (not (leb 14 h.kdf_log_n && leb h.kdf_log_n 18)) archive_format
  raise_if (not (h.kdf_r == 8) || not (h.kdf_p == 1)) archive_format
  raise_if (ltb h.ciphertext_length 16) archive_format
  ok tt

abbrev pub from_values : Values public_fields → PublicHeader
from_values
      (
        version,
        (
          flags,
          (
            kdf_id,
            (
              aead_id,
              (
                chunk_size,
                (
                  padding_size,
                  (salt, (nonce, (kdf_log_n, (kdf_r, (kdf_p, (ciphertext_length, _)))))),
                ),
              ),
            ),
          ),
        ),
      ) =
    record {
      version = version;
      flags = flags;
      kdf_id = kdf_id;
      aead_id = aead_id;
      chunk_size = chunk_size;
      padding_size = padding_size;
      salt = salt;
      nonce = nonce;
      kdf_log_n = kdf_log_n;
      kdf_r = kdf_r;
      kdf_p = kdf_p;
      ciphertext_length = ciphertext_length;
    }

-- What `parse_public_header` does with the unpacked values.
unfoldable pub accept : Values public_header → Result PublicHeader
accept (found, fields) = do
  raise_if (not (bytes_eq found magic)) archive_format
  let header = from_values fields
  validate_public_header header
  ok header

unfoldable pub parse_public_header : Bytes → Result PublicHeader
parse_public_header buf = do
  raise_if (not (length buf == size public_header)) archive_format
  unpacked ← unpack public_header buf
  accept unpacked
