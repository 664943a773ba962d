-- ===== src/Format/StreamHeader.antt =====
-- stream_format.py: the public header of the framed container MSC2.
pub mod RoundTrip
use mosaic_archive.Base.{
  ℕ, ◌*◌, List, [], ◌∷◌, Bytes, Bool, not, ◌&&◌, ◌||◌, length, ltb, leb, ◌==◌, bytes_eq, Result, ok,
  err, raise_if, ◌>>=◌, ◌>>◌, archive_format, unsupported_version,
}
use mosaic_archive.Struct.{uint, str, Format, Values, size, pack, unpack}

-- `b"MSC2"`
abbrev pub magic : Bytes
magic = 77 ∷ 83 ∷ 67 ∷ 50 ∷ []

-- `MSC2_HEADER` behind the magic, of the format ">4sBBBBII16s4sBBBQ"
abbrev pub msc2_fields : Format
msc2_fields =
    uint 1
    ∷ uint 1
    ∷ uint 1
    ∷ uint 1
    ∷ uint 4
    ∷ uint 4
    ∷ str 16
    ∷ str 4
    ∷ uint 1
    ∷ uint 1
    ∷ uint 1
    ∷ uint 8
    ∷ []

abbrev pub msc2_header : Format
msc2_header = str 4 ∷ msc2_fields

pub record Msc2Header : Type 0 where
  pub version : ℕ
  pub flags : ℕ
  pub kdf_id : ℕ
  pub aead_id : ℕ
  pub chunk_size : ℕ
  pub padding_size : ℕ
  pub salt : Bytes
  pub nonce_prefix : Bytes
  pub kdf_log_n : ℕ
  pub kdf_r : ℕ
  pub kdf_p : ℕ
  pub frame_count : ℕ

abbrev pub header_values : Msc2Header → Values msc2_header
header_values h = (
  magic,
  (
    h.version,
    (
      h.flags,
      (
        h.kdf_id,
        (
          h.aead_id,
          (
            h.chunk_size,
            (
              h.padding_size,
              (h.salt, (h.nonce_prefix, (h.kdf_log_n, (h.kdf_r, (h.kdf_p, (h.frame_count, tt)))))),
            ),
          ),
        ),
      ),
    ),
  ),
)

-- `Msc2Header.pack`
abbrev pub pack_header : Msc2Header → Result Bytes
pack_header h = pack msc2_header (header_values h)

-- The tests of `parse_msc2_header` on the fields.
unfoldable pub check_msc2_header : Msc2Header → Result (Unit {0})
check_msc2_header h = do
  raise_if (not (h.version == 2)) unsupported_version
  raise_if (not (h.flags == 3)) archive_format
  raise_if (not (h.kdf_id == 1) || not (h.aead_id == 1)) archive_format
  raise_if (not (leb 1 h.chunk_size && leb h.chunk_size (16 * 1024 * 1024))) archive_format
  raise_if (not (leb 256 h.padding_size && leb h.padding_size (16 * 1024 * 1024))) archive_format
  raise_if (not (length h.salt == 16)) archive_format
  raise_if (not (length h.nonce_prefix == 4)) archive_format
  raise_if (not (leb 14 h.kdf_log_n && leb h.kdf_log_n 18)) archive_format
  raise_if (not (h.kdf_r == 8) || not (h.kdf_p == 1)) archive_format
  raise_if (not (leb 1 h.frame_count && leb h.frame_count 16777216)) archive_format
  ok tt

abbrev pub from_values : Values msc2_fields → Msc2Header
from_values
      (
        version,
        (
          flags,
          (
            kdf_id,
            (
              aead_id,
              (
                chunk_size,
                (
                  padding_size,
                  (salt, (nonce_prefix, (kdf_log_n, (kdf_r, (kdf_p, (frame_count, _)))))),
                ),
              ),
            ),
          ),
        ),
      ) =
    record {
      version = version;
      flags = flags;
      kdf_id = kdf_id;
      aead_id = aead_id;
      chunk_size = chunk_size;
      padding_size = padding_size;
      salt = salt;
      nonce_prefix = nonce_prefix;
      kdf_log_n = kdf_log_n;
      kdf_r = kdf_r;
      kdf_p = kdf_p;
      frame_count = frame_count;
    }

-- What `parse_msc2_header` does with the unpacked values.
unfoldable pub accept : Values msc2_header → Result Msc2Header
accept (found, fields) = do
  raise_if (not (bytes_eq found magic)) archive_format
  let header = from_values fields
  check_msc2_header header
  ok header

unfoldable pub parse_msc2_header : Bytes → Result Msc2Header
parse_msc2_header buf = do
  raise_if (not (length buf == size msc2_header)) archive_format
  unpacked ← unpack msc2_header buf
  accept unpacked
