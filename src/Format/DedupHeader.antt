-- ===== src/Format/DedupHeader.antt =====
-- dedup_format.py: the public header of the deduplicating containers MSC3 to MSC6.
pub mod RoundTrip
use Prim.Native.Nat.{bit_and}
use mosaic_archive.Base.{
  ℕ, ◌-◌, ◌*◌, List, [], ◌∷◌, Bytes, Bool, not, ◌&&◌, ◌||◌, length, ltb, leb, ◌==◌, bytes_eq,
  if◌then◌else◌, Result, ok, err, raise_if, ◌>>=◌, ◌>>◌, archive_format, unsupported_version,
}
use mosaic_archive.Struct.{uint, str, Format, Values, size, pack, unpack}

-- `b"MSC3"` to `b"MSC6"`
abbrev pub msc3_magic : Bytes
msc3_magic = 77 ∷ 83 ∷ 67 ∷ 51 ∷ []

abbrev pub msc4_magic : Bytes
msc4_magic = 77 ∷ 83 ∷ 67 ∷ 52 ∷ []

abbrev pub msc5_magic : Bytes
msc5_magic = 77 ∷ 83 ∷ 67 ∷ 53 ∷ []

abbrev pub msc6_magic : Bytes
msc6_magic = 77 ∷ 83 ∷ 67 ∷ 54 ∷ []

-- `MSC3_HEADER` behind the magic, of the format ">4sBBBBIIII16s4sBBBQ"
abbrev pub msc3_fields : Format
msc3_fields =
    uint 1
    ∷ uint 1
    ∷ uint 1
    ∷ uint 1
    ∷ uint 4
    ∷ uint 4
    ∷ uint 4
    ∷ uint 4
    ∷ str 16
    ∷ str 4
    ∷ uint 1
    ∷ uint 1
    ∷ uint 1
    ∷ uint 8
    ∷ []

abbrev pub msc3_header : Format
msc3_header = str 4 ∷ msc3_fields

pub record Msc3Header : Type 0 where
  pub version : ℕ
  pub flags : ℕ
  pub kdf_id : ℕ
  pub aead_id : ℕ
  pub min_chunk_size : ℕ
  pub avg_chunk_size : ℕ
  pub max_chunk_size : ℕ
  pub padding_size : ℕ
  pub salt : Bytes
  pub nonce_prefix : Bytes
  pub kdf_log_n : ℕ
  pub kdf_r : ℕ
  pub kdf_p : ℕ
  pub frame_count : ℕ

-- The magic that `Msc3Header.pack` writes for a version; an unknown one is written as MSC6.
unfoldable pub magic_of : ℕ → Bytes
magic_of version =
    if version == 3
    then msc3_magic
    else if version == 4
    then msc4_magic
    else if version == 5
    then msc5_magic
    else msc6_magic

abbrev pub header_values : Msc3Header → Values msc3_header
header_values h = (
  magic_of h.version,
  (
    h.version,
    (
      h.flags,
      (
        h.kdf_id,
        (
          h.aead_id,
          (
            h.min_chunk_size,
            (
              h.avg_chunk_size,
              (
                h.max_chunk_size,
                (
                  h.padding_size,
                  (
                    h.salt,
                    (h.nonce_prefix, (h.kdf_log_n, (h.kdf_r, (h.kdf_p, (h.frame_count, tt))))),
                  ),
                ),
              ),
            ),
          ),
        ),
      ),
    ),
  ),
)

-- `Msc3Header.pack`
abbrev pub pack_header : Msc3Header → Result Bytes
pack_header h = pack msc3_header (header_values h)

unfoldable pub is_known_magic : Bytes → Bool
unfolding bytes_eq
is_known_magic found =
    bytes_eq found msc3_magic
    || (bytes_eq found msc4_magic || (bytes_eq found msc5_magic || bytes_eq found msc6_magic))

unfoldable pub expected_version : Bytes → ℕ
unfolding bytes_eq
expected_version found =
    if bytes_eq found msc3_magic
    then 3
    else if bytes_eq found msc4_magic
    then 4
    else if bytes_eq found msc5_magic
    then 5
    else 6

-- The tests of `parse_msc3_header` on the fields. `bit_and n (n - 1)` is 0 exactly as `n & (n - 1)`
-- is, at 0 too.
unfoldable pub check_msc3_header : ℕ → Msc3Header → Result (Unit {0})
check_msc3_header expected h = do
  raise_if (not (h.version == expected)) unsupported_version
  raise_if (not (h.flags == 7)) archive_format
  raise_if (not (h.kdf_id == 1) || not (h.aead_id == 1)) archive_format
  raise_if
      (ltb h.min_chunk_size 64
        || (not (bit_and h.avg_chunk_size (h.avg_chunk_size - 1) == 0)
            || not (
                leb h.min_chunk_size h.avg_chunk_size
                && (leb h.avg_chunk_size h.max_chunk_size
                    && leb h.max_chunk_size (16 * 1024 * 1024)))))
      archive_format
  raise_if (not (leb 256 h.padding_size && leb h.padding_size (16 * 1024 * 1024))) archive_format
  raise_if (not (length h.salt == 16) || not (length h.nonce_prefix == 4)) archive_format
  raise_if
      (not (leb 14 h.kdf_log_n && leb h.kdf_log_n 18) || (not (h.kdf_r == 8) || not (h.kdf_p == 1)))
      archive_format
  raise_if (not (leb 1 h.frame_count && leb h.frame_count 16777216)) archive_format
  ok tt

abbrev pub from_values : Values msc3_fields → Msc3Header
from_values
      (
        version,
        (
          flags,
          (
            kdf_id,
            (
              aead_id,
              (
                min_chunk_size,
                (
                  avg_chunk_size,
                  (
                    max_chunk_size,
                    (
                      padding_size,
                      (salt, (nonce_prefix, (kdf_log_n, (kdf_r, (kdf_p, (frame_count, _)))))),
                    ),
                  ),
                ),
              ),
            ),
          ),
        ),
      ) =
    record {
      version = version;
      flags = flags;
      kdf_id = kdf_id;
      aead_id = aead_id;
      min_chunk_size = min_chunk_size;
      avg_chunk_size = avg_chunk_size;
      max_chunk_size = max_chunk_size;
      padding_size = padding_size;
      salt = salt;
      nonce_prefix = nonce_prefix;
      kdf_log_n = kdf_log_n;
      kdf_r = kdf_r;
      kdf_p = kdf_p;
      frame_count = frame_count;
    }

-- What `parse_msc3_header` does with the unpacked values.
unfoldable pub accept : Values msc3_header → Result Msc3Header
accept (found, fields) = do
  raise_if (not (is_known_magic found)) archive_format
  let header = from_values fields
  check_msc3_header (expected_version found) header
  ok header

unfoldable pub parse_msc3_header : Bytes → Result Msc3Header
parse_msc3_header buf = do
  raise_if (not (length buf == size msc3_header)) archive_format
  values ← unpack msc3_header buf
  accept values
