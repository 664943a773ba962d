-- ===== src/Manifest/Entries.antt =====
-- The bytes of an entry of a manifest, and the texts that a manifest stores.
use mosaic_archive.Base.{
  ℕ, ◌^◌, ◌≤◌, ◌<◌, ◌≡◌, ◌⊎◌, refl, ap, ◌∙◌, ◌++◌, Bytes, length, ◌==◌, ◌||◌, true, Bool-cases, inl,
  inr, ==_iff, ok, arith,
}
use mosaic_archive.Struct.{size, unpack, int64}
use mosaic_archive.Struct.RoundTrip.{FitsCode, pack_total, unpack-sized}
use mosaic_archive.Text.{Text, Unicode, UnicodeLaws, or_value_error}
use mosaic_archive.Paths.{validate_relative_path}
use mosaic_archive.Paths.Safety.{valid_path-encodes}
use mosaic_archive.Dedup.Frames.RoundTrip.{read_exact-append}
use mosaic_archive.Manifest.{
  Entry, kind_file, kind_folder, entry_file, entry_directory, entry_fixed, entry_values,
  encode_text, write_entry, decode_path, read_path, format_error,
}

module _ (unicode : Unicode) (laws : UnicodeLaws unicode) where
  -- A path that validation leaves as it is, and its bytes.
  pub record Stored (path : Text) : Type 0 where
    pub bytes : Bytes
    pub encodes : encode_text unicode path ≡ ok bytes
    pub short : length bytes ≤ 65535
    pub reads :
        (rest : Bytes) → read_path unicode (bytes ++ rest) (length bytes) ≡ ok ((path, path), rest)

  pub stored : (path : Text) → validate_relative_path unicode path ≡ ok path → Stored path
  unfolding encode_text decode_path read_path format_error or_value_error
  stored path h =
      let (bytes, encoded, short) = valid_path-encodes unicode path h in
      let decoded = laws.decodes path bytes encoded in
      record {
        bytes = bytes;
        encodes = rw encoded;
        short = short;
        reads = λ rest. rw (read_exact-append bytes rest (length bytes) refl, decoded, h);
      }

  -- The numbers of an entry fit their fields, and its path and type are valid.
  pub record IsStorable (e : Entry) : Type 0 where
    pub known_type : (e.entry_type == entry_file || e.entry_type == entry_directory) ≡ true
    pub valid_path : validate_relative_path unicode e.relative_path ≡ ok e.relative_path
    pub small_mode : e.mode ≤ 511
    pub time_fits : FitsCode int64 e.mtime_ns
    pub size_fits : e.size < 2 ^ 64
    pub first_fits : e.first < 2 ^ 64
    pub count_fits : e.count < 2 ^ 32
    pub digest_fits : length e.digest ≡ 32

  -- The bytes that an entry is written as.
  pub record Written (e : Entry) : Type 0 where
    pub fixed : Bytes
    pub path : Bytes
    pub writes : write_entry unicode e ≡ ok (fixed ++ path)
    pub sized : length fixed ≡ size entry_fixed
    pub unpacks : unpack entry_fixed fixed ≡ ok (entry_values e (length path))
    pub path_reads :
        (rest : Bytes)
        → read_path unicode (path ++ rest) (length path)
          ≡ ok ((e.relative_path, e.relative_path), rest)

  small_type : (t : ℕ) → (t == entry_file || t == entry_directory) ≡ true → t < 256
  small_type t h = elim (Bool-cases (t == entry_file)) [
    | inl e ↦ omega (arith, (==_iff t entry_file).0 e)
    | inr e ↦ omega (arith, (==_iff t entry_directory).0 (rw e at h))
  ]

  pub written : (e : Entry) → IsStorable e → Written e
  unfolding write_entry
  written e s =
      let p = stored e.relative_path s.valid_path in
      let f = pack_total entry_fixed (entry_values e (length p.bytes)) (
        small_type e.entry_type s.known_type,
        (
          omega (arith, p.short),
          (
            omega (arith, s.small_mode),
            (s.time_fits, (s.size_fits, (s.first_fits, (s.count_fits, (s.digest_fits, tt))))),
          ),
        ),
      ) in
      record {
        fixed = f.bytes;
        path = p.bytes;
        writes = rw (p.encodes, f.packs);
        sized = f.sized;
        unpacks = unpack-sized entry_fixed f.bytes f.sized ∙ ap ok f.reads;
        path_reads = p.reads;
      }

pub known_kind :
    (kind : ℕ)
    → (kind ≡ kind_file) ⊎ (kind ≡ kind_folder)
    → ((kind == kind_file || kind == kind_folder) ≡ true) × (kind < 256)
known_kind kind (inl e) = rw e (refl, omega arith)
known_kind kind (inr e) = rw e (refl, omega arith)
