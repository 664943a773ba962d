-- ===== src/Manifest.antt =====
-- What the manifests of stream_archive.py (MSC2) and dedup_archive.py (MSC3) have in common: the
-- entry of a file or directory, its bytes, and the reading of a path.
pub mod Entries
pub mod Samples
pub mod Stream
pub mod Dedup
use mosaic_archive.Base.{
  ℕ, ◌+◌, List, [], ◌∷◌, ◌++◌, Bytes, length, replicate, ◌==◌, ◌&&◌, ◌||◌, not, if◌then◌else◌, Bool,
  true, false, Option, none, some, Result, ok, err, raise_if, ◌>>=◌, ◌>>◌, archive_format,
  value_error, Error,
}
use mosaic_archive.Base.Int.{ℤ}
use mosaic_archive.Struct.{Format, Values, uint, int64, str, pack}
use mosaic_archive.Text.{Text, Unicode, text_eq, is_member, or_value_error}
use mosaic_archive.Paths.{dot, parent, validate_relative_path}
use mosaic_archive.Dedup.Frames.{read_exact}

abbrev pub kind_file : ℕ
kind_file = 1

abbrev pub kind_folder : ℕ
kind_folder = 2

abbrev pub entry_file : ℕ
entry_file = 1

abbrev pub entry_directory : ℕ
entry_directory = 2

-- `ZERO_HASH`
abbrev pub zero_hash : Bytes
zero_hash = replicate 32 0

-- `ManifestEntry` of MSC2, whose range is of frames, and `DedupEntry` of MSC3, whose range is of
-- chunks.
pub record Entry : Type 0 where
  pub entry_type : ℕ
  pub relative_path : Text
  pub mode : ℕ
  pub mtime_ns : ℤ
  pub size : ℕ
  pub first : ℕ
  pub count : ℕ
  pub digest : Bytes

-- `ENTRY_FIXED`, of the format ">BHIqQQI32s"
abbrev pub entry_fixed : Format
entry_fixed = uint 1 ∷ uint 2 ∷ uint 4 ∷ int64 ∷ uint 8 ∷ uint 8 ∷ uint 4 ∷ str 32 ∷ []

abbrev pub entry_values : Entry → ℕ → Values entry_fixed
entry_values e path_length = (
  e.entry_type,
  (path_length, (e.mode, (e.mtime_ns, (e.size, (e.first, (e.count, (e.digest, tt))))))),
)

-- The entry is a single file with the name of the root.
unfoldable pub is_single : Text → List Entry → Bool
is_single root [] = false
is_single root (e ∷ []) = e.entry_type == entry_file && text_eq e.relative_path root
is_single root (e ∷ f ∷ es) = false

-- The set of the directories' paths.
unfoldable pub directories : List Entry → List Text
directories [] = []
directories (e ∷ es) =
    let rest = directories es in
    if e.entry_type == entry_directory then e.relative_path ∷ rest else rest

-- `for entry in entries`: the directory of each entry is the root or an entry.
unfoldable pub have_parents : List Text → List Entry → Bool
have_parents known [] = true
have_parents known (e ∷ es) =
    let rest = have_parents known es in
    let above = parent e.relative_path in (text_eq above dot || is_member above known) && rest

-- The last tests of both parsers.
unfoldable pub check_shape : ℕ → Text → List Entry → Result (Unit {0})
check_shape kind root entries =
    if kind == kind_file
    then raise_if (not (is_single root entries)) archive_format
    else raise_if (not (have_parents (directories entries) entries)) archive_format

-- `except (UnicodeDecodeError, ValueError)`
unfoldable pub format_error {ℓ} : {A : Type ℓ} → Result A → Result A
format_error (ok a) = ok a
format_error (err value_error) = err archive_format
format_error (err e) = err e

module _ (unicode : Unicode) where
  -- `entry.relative_path.encode("utf-8")`
  unfoldable pub encode_text : Text → Result Bytes
  encode_text text = or_value_error (unicode.encode text)

  unfoldable pub write_entry : Entry → Result Bytes
  write_entry e = do
    path ← encode_text e.relative_path
    fixed ← pack entry_fixed (entry_values e (length path))
    ok (fixed ++ path)

  unfoldable pub write_entries : List Entry → Result Bytes
  write_entries [] = ok []
  write_entries (e ∷ es) = do first ← write_entry e; rest ← write_entries es; ok (first ++ rest)

  -- The decoding and the validation of a path: the text as it is read, and as it is validated.
  unfoldable pub decode_path : Bytes → Result (Text × Text)
  decode_path bytes = format_error (do
    raw ← or_value_error (unicode.decode bytes)
    relative ← validate_relative_path unicode raw
    ok (raw, relative))

  unfoldable pub read_path : Bytes → ℕ → Result ((Text × Text) × Bytes)
  read_path buf n = do (bytes, rest) ← read_exact buf n; names ← decode_path bytes; ok (names, rest)
