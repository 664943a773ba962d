-- ===== src/Paths.antt =====
-- paths.py: `validate_relative_path`, and what it and the manifests use of Python's PurePosixPath.
pub mod Safety
mod Tests
use mosaic_archive.Base.{
  ℕ, zero, suc, ◌+◌, List, [], ◌∷◌, ◌++◌, Bytes, length, ltb, ◌==◌, ◌||◌, ◌&&◌, not, if◌then◌else◌,
  Bool, true, false, Option, none, some, Result, ok, err, raise_if, ◌>>=◌, ◌>>◌, value_error,
}
use mosaic_archive.Text.{Text, Unicode, text_eq, has, is_member, or_value_error}

abbrev pub dot : Text
dot = 46 ∷ []

abbrev pub dot_dot : Text
dot_dot = 46 ∷ 46 ∷ []

-- `_INVALID_WINDOWS_CHARS`
abbrev pub invalid_windows_chars : Text
invalid_windows_chars = 60 ∷ 62 ∷ 58 ∷ 34 ∷ 92 ∷ 124 ∷ 63 ∷ 42 ∷ []

numbered : Text → ℕ → ℕ → List Text
numbered prefix zero digit = []
numbered prefix (suc n) digit = (prefix ++ (digit ∷ [])) ∷ numbered prefix n (digit + 1)

-- `_RESERVED_WINDOWS_NAMES`
pub reserved_windows_names : List Text
unfolding numbered
reserved_windows_names =
    (67 ∷ 79 ∷ 78 ∷ [])
    ∷ (80 ∷ 82 ∷ 78 ∷ [])
    ∷ (65 ∷ 85 ∷ 88 ∷ [])
    ∷ (78 ∷ 85 ∷ 76 ∷ [])
    ∷ (numbered (67 ∷ 79 ∷ 77 ∷ []) 9 49 ++ numbered (76 ∷ 80 ∷ 84 ∷ []) 9 49)

add_front : ℕ → List Text → List Text
add_front c [] = (c ∷ []) ∷ []
add_front c (t ∷ ts) = (c ∷ t) ∷ ts

-- `text.split(separator)`
pub split : ℕ → Text → List Text
unfolding add_front
split separator [] = [] ∷ []
split separator (c ∷ cs) =
    let rest = split separator cs in if c == separator then [] ∷ rest else add_front c rest

-- A relative PurePosixPath keeps the components that are neither empty nor a dot.
pub is_component : Text → Bool
is_component part = not (length part == 0 || text_eq part dot)

pub components : List Text → List Text
unfolding is_component
components [] = []
components (t ∷ ts) = let rest = components ts in if is_component t then t ∷ rest else rest

-- `PurePosixPath(text).parts`, where the text does not start with a slash.
pub parts : Text → List Text
unfolding split components
parts text = components (split 47 text)

-- `PurePosixPath(text).is_absolute()`
pub is_absolute : Text → Bool
is_absolute [] = false
is_absolute (c ∷ cs) = c == 47

-- `part.endswith((" ", "."))`
pub has_unsafe_end : Text → Bool
has_unsafe_end [] = false
has_unsafe_end (c ∷ []) = c == 32 || c == 46
has_unsafe_end (c ∷ d ∷ cs) = has_unsafe_end (d ∷ cs)

-- `any(character in _INVALID_WINDOWS_CHARS or ord(character) < 32 for character in part)`
pub has_unsafe_character : Text → Bool
unfolding has
has_unsafe_character [] = false
has_unsafe_character (c ∷ cs) =
    let rest = has_unsafe_character cs in has c invalid_windows_chars || ltb c 32 || rest

-- `part.split(".", 1)[0]`
pub stem : Text → Text
stem [] = []
stem (c ∷ cs) = let rest = stem cs in if c == 46 then [] else c ∷ rest

-- The loop that joins the components but the last with slashes.
join_parents : List Text → Text
join_parents [] = []
join_parents (t ∷ []) = []
join_parents (t ∷ u ∷ []) = t
join_parents (t ∷ u ∷ v ∷ ts) = t ++ (47 ∷ join_parents (u ∷ v ∷ ts))

-- `Path(text).parent.as_posix()` of a relative path.
unfoldable pub parent : Text → Text
unfolding join_parents parts
parent text = let joined = join_parents (parts text) in if length joined == 0 then dot else joined

module _ (unicode : Unicode) where
  pub check_part : Text → Result (Unit {0})
  unfolding is_member has_unsafe_end has_unsafe_character stem reserved_windows_names
  check_part part = do
    raise_if (length part == 0 || text_eq part dot || text_eq part dot_dot) value_error
    raise_if (has_unsafe_end part) value_error
    raise_if (has_unsafe_character part) value_error
    raise_if (is_member (unicode.upper (stem part)) reserved_windows_names) value_error

  -- `for part in path.parts`
  pub check_parts : List Text → Result (Unit {0})
  unfolding check_part
  check_parts [] = ok tt
  check_parts (t ∷ ts) = do check_part t; check_parts ts

  unfoldable pub validate_relative_path : Text → Result Text
  unfolding has parts is_absolute check_parts or_value_error
  validate_relative_path value = do
    let normalized = unicode.normalize value
    raise_if (length normalized == 0 || text_eq normalized dot || text_eq normalized dot_dot)
        value_error
    raise_if (has 0 normalized || has 92 normalized) value_error
    encoded ← or_value_error (unicode.encode normalized)
    raise_if (ltb 65535 (length encoded)) value_error
    raise_if (is_absolute normalized || length (parts normalized) == 0) value_error
    check_parts (parts normalized)
    ok normalized

last_part : List Text → Text
last_part [] = []
last_part (t ∷ []) = t
last_part (t ∷ u ∷ ts) = last_part (u ∷ ts)

-- `Path(text).name`
unfoldable pub name : Text → Text
unfolding last_part parts
name text = last_part (parts text)
