-- ===== src/Text.antt =====
-- Python's `str` as a list of code points, and what the code uses of Unicode's tables as an
-- interface.
pub mod Plain
use mosaic_archive.Base.{
  ℕ, List, [], ◌∷◌, ◌≡◌, Bytes, IsByte, All, bytes_eq, ◌==◌, ◌||◌, if◌then◌else◌, Bool, true, false,
  Option, none, some, Result, ok, err, value_error,
}

abbrev pub Text : Type 0
Text = List ℕ

-- `unicodedata.normalize("NFC", value)`, `casefold`, `upper`, and the codec "utf-8"; `encode` has no
-- result for a string that holds half of a surrogate pair.
pub record Unicode : Type 0 where
  pub normalize : Text → Text
  pub casefold : Text → Text
  pub upper : Text → Text
  pub encode : Text → Option Bytes
  pub decode : Bytes → Option Text

-- What Python documents: normalizing is idempotent, and the codec's two directions are inverse.
pub record UnicodeLaws (unicode : Unicode) : Type 0 where
  pub normal : (t : Text) → unicode.normalize (unicode.normalize t) ≡ unicode.normalize t
  pub decodes : (t : Text) (b : Bytes) → unicode.encode t ≡ some b → unicode.decode b ≡ some t
  pub encodes : (t : Text) (b : Bytes) → unicode.decode b ≡ some t → unicode.encode t ≡ some b
  pub bytes : (t : Text) (b : Bytes) → unicode.encode t ≡ some b → All IsByte b

abbrev pub text_eq : Text → Text → Bool
text_eq = bytes_eq

-- `character in text`
unfoldable pub has : ℕ → Text → Bool
has character [] = false
has character (c ∷ cs) = let rest = has character cs in c == character || rest

-- `text in texts`
unfoldable pub is_member : Text → List Text → Bool
unfolding bytes_eq
is_member text [] = false
is_member text (t ∷ ts) = let rest = is_member text ts in text_eq text t || rest

-- The error of a codec, which is a ValueError.
unfoldable pub or_value_error {ℓ} : {A : Type ℓ} → Option A → Result A
or_value_error none = err value_error
or_value_error (some a) = ok a
