-- ===== src/Text/Plain.antt =====
-- A stand-in for Unicode's tables, for the tests: texts of code points below 256, a byte each, of
-- which only the letters of ASCII have two cases.
use mosaic_archive.Base.{
  ◌+◌, ◌-◌, ◌≡◌, refl, sym, ap, ◌∙◌, [], ◌∷◌, Bytes, IsByte, All, leb, ◌&&◌, if◌then◌else◌, Option,
  none, some, Bool-cases, inl, inr, all_bytes, all_bytes_lem,
}
use mosaic_archive.Text.{Text, Unicode, UnicodeLaws}

abbrev upper_case : Text → Text
upper_case [] = []
upper_case (c ∷ cs) = (if leb 97 c && leb c 122 then c - 32 else c) ∷ upper_case cs

abbrev lower_case : Text → Text
lower_case [] = []
lower_case (c ∷ cs) = (if leb 65 c && leb c 90 then c + 32 else c) ∷ lower_case cs

abbrev only_bytes : Text → Option Bytes
only_bytes t = if all_bytes t then some t else none

abbrev pub plain : Unicode
plain = record {
  normalize = λ t. t;
  casefold = lower_case;
  upper = upper_case;
  encode = only_bytes;
  decode = only_bytes;
}

some-eq : (t b : Text) → only_bytes t ≡ some b → (t ≡ b) × All IsByte t
some-eq t b h = elim (Bool-cases (all_bytes t)) [ inl e ↦ (cc, all_bytes_lem t e) | inr e ↦ cc ]

both_ways : (t b : Text) → only_bytes t ≡ some b → only_bytes b ≡ some t
both_ways t b h = rw (sym (some-eq t b h).0) (h ∙ ap some (sym (some-eq t b h).0))

pub plain_laws : UnicodeLaws plain
plain_laws = record {
  normal = λ t. refl;
  decodes = λ t b h. both_ways t b h;
  encodes = λ t b h. both_ways b t h;
  bytes = λ t b h. rw (sym (some-eq t b h).0) (some-eq t b h).1;
}
