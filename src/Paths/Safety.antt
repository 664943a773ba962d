-- ===== src/Paths/Safety.antt =====
-- What `validate_relative_path` of paths.py lets pass: a path that stays below its root.
use mosaic_archive.Base.{
  ◌≡◌, ◌≢◌, ◌≤◌, refl, sym, ap, ◌∙◌, List, [], ◌∷◌, ◌++◌, append-nil, append_assoc, Bytes, All,
  length, ltb, ◌==◌, ◌||◌, Bool, true, false, Bool-cases, inl, inr, Option, none, some, ok,
  >>=-eq-ok, raise_if-eq-ok, ok-inj, ltb_false→le, value_error, if◌then◌else◌, arith,
}
use mosaic_archive.Text.{Text, Unicode, UnicodeLaws, text_eq, has, or_value_error}
use mosaic_archive.Paths.{
  dot, dot_dot, split, is_component, components, parts, is_absolute, check_part, check_parts,
  validate_relative_path,
}

-- Resolving a path from a directory inside the root: the directory as its components, and `none` as
-- soon as a path leaves the root.
leave : List Text → Option (List Text)
leave [] = none
leave (t ∷ []) = some []
leave (t ∷ u ∷ ts) = elim (leave (u ∷ ts)) [ none ↦ none | some front ↦ some (t ∷ front) ]

pub resolve : List Text → List Text → Option (List Text)
unfolding leave
resolve inside [] = some inside
resolve inside (t ∷ ts) =
    let stay = resolve inside ts in
    let up : Option (List Text) = elim (leave inside) [
      | none ↦ none
      | some outer ↦ resolve outer ts
    ] in
    let down = resolve (inside ++ (t ∷ [])) ts in
    if length t == 0 || text_eq t dot then stay else if text_eq t dot_dot then up else down

resolve-components :
    (inside ts : List Text)
    → All (λ t. text_eq t dot_dot ≡ false) (components ts)
    → resolve inside ts ≡ some (inside ++ components ts)
unfolding resolve components is_component
resolve-components inside [] h = ap some (sym (append-nil inside))
resolve-components inside (t ∷ ts) h = elim (Bool-cases (length t == 0 || text_eq t dot)) [
  | inl e ↦ rw e (resolve-components inside ts (rw e at h))
  | inr e ↦
      let k = rw e at h in
      rw (e, k.0)
        (resolve-components (inside ++ (t ∷ [])) ts k.1
          ∙ ap some (append_assoc inside (t ∷ []) (components ts)))
]

record Validated (unicode : Unicode) (value result : Text) : Type 0 where
  same : result ≡ unicode.normalize value
  named :
      (length (unicode.normalize value) == 0
        || text_eq (unicode.normalize value) dot
        || text_eq (unicode.normalize value) dot_dot)
      ≡ false
  separated : (has 0 (unicode.normalize value) || has 92 (unicode.normalize value)) ≡ false
  encoded : Bytes
  encodes : or_value_error (unicode.encode (unicode.normalize value)) ≡ ok encoded
  short : ltb 65535 (length encoded) ≡ false
  relative :
      (is_absolute (unicode.normalize value) || length (parts (unicode.normalize value)) == 0)
      ≡ false
  checked : check_parts unicode (parts (unicode.normalize value)) ≡ ok tt

validated :
    (unicode : Unicode) (value result : Text)
    → validate_relative_path unicode value ≡ ok result
    → Validated unicode value result
unfolding validate_relative_path
validated unicode value result h =
    let (named, h1) = raise_if-eq-ok _ _ _ h in
    let (separated, h2) = raise_if-eq-ok _ _ _ h1 in
    let (encoded, encodes, h3) = >>=-eq-ok _ _ h2 in
    let (short, h4) = raise_if-eq-ok _ _ _ h3 in
    let (relative, h5) = raise_if-eq-ok _ _ _ h4 in
    let (_, checked, h6) = >>=-eq-ok _ _ h5 in
    record {
      same = sym (ok-inj h6);
      named = named;
      separated = separated;
      encoded = encoded;
      encodes = encodes;
      short = short;
      relative = relative;
      checked = checked;
    }

or-false : (a b : Bool) → (a || b) ≡ false → (a ≡ false) × (b ≡ false)
or-false true b h = cc
or-false false b h = (refl, h)

check_parts-All :
    (unicode : Unicode) (ts : List Text)
    → check_parts unicode ts ≡ ok tt
    → All (λ t. text_eq t dot_dot ≡ false) ts
unfolding check_parts check_part
check_parts-All unicode [] h = tt
check_parts-All unicode (t ∷ ts) h =
    let (_, first, rest) = >>=-eq-ok (check_part unicode t) (λ _. check_parts unicode ts) h in
    let (named, _) =
      raise_if-eq-ok (length t == 0 || text_eq t dot || text_eq t dot_dot) value_error _ first in
    (
      (or-false (length t == 0 || text_eq t dot) (text_eq t dot_dot) named).1,
      check_parts-All unicode ts rest,
    )

none_left : (ts : List Text) → ts ≡ [] → (length ts == 0) ≡ false → ⊥
none_left [] e h = cc
none_left (t ∷ ts) e h = absurd (omega (arith, ap length e))

-- What a path that is let pass is.
pub record IsSafe (unicode : Unicode) (path : Text) : Type 0 where
  pub stable : validate_relative_path unicode path ≡ ok path
  pub not_absolute : is_absolute path ≡ false
  pub stays_below : resolve [] (split 47 path) ≡ some (parts path)
  pub some_parts : parts path ≢ []

-- A path that `validate_relative_path` returns is the normal form of its argument and is returned
-- again for itself. It is not absolute and has a component, and resolving it component by
-- component, with every `..` taken, never leaves the directory it starts from.
pub validate_relative_path_lem :
    (unicode : Unicode) (laws : UnicodeLaws unicode) (value result : Text)
    → validate_relative_path unicode value ≡ ok result
    → (result ≡ unicode.normalize value) × IsSafe unicode result
unfolding validate_relative_path parts
validate_relative_path_lem unicode laws value result h =
    let v = validated unicode value result h in
    let path = unicode.normalize value in
    let r = or-false (is_absolute path) _ v.relative in
    (
      v.same,
      rw v.same (record {
        stable = rw (laws.normal value) (h ∙ ap ok v.same);
        not_absolute = r.0;
        stays_below = resolve-components [] _ (check_parts-All unicode _ v.checked);
        some_parts = λ e. absurd (none_left _ e r.1);
      }),
    )

from_ok : (o : Option Bytes) (b : Bytes) → or_value_error o ≡ ok b → o ≡ some b
unfolding or_value_error
from_ok none b e = cc
from_ok (some a) b e = ap some (ok-inj e)

-- A path that is returned for itself has a code of at most 65,535 bytes.
pub valid_path-encodes :
    (unicode : Unicode) (path : Text)
    → validate_relative_path unicode path ≡ ok path
    → (bytes : Bytes) × (unicode.encode path ≡ some bytes) × (length bytes ≤ 65535)
valid_path-encodes unicode path h =
    let v = validated unicode path path h in
    (
      v.encoded,
      ap unicode.encode v.same
          ∙ from_ok (unicode.encode (unicode.normalize path)) v.encoded v.encodes,
      ltb_false→le 65535 (length v.encoded) v.short,
    )
