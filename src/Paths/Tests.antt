-- ===== src/Paths/Tests.antt =====
-- Paths: runs on concrete paths, with Unicode's tables for ASCII alone, and the theorem at one.
use mosaic_archive.Base.{◌≡◌, refl, [], ◌∷◌, ok, err, value_error, bytes_eq, all_bytes}
use mosaic_archive.Text.{Text, is_member}
use mosaic_archive.Text.Plain.{plain, plain_laws}
use mosaic_archive.Paths.{validate_relative_path, parent}
use mosaic_archive.Paths.Safety.{IsSafe, validate_relative_path_lem}

-- `a/b`
abbrev raw : Text
raw = 97 ∷ 47 ∷ 98 ∷ []

raw_is_valid : validate_relative_path plain raw ≡ ok raw
unfolding validate_relative_path bytes_eq all_bytes
raw_is_valid = refl

-- `a//b`: the doubled slash stays.
doubled_slash : validate_relative_path plain (97 ∷ 47 ∷ 47 ∷ 98 ∷ []) ≡ ok (97 ∷ 47 ∷ 47 ∷ 98 ∷ [])
unfolding validate_relative_path bytes_eq all_bytes
doubled_slash = refl

parent_of_doubled_slash : parent (97 ∷ 47 ∷ 47 ∷ 98 ∷ []) ≡ 97 ∷ []
unfolding parent bytes_eq
parent_of_doubled_slash = refl

-- `../a`, `/a` and `con.txt`
traversal : validate_relative_path plain (46 ∷ 46 ∷ 47 ∷ 97 ∷ []) ≡ err value_error
unfolding validate_relative_path bytes_eq all_bytes
traversal = refl

absolute : validate_relative_path plain (47 ∷ 97 ∷ []) ≡ err value_error
unfolding validate_relative_path bytes_eq all_bytes
absolute = refl

reserved : validate_relative_path plain (99 ∷ 111 ∷ 110 ∷ 46 ∷ 116 ∷ []) ≡ err value_error
unfolding validate_relative_path bytes_eq all_bytes is_member
reserved = refl

validate_relative_path_lem_example : (raw ≡ plain.normalize raw) × IsSafe plain raw
validate_relative_path_lem_example =
    validate_relative_path_lem plain plain_laws raw raw raw_is_valid
