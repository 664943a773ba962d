-- ===== src/Archive/Inspect.antt =====
-- archive.py: inspecting an archive against decoding it.
use mosaic_archive.Base.{
  ℕ, ◌≡◌, refl, Bytes, Bool-cases, inl, inr, Result, ok, err, Result-cases, bytes_eq,
}
use mosaic_archive.Archive.Types.{Platform}
use mosaic_archive.Archive.Decode.{open_archive, decode_records, decode_file, inspect_archive}

-- Whether a call returns, and the error it raises if it does not.
pub outcome {ℓ} : {A : Type ℓ} → Result A → Result (Unit {0})
outcome (ok a) = ok tt
outcome (err e) = err e

-- On every archive and under every password and limits, `inspect_archive` returns where `decode_file`
-- does, and raises the same error where it does not.
pub inspect_archive-decode_file :
    (on : Platform) (archive password : Bytes)
    (max_output_size max_frame_count max_archive_size : ℕ)
    → outcome (inspect_archive on archive password max_output_size max_frame_count max_archive_size)
      ≡ outcome (decode_file on archive password max_output_size max_frame_count max_archive_size)
unfolding outcome inspect_archive decode_file
inspect_archive-decode_file on archive password max_output_size max_frame_count max_archive_size =
    elim (Result-cases
      (open_archive on archive password max_output_size max_frame_count max_archive_size)) [
        | inr (e, h) ↦ rw h refl
        | inl (d, h) ↦ elim (Result-cases (decode_records on d.records)) [
          | inr (e, k) ↦ rw (h, k) refl
          | inl (restored, k) ↦ elim (Bool-cases (bytes_eq (on.sha256 restored) d.expected_hash)) [
            | inl t ↦ rw (h, k, t) refl
            | inr t ↦ rw (h, k, t) refl
          ]
        ]
      ]
