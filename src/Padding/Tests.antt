-- ===== src/Padding/Tests.antt =====
-- Padding at concrete inputs.
use mosaic_archive.Base.{
  ℕ, ◌+◌, ◌≡◌, refl, ◌<◌, [], ◌∷◌, ◌++◌, Bytes, length, length-replicate, replicate, take, ok, err,
  archive_format, arith, ◌⊎◌,
}
use mosaic_archive.Struct.Integers.{from_be}
use mosaic_archive.Padding.{pad_payload, unpad_payload}
use mosaic_archive.Padding.RoundTrip.{Padded, unpad-pad, unpad_payload_lem}

abbrev sevens : ℕ → Bytes
sevens n = replicate n 7

abbrev payload : Bytes
payload = 10 ∷ 20 ∷ 30 ∷ []

abbrev envelope : Bytes
envelope = 0 ∷ 0 ∷ 0 ∷ 0 ∷ 0 ∷ 0 ∷ 0 ∷ 1 ∷ 42 ∷ 9 ∷ []

unpad-pad_example : Padded payload 256 (pad_payload sevens payload 256)
unpad-pad_example =
    unpad-pad sevens payload 256 (λ n. length-replicate n 7) (omega arith) (omega arith)
      (omega arith)

unpad_payload_lem_example :
    ((prefix : Bytes) × (payload : Bytes) × (filler : Bytes) × (unpad_payload envelope ≡ ok payload)
      × (envelope ≡ prefix ++ (payload ++ filler))
      × (length prefix ≡ 8)
      × (length payload ≡ from_be 0 prefix))
    ⊎ ((unpad_payload envelope ≡ err archive_format)
        × (length envelope < 8 ⊎ length envelope < 8 + from_be 0 (take 8 envelope)))
unpad_payload_lem_example = unpad_payload_lem envelope

unpad-sample : unpad_payload envelope ≡ ok (42 ∷ [])
unfolding unpad_payload
unpad-sample = refl
