-- ===== src/Modes/Registry/Tests.antt =====
-- The choice of a mode on a concrete block, with a stand-in for zlib.
use mosaic_archive.Base.{◌≡◌, refl, [], ◌∷◌, Bytes, arith, ok, err, true, archive_format}
use mosaic_archive.Modes.Deflate.Stored.{stored, stored_laws}
use mosaic_archive.Modes.Registry.{
  EncodedBlock, all_modes, choose_best_mode, choose_routed_mode, get_mode, mode_id, mode_by_id,
}
use mosaic_archive.Modes.Registry.Choice.{IsChoice, choose_best_mode_lem}
use mosaic_archive.Modes.Registry.Routing.{
  fast_profile, profile_name, IsRouted, choose_routed_mode_lem,
}

abbrev block : Bytes
block = 7 ∷ 7 ∷ 7 ∷ 7 ∷ 7 ∷ 7 ∷ []

unknown_mode : get_mode stored 7 ≡ err archive_format
unfolding get_mode mode_id mode_by_id
unknown_mode = refl

choose_best_mode_lem_example :
    (e : EncodedBlock) × (choose_best_mode stored block ≡ ok e)
    × IsChoice stored (all_modes stored) block e
choose_best_mode_lem_example =
    choose_best_mode_lem stored stored_laws block (omega arith) (omega arith)

choose_routed_mode_lem_example :
    (e : EncodedBlock) × (choose_routed_mode stored (λ b. true) block (profile_name fast_profile)
      ≡ ok e)
    × IsRouted stored (λ b. true) fast_profile block e
choose_routed_mode_lem_example =
    choose_routed_mode_lem stored (λ b. true) stored_laws fast_profile block (omega arith)
      (omega arith)
