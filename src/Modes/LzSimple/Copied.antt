-- ===== src/Modes/LzSimple/Copied.antt =====
-- What a copy from the output comes to, where its distance lies within the output.
use mosaic_archive.Base.{
  ℕ, zero, suc, ◌+◌, ◌-◌, ◌≤◌, ◌<◌, ◌≡◌, refl, [], ◌∷◌, ◌++◌, Bytes, IsByte, All, All-front, length,
  length-append, get_or, le→ltb_false, ne→==_false, ok, arith,
}
use mosaic_archive.Modes.LzSimple.{at_end, copy}

unfoldable pub copied : ℕ → ℕ → Bytes → Bytes
copied zero distance output = output
copied (suc n) distance output =
    copied n distance (output ++ (get_or output (length output - distance) 0 ∷ []))

pub length-copied :
    (n distance : ℕ) (output : Bytes) → length (copied n distance output) ≡ length output + n
unfolding copied
length-copied zero distance output = omega arith
length-copied (suc n) distance output =
    omega (arith, length-copied n distance _, length-append output (_ ∷ []))

pub All-copied :
    (n distance : ℕ) (output : Bytes) → All IsByte (copied n distance output) → All IsByte output
unfolding copied
All-copied zero distance output h = h
All-copied (suc n) distance output h = All-front IsByte output _ (All-copied n distance _ h)

at_end-ok :
    (output : Bytes) (distance : ℕ)
    → 0 < distance
    → distance ≤ length output
    → at_end output distance ≡ ok (get_or output (length output - distance) 0)
unfolding at_end
at_end-ok output distance pos near =
    rw
      (
        le→ltb_false distance (length output) near,
        ne→==_false (length output) 0 (λ e. omega (arith, e, near, pos)),
        ne→==_false distance 0 (λ e. omega (arith, e, pos)),
      )
      refl

pub copy-ok :
    (n distance : ℕ) (output : Bytes)
    → 0 < distance
    → distance ≤ length output
    → copy n distance output ≡ ok (copied n distance output)
unfolding copy copied
copy-ok zero distance output pos near = refl
copy-ok (suc n) distance output pos near = rw (at_end-ok output distance pos near) (
    copy-ok n distance _ pos
      (omega (arith, near, length-append output (get_or output (length output - distance) 0 ∷ []))))
