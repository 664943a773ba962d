-- ===== src/Solid/FramedSize/Pieces.antt =====
-- The framed size, one frame at a time.
use native.Mathlib.Nat.{
  div-eq_of_lt, mod-eq_of_lt, mod-eq-sub-mod, div-eq-sub-div, div_self, mod_self, add-mul,
}
use mosaic_archive.Base.{
  ℕ, ◌+◌, ◌-◌, ◌*◌, ◌/◌, ◌%◌, ◌≤◌, ◌<◌, ◌≡◌, refl, if◌then◌else◌, ◌==◌, ltb, le→leb, ne→==_false,
  ltb→lt, ltb_false→le, ok, arith, Bool-cases, inl, inr,
}
use mosaic_archive.Base.Int.{pos}
use mosaic_archive.Solid.FramedSize.{frame_size, solid_lane_framed_size}

-- What `solid_lane_framed_size` returns past its tests.
abbrev pub framed : ℕ → ℕ → ℕ → ℕ
framed f p n =
    if n % f == 0 then n / f * frame_size p f else n / f * frame_size p f + frame_size p (n % f)

pub framed_size-framed :
    (n f p : ℕ)
    → 1 ≤ n
    → 1024 ≤ f
    → f ≤ 16 * 1024 * 1024
    → 256 ≤ p
    → p ≤ f
    → solid_lane_framed_size (pos n) f p ≡ ok (framed f p n)
unfolding solid_lane_framed_size
framed_size-framed n f p some_bytes f_low f_high p_low p_high =
    rw
      (
        ne→==_false n 0 (λ e. omega (arith, e, some_bytes)),
        le→leb 1024 f f_low,
        le→leb f (16 * 1024 * 1024) f_high,
        le→leb 256 p p_low,
        le→leb p f p_high,
      )
      refl

-- A payload that fits one frame takes one.
pub framed_one : (n f p : ℕ) → 1 ≤ n → n ≤ f → framed f p n ≡ frame_size p n
framed_one n f p some_bytes fits = elim (Bool-cases (ltb n f)) [
  | inl less ↦
      let lt : n < f = ltb→lt n f less in
      rw (mod-eq_of_lt lt, div-eq_of_lt lt, ne→==_false n 0 (λ e. omega (arith, e, some_bytes)))
        (omega arith)
  | inr same ↦
      let e : n ≡ f = omega (arith, fits, ltb_false→le n f same) in
      rw (e, mod_self f, div_self {n = f} (omega (arith, some_bytes, fits))) (omega arith)
]

-- A longer one takes a full frame before those of the rest.
pub framed_more : (n f p : ℕ) → 1 ≤ f → f ≤ n → framed f p n ≡ frame_size p f + framed f p (n - f)
framed_more n f p some_bytes longer =
    rw (mod-eq-sub-mod longer, div-eq-sub-div (omega arith) longer)
      (ground (arith, add-mul ((n - f) / f) 1 (frame_size p f)))
