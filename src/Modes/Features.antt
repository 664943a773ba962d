-- ===== src/Modes/Features.antt =====
-- features.py: the share of bytes that differ little from the one before, of `analyze_block`.
use mosaic_archive.Base.{
  ℕ, ◌+◌, ◌-◌, ◌*◌, ◌%◌, [], ◌∷◌, Bytes, length, ltb, leb, ◌&&◌, if◌then◌else◌, Bool,
}

-- `abs(signed_delta) <= 3`, where `signed_delta + 128` is a remainder by 256; a whole turn is added,
-- so that the difference of two bytes is not negative.
pub is_smooth : ℕ → ℕ → Bool
is_smooth previous current =
    let shifted = (current + 256 - previous + 128) % 256 in leb 125 shifted && leb shifted 131

-- `for previous, current in pairwise(block)`
pub smooth_count : Bytes → ℕ
unfolding is_smooth
smooth_count [] = 0
smooth_count (previous ∷ []) = 0
smooth_count (previous ∷ current ∷ bs) =
    let rest = smooth_count (current ∷ bs) in if is_smooth previous current then 1 + rest else rest

-- `features.delta_smoothness_ratio >= 0.55`, with the quotient by `length - 1` multiplied out. Below
-- 2 ** 47 bytes no quotient is so near to 0.55 that a rounding crosses it.
pub is_smooth_block : Bytes → Bool
unfolding smooth_count
is_smooth_block block =
    ltb 1 (length block) && leb (11 * (length block - 1)) (20 * smooth_count block)
