-- ===== src/Frontend/Floating/Round.antt =====
-- Rounding to whole pixels and clamping, for frontend/src/lib/floating.js.
use stock_dashboard.Prelude.{ℕ, ◌+◌, ◌*◌, ◌≤◌, ◌<◌, ◌≡◌, arith}
use stock_dashboard.Frontend.Floating.{negsuc, pos, round, clamp}
use stock_dashboard.Prelude.Int.{ℤ, pos_part, neg_part, ◌+ℤ◌, ◌≤ℤ◌, +ℤ_parts}

-- `round x` is the whole pixel nearest to `x`.
pub round_parts :
    (x : ℤ)
    → (128 * pos_part (round x) + neg_part x ≤ pos_part x + 64 + 128 * neg_part (round x))
      × (pos_part x + 128 * neg_part (round x) < 128 * pos_part (round x) + neg_part x + 64)
unfolding round ◌+ℤ◌
round_parts (pos n) = ground arith
round_parts (negsuc n) = ground arith

pub clamp_low : (v lo hi : ℤ) → lo ≤ℤ clamp v lo hi
unfolding clamp
clamp_low v lo hi = ground arith

pub clamp_high : (v lo hi : ℤ) → lo ≤ℤ hi → clamp v lo hi ≤ℤ hi
unfolding clamp
clamp_high v lo hi h = ground arith

pub clamp-le : (v lo hi : ℤ) → lo ≤ℤ v → clamp v lo hi ≤ℤ v
unfolding clamp
clamp-le v lo hi h = ground arith

pub clamp-ge : (v lo hi : ℤ) → v ≤ℤ hi → v ≤ℤ clamp v lo hi
unfolding clamp
clamp-ge v lo hi h = ground arith

-- Whole pixels, counted in 128ths.
abbrev pub of_px : ℤ → ℤ
of_px (pos n) = pos (128 * n)
of_px (negsuc n) = negsuc (128 * n + 127)

pub of_px_parts :
    (x : ℤ) → (pos_part (of_px x) ≡ 128 * pos_part x) × (neg_part (of_px x) ≡ 128 * neg_part x)
of_px_parts (pos n) = ground arith
of_px_parts (negsuc n) = ground arith

pub round_low : (x : ℤ) → x ≤ℤ of_px (round x) +ℤ pos 64
round_low x =
    grind (arith, +ℤ_parts (of_px (round x)) (pos 64), round_parts x, of_px_parts (round x))

pub round_high : (x : ℤ) → of_px (round x) ≤ℤ x +ℤ pos 64
round_high x = grind (arith, +ℤ_parts x (pos 64), round_parts x, of_px_parts (round x))

-- A whole pixel below the value stays below the rounded value.
pub round_px_low : (m : ℕ) (x : ℤ) → pos (128 * m) ≤ℤ x → pos m ≤ℤ round x
round_px_low m x h = grind (arith, round_parts x)
