-- ===== src/Frontend/Floating/Laws.antt =====
-- What floating.js promises: a placed box stays on screen.
use stock_dashboard.Prelude.{ℕ, ◌+◌, ◌*◌, ◌≤◌, Option, arith}
use stock_dashboard.Frontend.Floating.{
  px, round, clamp, Rect, Size, Side, Placed, side_for, raw_top, raw_left, box_left, box_top,
  place_floating,
}
use stock_dashboard.Frontend.Floating.Round.{clamp_low, clamp_high, of_px, round_high, round_px_low}
use stock_dashboard.Prelude.Int.{pos, ℤ, ◌+ℤ◌, ◌-ℤ◌, ◌≤ℤ◌, +ℤ_parts, -ℤ_parts}

-- The box keeps the margin on all four sides, the far ones to within half a pixel.
pub record IsOnScreen (size view : Size) (m : ℕ) (p : Placed) : Type 0 where
  pub from_left : pos m ≤ℤ p.left
  pub from_top : pos m ≤ℤ p.top
  pub from_right : of_px p.left +ℤ pos (size.width + 128 * m) ≤ℤ pos (view.width + 64)
  pub from_bottom : of_px p.top +ℤ pos (size.height + 128 * m) ≤ℤ pos (view.height + 64)

-- One axis of the box.
axis_low :
    (v : ℤ) (size view m : ℕ) → pos m ≤ℤ round (clamp v (px m) (pos view -ℤ pos size -ℤ px m))
axis_low v size view m = round_px_low m _ (clamp_low v (px m) _)

axis_high :
    (v : ℤ) (size view m : ℕ)
    → size + 256 * m ≤ view
    → of_px (round (clamp v (px m) (pos view -ℤ pos size -ℤ px m))) +ℤ pos (size + 128 * m)
      ≤ℤ pos (view + 64)
axis_high v size view m h =
    let high = pos view -ℤ pos size -ℤ px m in
    let kept = clamp v (px m) high in
    let high1 = -ℤ_parts (pos view) (pos size) in
    let high2 = -ℤ_parts (pos view -ℤ pos size) (px m) in
    let below : kept ≤ℤ high = clamp_high v (px m) high (grind arith) in
    let near = round_high kept in
    let near1 = +ℤ_parts kept (pos 64) in
    let sum = +ℤ_parts (of_px (round kept)) (pos (size + 128 * m)) in grind arith

-- A box that the viewport has room for, margins included, is placed inside the margins, at the far
-- edges to within half a pixel.
pub place_floating-IsOnScreen :
    (rect : Rect) (size : Size) (gap : ℕ) (view : Size) (m : ℕ) (side : Option Side)
    → size.width + 256 * m ≤ view.width
    → size.height + 256 * m ≤ view.height
    → IsOnScreen size view m (place_floating rect size gap view (128 * m) side)
unfolding place_floating box_left box_top
place_floating-IsOnScreen rect size gap view m side w h =
    let s = side_for rect size gap view (128 * m) side in
    record {
      from_left = axis_low (raw_left rect size gap view (128 * m) s) size.width view.width m;
      from_top = axis_low (raw_top rect size gap view (128 * m) s) size.height view.height m;
      from_right = axis_high (raw_left rect size gap view (128 * m) s) size.width view.width m w;
      from_bottom = axis_high (raw_top rect size gap view (128 * m) s) size.height view.height m h;
    }
