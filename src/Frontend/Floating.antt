-- ===== src/Frontend/Floating.antt =====
-- frontend/src/lib/floating.js: where a menu or a tooltip stands beside its anchor. A coordinate is
-- counted in 128ths of a CSS pixel, so that half of a browser's 64th is a whole number; a result
-- that the code passes through `Math.round` is in pixels.
mod Round
pub mod Laws
pub mod Beside
pub mod Dropdown
mod Tests
use stock_dashboard.Prelude.{
  ℕ, ◌*◌, ◌/◌, Bool, true, false, not, ◌&&◌, Option, none, some, if◌then◌else◌,
}
use stock_dashboard.Prelude.Int.{ℤ, pos, negsuc, ◌+ℤ◌, ◌-ℤ◌, leb_ℤ, min_ℤ, max_ℤ}

abbrev pub viewport_margin : ℕ
viewport_margin = 8

abbrev pub px : ℕ → ℤ
px n = pos (128 * n)

-- `Math.round`, which takes a half upwards: the floor of a half more.
abbrev floor_px : ℤ → ℤ
floor_px (pos n) = pos (n / 128)
floor_px (negsuc n) = negsuc (n / 128)

unfoldable pub round : ℤ → ℤ
round x = floor_px (x +ℤ pos 64)

unfoldable pub clamp : ℤ → ℤ → ℤ → ℤ
clamp v lo hi = min_ℤ (max_ℤ v lo) (max_ℤ lo hi)

-- A DOMRect: `right` is `left + width` and `bottom` is `top + height`.
pub record Rect : Type 0 where
  pub top : ℤ
  pub left : ℤ
  pub width : ℕ
  pub height : ℕ

abbrev pub right : Rect → ℤ
right r = r.left +ℤ pos r.width

abbrev pub bottom : Rect → ℤ
bottom r = r.top +ℤ pos r.height

pub record Size : Type 0 where
  pub width : ℕ
  pub height : ℕ

pub data Side : Type 0 where
  on_top on_bottom on_left on_right : Side

abbrev pub opposite : Side → Side
opposite Side.on_top = Side.on_bottom
opposite Side.on_bottom = Side.on_top
opposite Side.on_left = Side.on_right
opposite Side.on_right = Side.on_left

abbrev pub is_vertical : Side → Bool
is_vertical Side.on_top = true
is_vertical Side.on_bottom = true
is_vertical Side.on_left = false
is_vertical Side.on_right = false

pub record Placed : Type 0 where
  pub top : ℤ
  pub left : ℤ
  pub side : Side
  pub arrow : ℤ

-- The anchor, the box, the gap between them, the viewport and its margin.
module _ (rect : Rect) (size : Size) (gap : ℕ) (view : Size) (margin : ℕ) where
  -- The edge of the box that the side decides, before it is kept inside the viewport.
  abbrev pub beside : Side → ℤ
  beside Side.on_top = rect.top -ℤ pos gap -ℤ pos size.height
  beside Side.on_bottom = bottom rect +ℤ pos gap
  beside Side.on_left = rect.left -ℤ pos gap -ℤ pos size.width
  beside Side.on_right = right rect +ℤ pos gap

  unfoldable pub fits : Side → Bool
  fits Side.on_top = leb_ℤ (pos margin) (beside Side.on_top)
  fits Side.on_bottom =
      leb_ℤ (beside Side.on_bottom +ℤ pos size.height) (pos view.height -ℤ pos margin)
  fits Side.on_left = leb_ℤ (pos margin) (beside Side.on_left)
  fits Side.on_right = leb_ℤ (beside Side.on_right +ℤ pos size.width) (pos view.width -ℤ pos margin)

  abbrev pub flipped : Side → Side
  flipped s = if not (fits s) && fits (opposite s) then opposite s else s

  abbrev pub fallback : Side → Side
  fallback s =
      if not (is_vertical s) && not (fits s)
      then (if fits Side.on_top then Side.on_top else Side.on_bottom)
      else s

  -- A text that names no side is `none`.
  unfoldable pub side_for : Option Side → Side
  side_for none = fallback (flipped Side.on_top)
  side_for (some s) = fallback (flipped s)

  abbrev pub center_x : ℤ
  center_x = rect.left +ℤ pos (rect.width / 2)

  abbrev pub center_y : ℤ
  center_y = rect.top +ℤ pos (rect.height / 2)

  abbrev pub raw_top : Side → ℤ
  raw_top s = if is_vertical s then beside s else center_y -ℤ pos (size.height / 2)

  abbrev pub raw_left : Side → ℤ
  raw_left s = if is_vertical s then center_x -ℤ pos (size.width / 2) else beside s

  unfoldable pub box_left : Side → ℤ
  box_left s = clamp (raw_left s) (pos margin) (pos view.width -ℤ pos size.width -ℤ pos margin)

  unfoldable pub box_top : Side → ℤ
  box_top s = clamp (raw_top s) (pos margin) (pos view.height -ℤ pos size.height -ℤ pos margin)

  unfoldable pub arrow_at : Side → ℤ
  arrow_at s =
      if is_vertical s
      then clamp (center_x -ℤ box_left s) (px 10) (pos size.width -ℤ px 10)
      else clamp (center_y -ℤ box_top s) (px 8) (pos size.height -ℤ px 8)

  unfoldable pub place_floating : Option Side → Placed
  place_floating side =
      let s = side_for side in
      record {
        top = round (box_top s);
        left = round (box_left s);
        side = s;
        arrow = round (arrow_at s);
      }

-- `dropdownStyle`: `align` is "start", "end" or another text, which aligns as "start" does.
pub data Align : Type 0 where
  at_start at_end elsewhere : Align

-- `maxHeight` is `calc(100vh - max_height - 16px)`, `maxWidth` is
-- `calc(100vw - max_width - VIEWPORT_MARGIN)`, and `edge` is `right` for an end-aligned menu.
pub record Style : Type 0 where
  pub top : ℤ
  pub max_height : ℤ
  pub max_width : ℤ
  pub side : Align
  pub edge : ℤ

abbrev pub roomy : ℕ
roomy = 360

abbrev pub lt_ℤ : ℤ → ℤ → Bool
lt_ℤ a b = not (leb_ℤ b a)

module _ (r : Rect) (inner_width : ℕ) where
  abbrev pub room_end : ℤ
  room_end = right r -ℤ px viewport_margin

  abbrev pub room_start : ℤ
  room_start = pos inner_width -ℤ r.left -ℤ px viewport_margin

  unfoldable pub dropdown_side : Align → Align
  dropdown_side Align.at_end =
      if lt_ℤ room_end (px roomy) && lt_ℤ room_end room_start then Align.at_start else Align.at_end
  dropdown_side Align.at_start =
      if lt_ℤ room_start (px roomy) && lt_ℤ room_start room_end
      then Align.at_end
      else Align.at_start
  dropdown_side Align.elsewhere = Align.elsewhere

  unfoldable pub edge_of : Align → ℤ
  edge_of Align.at_end = max_ℤ (px viewport_margin) (pos inner_width -ℤ right r)
  edge_of Align.at_start = max_ℤ (px viewport_margin) r.left
  edge_of Align.elsewhere = max_ℤ (px viewport_margin) r.left

  unfoldable pub dropdown_style : Align → ℕ → Style
  dropdown_style align gap =
      let top = bottom r +ℤ pos gap in
      let side = dropdown_side align in
      let edge = edge_of side in
      record { top = top; max_height = round top; max_width = round edge; side = side; edge = edge }
