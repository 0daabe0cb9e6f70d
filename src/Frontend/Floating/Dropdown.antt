-- ===== src/Frontend/Floating/Dropdown.antt =====
-- What `dropdownStyle` of floating.js promises: a menu opens where there is room.
use stock_dashboard.Prelude.{ℕ, ◌⊎◌, arith}
use stock_dashboard.Frontend.Floating.{
  pos, viewport_margin, px, Rect, bottom, Align, roomy, room_end, room_start, dropdown_side,
  edge_of, dropdown_style,
}
use stock_dashboard.Frontend.Floating.Round.{of_px, round_low}
use stock_dashboard.Prelude.Int.{◌+ℤ◌, ◌≤ℤ◌}

-- An end that has room for a menu, or more room than the other end.
pub HasRoom : Rect → ℕ → Align → Type 0
HasRoom r inner_width Align.at_end =
    (px roomy ≤ℤ room_end r inner_width) ⊎ (room_start r inner_width ≤ℤ room_end r inner_width)
HasRoom r inner_width Align.at_start =
    (px roomy ≤ℤ room_start r inner_width) ⊎ (room_end r inner_width ≤ℤ room_start r inner_width)
HasRoom r inner_width Align.elsewhere = Unit

dropdown_side-HasRoom :
    (r : Rect) (inner_width : ℕ) (align : Align)
    → HasRoom r inner_width (dropdown_side r inner_width align)
unfolding HasRoom dropdown_side
dropdown_side-HasRoom r inner_width Align.at_start = ground arith
dropdown_side-HasRoom r inner_width Align.at_end = ground arith
dropdown_side-HasRoom r inner_width Align.elsewhere = tt

edge_low :
    (r : Rect) (inner_width : ℕ) (side : Align) → px viewport_margin ≤ℤ edge_of r inner_width side
unfolding edge_of
edge_low r inner_width Align.at_start = ground arith
edge_low r inner_width Align.at_end = ground arith
edge_low r inner_width Align.elsewhere = ground arith

-- A menu's anchored edge keeps the margin of the viewport, its greatest width and height leave
-- the other edge on screen to within half a pixel, and it opens on an end with room for 360 pixels
-- or with at least as much room as the other end.
pub dropdown_style_fits :
    (r : Rect) (inner_width : ℕ) (align : Align) (gap : ℕ)
    → let style = dropdown_style r inner_width align gap in
      HasRoom r inner_width style.side
      × (px viewport_margin ≤ℤ style.edge)
      × (style.edge ≤ℤ of_px style.max_width +ℤ pos 64)
      × (bottom r +ℤ pos gap ≤ℤ of_px style.max_height +ℤ pos 64)
unfolding dropdown_style
dropdown_style_fits r inner_width align gap = (
  dropdown_side-HasRoom r inner_width align,
  edge_low r inner_width (dropdown_side r inner_width align),
  round_low (edge_of r inner_width (dropdown_side r inner_width align)),
  round_low (bottom r +ℤ pos gap),
)
