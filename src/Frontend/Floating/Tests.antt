-- ===== src/Frontend/Floating/Tests.antt =====
-- Runs of frontend/src/lib/floating.js on a window of 800 by 600 pixels, and witnesses.
use stock_dashboard.Prelude.{◌*◌, ◌≡◌, refl, true, some, arith}
use stock_dashboard.Frontend.Floating.{
  pos, px, round, clamp, Rect, Size, Side, Placed, fits, side_for, box_left, box_top, arrow_at,
  place_floating,
}
use stock_dashboard.Frontend.Floating.Laws.{IsOnScreen, place_floating-IsOnScreen}
use stock_dashboard.Frontend.Floating.Beside.{any_fits, IsBeside, place_floating-IsBeside}
use stock_dashboard.Prelude.Int.{◌+ℤ◌, ◌-ℤ◌}

abbrev window : Size
window = record { width = 800 * 128; height = 600 * 128 }

-- A button in the top right corner, and a tooltip of 120 by 30 pixels.
abbrev button : Rect
button = record { top = px 4; left = px 760; width = 32 * 128; height = 32 * 128 }

abbrev tip : Size
tip = record { width = 120 * 128; height = 30 * 128 }

abbrev below_button : Placed
below_button = record { top = pos 44; left = pos 672; side = Side.on_bottom; arrow = pos 104 }

-- It flips to below, and slides left to keep the margin.
flips_below : place_floating button tip (8 * 128) window (8 * 128) (some Side.on_top) ≡ below_button
unfolding place_floating side_for fits box_left box_top arrow_at clamp round ◌+ℤ◌ ◌-ℤ◌
flips_below = refl

fits_below : any_fits button tip (8 * 128) window (8 * 128) Side.on_top ≡ true
unfolding fits ◌+ℤ◌ ◌-ℤ◌
fits_below = refl

place_floating-IsOnScreen_example :
    IsOnScreen tip window 8
      (place_floating button tip (8 * 128) window (8 * 128) (some Side.on_top))
place_floating-IsOnScreen_example =
    place_floating-IsOnScreen button tip (8 * 128) window 8 (some Side.on_top) (omega arith)
      (omega arith)

place_floating-IsBeside_example :
    let p = place_floating button tip (8 * 128) window (8 * 128) (some Side.on_top) in
    IsBeside button tip (8 * 128) p.top p.left p.side
place_floating-IsBeside_example =
    place_floating-IsBeside button tip (8 * 128) window (8 * 128) Side.on_top fits_below
