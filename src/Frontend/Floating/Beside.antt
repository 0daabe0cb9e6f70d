-- ===== src/Frontend/Floating/Beside.antt =====
-- What floating.js promises: a placed box stands beside its anchor.
use stock_dashboard.Prelude.{ℕ, ◌+◌, ◌≡◌, Bool, true, not, ◌&&◌, ◌||◌, some, arith}
use stock_dashboard.Frontend.Floating.{
  pos, round, clamp, Rect, right, bottom, Size, Side, opposite, is_vertical, fits, side_for,
  box_left, box_top, place_floating,
}
use stock_dashboard.Frontend.Floating.Round.{clamp-le, clamp-ge, of_px, round_low, round_high}
use stock_dashboard.Prelude.Int.{ℤ, ◌+ℤ◌, ◌-ℤ◌, ◌≤ℤ◌, leb_ℤ, +ℤ_parts, -ℤ_parts}

-- The sides that are tried for a preferred side.
abbrev pub any_fits : (rect : Rect) (size : Size) (gap : ℕ) (view : Size) (margin : ℕ) → Side → Bool
any_fits rect size gap view margin s =
    let ok = fits rect size gap view margin in
    ok s || ok (opposite s) || (not (is_vertical s) && (ok Side.on_top || ok Side.on_bottom))

module _ (rect : Rect) (size : Size) (gap : ℕ) (view : Size) (margin : ℕ) where
  side_for_first :
      (s : Side)
      → fits rect size gap view margin s ≡ true
      → side_for rect size gap view margin (some s) ≡ s
  unfolding side_for
  side_for_first Side.on_top h = ground arith
  side_for_first Side.on_bottom h = ground arith
  side_for_first Side.on_left h = ground arith
  side_for_first Side.on_right h = ground arith

  side_for-fits :
      (s : Side)
      → any_fits rect size gap view margin s ≡ true
      → fits rect size gap view margin (side_for rect size gap view margin (some s)) ≡ true
  unfolding side_for
  side_for-fits Side.on_top h = ground arith
  side_for-fits Side.on_bottom h = ground arith
  side_for-fits Side.on_left h = ground arith
  side_for-fits Side.on_right h = ground arith

-- The box stands beside its anchor, on the side named, at least `gap` off to within half a pixel.
pub IsBeside : Rect → Size → ℕ → ℤ → ℤ → Side → Type 0
IsBeside rect size gap top left Side.on_top =
    of_px top +ℤ pos (size.height + gap) ≤ℤ rect.top +ℤ pos 64
IsBeside rect size gap top left Side.on_bottom = bottom rect +ℤ pos gap ≤ℤ of_px top +ℤ pos 64
IsBeside rect size gap top left Side.on_left =
    of_px left +ℤ pos (size.width + gap) ≤ℤ rect.left +ℤ pos 64
IsBeside rect size gap top left Side.on_right = right rect +ℤ pos gap ≤ℤ of_px left +ℤ pos 64

-- Keeping a box that fits inside the viewport moves it no nearer to its anchor.
below_low :
    (v hi anchor : ℤ) (n m : ℕ)
    → pos m ≤ℤ v
    → v +ℤ pos n ≤ℤ anchor
    → of_px (round (clamp v (pos m) hi)) +ℤ pos n ≤ℤ anchor +ℤ pos 64
below_low v hi anchor n m low near =
    let kept = clamp v (pos m) hi in
    let under : kept ≤ℤ v = clamp-le v (pos m) hi low in
    let rounded = round_high kept in
    let sum1 = +ℤ_parts kept (pos 64) in
    let sum2 = +ℤ_parts (of_px (round kept)) (pos n) in
    let sum3 = +ℤ_parts anchor (pos 64) in let sum4 = +ℤ_parts v (pos n) in grind arith

above_high : (v lo hi : ℤ) → v ≤ℤ hi → v ≤ℤ of_px (round (clamp v lo hi)) +ℤ pos 64
above_high v lo hi h =
    let kept = clamp v lo hi in
    let over : v ≤ℤ kept = clamp-ge v lo hi h in let rounded = round_low kept in grind arith

-- One axis: a box before its anchor, and one after it.
before_anchor :
    (anchor : ℤ) (gap n view m : ℕ)
    → leb_ℤ (pos m) (anchor -ℤ pos gap -ℤ pos n) ≡ true
    → of_px (round (clamp (anchor -ℤ pos gap -ℤ pos n) (pos m) (pos view -ℤ pos n -ℤ pos m)))
        +ℤ pos (n + gap)
      ≤ℤ anchor +ℤ pos 64
before_anchor anchor gap n view m h =
    let v = anchor -ℤ pos gap -ℤ pos n in
    let d1 = -ℤ_parts anchor (pos gap) in
    let d2 = -ℤ_parts (anchor -ℤ pos gap) (pos n) in
    let d3 = +ℤ_parts v (pos (n + gap)) in
    below_low v (pos view -ℤ pos n -ℤ pos m) anchor (n + gap) m (ground arith) (grind arith)

after_anchor :
    (v : ℤ) (n view m : ℕ)
    → leb_ℤ (v +ℤ pos n) (pos view -ℤ pos m) ≡ true
    → v ≤ℤ of_px (round (clamp v (pos m) (pos view -ℤ pos n -ℤ pos m))) +ℤ pos 64
after_anchor v n view m h =
    let d1 = -ℤ_parts (pos view) (pos n) in
    let d2 = -ℤ_parts (pos view -ℤ pos n) (pos m) in
    let d3 = -ℤ_parts (pos view) (pos m) in
    let d4 = +ℤ_parts v (pos n) in above_high v (pos m) _ (ground arith)

module _ (rect : Rect) (size : Size) (gap : ℕ) (view : Size) (margin : ℕ) where
  fits-IsBeside :
      (s : Side)
      → fits rect size gap view margin s ≡ true
      → IsBeside rect size gap
          (round (box_top rect size gap view margin s))
          (round (box_left rect size gap view margin s))
          s
  unfolding fits box_top box_left IsBeside
  fits-IsBeside Side.on_top h = before_anchor rect.top gap size.height view.height margin h
  fits-IsBeside Side.on_bottom h = after_anchor _ size.height view.height margin h
  fits-IsBeside Side.on_left h = before_anchor rect.left gap size.width view.width margin h
  fits-IsBeside Side.on_right h = after_anchor _ size.width view.width margin h

  -- If the box fits on the preferred side, on the opposite one or, for a preferred left or right,
  -- above or below the anchor, then it is placed beside the anchor, at least `gap` off it to within
  -- half a pixel.
  pub place_floating-IsBeside :
      (s : Side)
      → any_fits rect size gap view margin s ≡ true
      → let p = place_floating rect size gap view margin (some s) in
        IsBeside rect size gap p.top p.left p.side
  unfolding place_floating
  place_floating-IsBeside s h = fits-IsBeside _ (side_for-fits rect size gap view margin s h)
