-- ===== src/Frontend/Drawings/Shapes.antt =====
-- Anchors and shapes of the drawing layer (frontend/src/lib/drawings/useDrawings.js, geometry.js).
-- Prices are JavaScript numbers: their type and operations are parameters.
use stock_dashboard.Prelude.{
  ℕ, String, Bool, ◌||◌, List, [], ◌∷◌, map, if◌then◌else◌, str_eq, entry,
}
use stock_dashboard.Prelude.Int.{ℤ}

-- The operations on prices that the code uses.
pub record Prices : Type 1 where
  pub R : Type 0
  pub add : R → R → R
  pub sub : R → R → R
  pub neg : R → R
  pub abs : R → R
  -- `x * 0.02` and `x / 2`
  pub two_percent : R → R
  pub half : R → R
  pub is_zero : R → Bool

-- `off` is counted in thousandths of a bar, to which `anchorAt` rounds it; 0 where it is absent.
pub record Point (R : Type 0) : Type 0 where
  pub time : ℕ
  pub off : ℤ
  pub price : R

pub record Shape (R : Type 0) : Type 0 where
  pub id : String
  pub kind : String
  pub points : List (Point R)
  pub text : String
  pub locked : Bool

module _ (prices : Prices) where
  open prices use {R, add, sub, neg, abs, two_percent, half, is_zero}

  -- geometry.js `initialPosition`: entry, target and stop.
  unfoldable pub initial_position : String → Point R → Point R → List (Point R)
  initial_position kind entry second =
      let gap = abs (sub second.price entry.price) in
      let reward = (if is_zero gap then two_percent (abs entry.price) else gap) in
      let signed = (if str_eq kind "short" then neg reward else reward) in
      entry
      ∷ record second { price = add entry.price signed }
      ∷ record second { price = sub entry.price (half signed) }
      ∷ []

abbrev pub is_position : String → Bool
is_position kind = str_eq kind "long" || str_eq kind "short"

abbrev pub ids : {R : Type 0} → List (Shape R) → List String
ids shapes = map (λ s. s.id) shapes
