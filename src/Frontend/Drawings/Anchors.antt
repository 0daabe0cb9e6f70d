-- ===== src/Frontend/Drawings/Anchors.antt =====
-- `anchorAt`, `indexOf` and `shiftPoint` of frontend/src/lib/drawings/useDrawings.js: between a
-- fractional bar index and the anchor {time, off} of a point. Positions are counted in thousandths
-- of a bar, the precision that `anchorAt` rounds to.
pub mod Laws
use stock_dashboard.Prelude.{
  ℕ, suc, ◌+◌, ◌-◌, ◌*◌, ◌/◌, min, ◌≡◌, Bool, true, Option, none, some, List, [], ◌∷◌, ◌==◌,
  if◌then◌else◌, length, get_elem?,
}
use stock_dashboard.Prelude.Int.{ℤ, pos, pos_part, neg_part, sub_ℕ, ◌+ℤ◌, ◌-ℤ◌}

-- `Math.round` to whole bars, which rounds a half upwards.
unfoldable pub round_bars : ℤ → ℤ
round_bars m = sub_ℕ ((pos_part m + 500) / 1000 * 1000) ((neg_part m + 499) / 1000 * 1000)

pub record Anchor : Type 0 where
  pub time : ℕ
  pub off : ℤ

-- The bar's index, from the times of the bars on screen. `new Map` keeps the last of equal keys.
abbrev pub index_from : ℕ → ℕ → List ℕ → Option ℕ
index_from i time [] = none
index_from i time (t ∷ ts) = elim (index_from (suc i) time ts) [
  | none ↦ if t == time then some i else none
  | some j ↦ some j
]

unfoldable pub index_of : ℕ → List ℕ → Option ℕ
index_of time bars = index_from 0 time bars

-- The nearest bar, within the bars.
abbrev pub nearest : ℕ → ℤ → ℕ
nearest last logical = min last ((pos_part logical + 500) / 1000)

-- `anchorAt(logical, fractional)`, for a position in whole thousandths of a bar, on which the rounding
-- of an offset to thousandths changes nothing. It is called here on sums of positions of anchors and
-- whole distances between them; the anchor of a pixel comes with the pointer event.
unfoldable pub anchor_at : List ℕ → ℤ → Bool → Option Anchor
unfolding round_bars
anchor_at bars logical fractional =
    let idx = nearest (length bars - 1) logical in
    let off = logical -ℤ pos (1000 * idx) in
    elim (get_elem? bars idx) [
      | none ↦ none
      | some time ↦ some (record { time = time; off = if fractional then off else round_bars off })
    ]

-- The position of an anchor, where its bar is on screen.
unfoldable pub position : List ℕ → Anchor → Option ℤ
position bars a = elim (index_of a.time bars) [
  | none ↦ none
  | some i ↦ some (pos (1000 * i) +ℤ a.off)
]

-- `shiftPoint` without the price; an anchor whose bar is not on screen stays.
unfoldable pub shift : List ℕ → Anchor → ℤ → Anchor
unfolding position anchor_at
shift bars a delta = elim (position bars a) [
  | none ↦ a
  | some p ↦ elim (anchor_at bars (p +ℤ delta) true) [ none ↦ a | some moved ↦ moved ]
]

-- The bars have distinct times.
abbrev pub IsDistinct : List ℕ → Type 0
IsDistinct bars = (i j : ℕ) (t : ℕ) → get_elem? bars i ≡ some t → get_elem? bars j ≡ some t → i ≡ j
