-- ===== src/Frontend/Drawings/Editor/Pointer.antt =====
-- The pointer handlers of useDrawings: clicks that build a shape, freehand strokes, and dragging.
use stock_dashboard.Prelude.{
  ℕ, zero, suc, String, Bool, true, false, not, ◌&&◌, ◌||◌, Option, none, some, List, [], ◌∷◌, ◌++◌,
  map, ltb, leb, ◌==◌, if◌then◌else◌, str_eq, length,
}
use stock_dashboard.Prelude.Int.{ℤ, pos, ◌+ℤ◌, ◌-ℤ◌, eq_ℤ}
use stock_dashboard.Frontend.Drawings.Shapes.{Point, Shape, Prices, initial_position, is_position}
use stock_dashboard.Frontend.Drawings.Tools.{points_needed, textual}
use stock_dashboard.Frontend.Drawings.Anchors.{Anchor, round_bars, anchor_at, position, shift}
use stock_dashboard.Frontend.Drawings.Editor.{
  Editor, Drag, commit, commit_from, finish_shape, update_where, has_id, start_edit,
}

-- `findShape`: the shape under the pointer, and the handle that was hit.
pub record Hit (R : Type 0) : Type 0 where
  pub shape : Shape R
  pub handle : Option ℕ

-- What the handlers read of a pointer event: the shape under it, its anchor snapped to a bar, its
-- anchor between bars, the id for a new shape, and whether a text anchor is on screen.
pub record Pointer (R : Type 0) : Type 0 where
  pub hit : Option (Hit R)
  pub snapped : Option (Point R)
  pub fractional : Option (Point R)
  pub fresh_id : String
  pub on_screen : Bool

module _ (prices : Prices) where
  open prices use {R, sub, add, is_zero}

  unfoldable pub press_select : Pointer R → Editor R → Editor R
  press_select p s = elim p.hit [
    | none ↦ record s { selected = none }
    | some hit ↦
        if s.lock_all || hit.shape.locked
        then record s { selected = some hit.shape.id }
        else record s {
          selected = some hit.shape.id;
          drag = some (record {
            id = hit.shape.id;
            handle = hit.handle;
            moved = false;
            last = p.fractional;
            start = s.shapes;
          });
        }
  ]

  abbrev pub blank : String → String → Shape R
  blank id kind = record { id = id; kind = kind; points = []; text = ""; locked = false }

  abbrev pub pending_or : Option (Shape R) → String → String → Shape R
  pending_or none id kind = blank id kind
  pending_or (some pending) id kind = pending

  -- The target and the stop of a position are made from the two clicks.
  abbrev pub final_points : String → List (Point R) → List (Point R)
  final_points kind (p ∷ q ∷ rest) =
      if is_position kind then initial_position prices kind p q else p ∷ q ∷ rest
  final_points kind points = points

  unfoldable pub press_draw : String → Pointer R → Editor R → Editor R
  unfolding finish_shape
  press_draw tool p s = elim p.snapped [
    | none ↦ s
    | some pt ↦
        let pending = pending_or s.pending p.fresh_id tool in
        let points = pending.points ++ pt ∷ [] in
        if leb (points_needed tool) (length points)
        then finish_shape p.on_screen (record pending { points = final_points tool points }) s
        else record s { pending = some (record pending { points = points }) }
  ]

  unfoldable pub press_brush : Pointer R → Editor R → Editor R
  press_brush p s = elim p.fractional [
    | none ↦ s
    | some pt ↦ record s { brush = some (record (blank p.fresh_id "brush") { points = pt ∷ [] }) }
  ]

  -- `onPointerDown`, for the primary button
  unfoldable pub pointer_down : Pointer R → Editor R → Editor R
  unfolding press_select press_draw press_brush
  pointer_down p s = elim s.tool [
    | none ↦ press_select p s
    | some tool ↦ if str_eq tool "brush" then press_brush p s else press_draw tool p s
  ]

  abbrev pub set_point : ℕ → Point R → List (Point R) → List (Point R)
  set_point i pt [] = []
  set_point zero pt (p ∷ ps) = pt ∷ ps
  set_point (suc i) pt (p ∷ ps) = p ∷ set_point i pt ps

  -- Another point takes the time of `pt`, and keeps its price.
  abbrev pub share_edge : ℕ → Point R → List (Point R) → List (Point R)
  share_edge i pt [] = []
  share_edge zero pt (p ∷ ps) = record pt { price = p.price } ∷ ps
  share_edge (suc i) pt (p ∷ ps) = p ∷ share_edge i pt ps

  -- The target (1) and the stop (2) share their right edge.
  unfoldable pub drag_handle : ℕ → Point R → Shape R → Shape R
  drag_handle i pt x =
      let other = (if i == 1 then 2 else 1) in
      if is_position x.kind && ltb 0 i
      then record x { points = share_edge other pt (set_point i pt x.points) }
      else record x { points = set_point i pt x.points }

  abbrev pub anchor : Point R → Anchor
  anchor p = record { time = p.time; off = p.off }

  abbrev pub placed_at : Anchor → R → Point R
  placed_at a price = record { time = a.time; off = a.off; price = price }

  module _ (bars : List ℕ) where
    -- `shiftPoint`
    unfoldable pub shift_point : ℤ → R → Point R → Point R
    shift_point delta rise p = placed_at (shift bars (anchor p) delta) (add p.price rise)

    abbrev pub or_anchor : Option Anchor → Anchor → Anchor
    or_anchor none a = a
    or_anchor (some b) a = b

    -- The whole bars and the price between two positions of the pointer, and the anchor from which
    -- the next move counts; nothing where it did not move.
    unfoldable pub drag_step : Point R → Point R → Option (ℤ × R × Point R)
    drag_step last cur = elim (position bars (anchor last)) [
      | none ↦ none
      | some p0 ↦ elim (position bars (anchor cur)) [
        | none ↦ none
        | some p1 ↦
            let delta = round_bars (p1 -ℤ p0) in
            let rise = sub cur.price last.price in
            if eq_ℤ delta (pos 0) && is_zero rise
            then none
            else some (
              delta,
              rise,
              placed_at (or_anchor (anchor_at bars (p0 +ℤ delta) true) (anchor last)) cur.price,
            )
      ]
    ]

    abbrev pub shift_all : ℤ → R → Shape R → Shape R
    shift_all delta rise x = record x { points = map (shift_point delta rise) x.points }

    abbrev pub steps : Option (Point R) → Option (Point R) → Option (ℤ × R × Point R)
    steps none cur = none
    steps (some last) none = none
    steps (some last) (some cur) = drag_step last cur

    -- The dragged shape, and where the drag counts from afterwards.
    abbrev pub reshape : Drag R → Pointer R → Shape R → Shape R
    reshape drag p x = elim drag.handle [
      | some i ↦ elim p.snapped [ none ↦ x | some pt ↦ drag_handle i pt x ]
      | none ↦ elim (steps drag.last p.fractional) [
        | none ↦ x
        | some (delta, rise, next) ↦ shift_all delta rise x
      ]
    ]

    abbrev pub next_last : Drag R → Pointer R → Bool → Option (Point R)
    next_last drag p is_there = elim drag.handle [
      | some i ↦ drag.last
      | none ↦ elim (steps drag.last p.fractional) [
        | none ↦ drag.last
        | some (delta, rise, next) ↦ if is_there then some next else drag.last
      ]
    ]

    unfoldable pub move_drag : Drag R → Pointer R → Editor R → Editor R
    unfolding drag_handle shift_point drag_step
    move_drag drag p s = record s {
      shapes = update_where drag.id (reshape drag p) s.shapes;
      drag = some (record drag { moved = true; last = next_last drag p (has_id drag.id s.shapes) });
    }

    abbrev pub extend_stroke : Bool → Shape R → Option (Point R) → Editor R → Editor R
    extend_stroke is_far stroke none s = s
    extend_stroke is_far stroke (some pt) s =
        if not is_far
        then s
        else record s { brush = some (record stroke { points = stroke.points ++ pt ∷ [] }) }

    abbrev pub move_by :
        Bool
        → Pointer R
        → Option (Shape R)
        → Option (Shape R)
        → Option (Drag R)
        → Editor R
        → Editor R
    move_by is_far p (some stroke) pending drag s = extend_stroke is_far stroke p.fractional s
    move_by is_far p none (some pending) drag s = s
    move_by is_far p none none none s = s
    move_by is_far p none none (some drag) s = move_drag drag p s

    -- `onPointerMove`; the flag says that the pointer moved three pixels since the stroke's last
    -- point. A stroke comes first, then the preview of a shape under construction, then a drag.
    unfoldable pub pointer_move : Bool → Pointer R → Editor R → Editor R
    unfolding move_drag
    pointer_move is_far p s = move_by is_far p s.brush s.pending s.drag s

  abbrev pub put_down_stroke : Shape R → Editor R → Editor R
  put_down_stroke stroke s =
      if leb 2 (length stroke.points)
      then commit (s.shapes ++ stroke ∷ []) (record s { brush = none })
      else record s { brush = none }

  abbrev pub put_down_drag : Bool → Drag R → Editor R → Editor R
  put_down_drag is_same drag s =
      if drag.moved
      then commit_from is_same drag.start s.shapes (record s { drag = none })
      else record s { drag = none }

  abbrev pub up_by : Bool → Option (Shape R) → Option (Drag R) → Editor R → Editor R
  up_by is_same (some stroke) drag s = put_down_stroke stroke s
  up_by is_same none none s = s
  up_by is_same none (some drag) s = put_down_drag is_same drag s

  -- `onPointerUp`; the flag says that the array on screen is the one of the drag's start, which it
  -- can be again after a redo during the drag.
  unfoldable pub pointer_up : Bool → Editor R → Editor R
  unfolding commit commit_from
  pointer_up is_same s = up_by is_same s.brush s.drag s

  -- `onDblClick`
  unfoldable pub double_click : Pointer R → Editor R → Editor R
  unfolding start_edit
  double_click p s = elim s.tool [
    | some tool ↦ s
    | none ↦ elim p.hit [
      | none ↦ s
      | some hit ↦
          if textual hit.shape.kind && not s.lock_all && not hit.shape.locked
          then start_edit hit.shape.id p.on_screen s
          else s
    ]
  ]
