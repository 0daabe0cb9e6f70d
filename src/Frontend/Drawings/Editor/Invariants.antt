-- ===== src/Frontend/Drawings/Editor/Invariants.antt =====
-- Invariants of the drawing layer over any sequence of events: the bounded history, and that what is
-- on screen is what was stored.
use stock_dashboard.Prelude.{
  ℕ, ◌+◌, ◌≤◌, String, ◌≡◌, refl, sym, ap, ◌∙◌, inl, inr, Bool, true, false, ◌||◌, Option, none,
  some, List, [], ◌∷◌, arith, if◌then◌else◌, str_eq, length, length-take,
}
use stock_dashboard.Frontend.Drawings.Shapes.{Shape, Prices}
use stock_dashboard.Frontend.Drawings.Editor.{
  Editor, Drag, history_limit, commit, commit_from, replace_shapes, begin_load, loaded, undo, redo,
  undo_to, redo_to,
}
use stock_dashboard.Frontend.Drawings.Editor.Pointer.{
  Pointer, Hit, press_select, press_draw, press_brush, put_down_drag, move_by, up_by, pointer_down,
  pointer_move, move_drag, pointer_up,
}
use stock_dashboard.Frontend.Drawings.Editor.Events.{
  Event, down, move, up, double, key, choose_tool, select, text, edit, cancel_edit, remove,
  remove_selected, clear, update, replace, merge, lock_all, escape, ctrl_z, ctrl_y, delete, alt,
  key_down, step, run,
}
use stock_dashboard.Frontend.Drawings.Editor.Settles

module _ {R : Type 0} where
  -- Undo and redo share one limit.
  abbrev pub Fits : Editor R → Type 0
  Fits s = length s.past + length s.future ≤ history_limit

  -- Where nothing is being dragged, or the drag has not moved yet, the drawings are the stored ones.
  abbrev pub is_moving : Option (Drag R) → Bool
  is_moving none = false
  is_moving (some drag) = drag.moved

  abbrev pub IsStored : Editor R → Type 0
  IsStored s = is_moving s.drag ≡ false → s.shapes ≡ s.stored

  pub record IsValid (s : Editor R) : Type 0 where
    pub fits : Fits s
    pub is_stored : IsStored s

  Settles-IsValid : {s t : Editor R} → Settles.Settles s t → IsValid s → IsValid t
  Settles-IsValid (inl q) v = record {
    fits = rw (q.past, q.future) v.fits;
    is_stored = λ m. q.shapes ∙ v.is_stored (ap is_moving (sym q.drag) ∙ m) ∙ sym q.stored;
  }
  Settles-IsValid (inr c) v = record {
    fits = rw c.future (omega (arith, c.past));
    is_stored = λ m. c.shapes;
  }

  undo-IsValid : (s : Editor R) → IsValid s → IsValid (undo s)
  unfolding undo
  undo-IsValid s v = go s.past refl
    where
      go : (past : List (List (Shape R))) → s.past ≡ past → IsValid (undo_to past s)
      go [] e = v
      go (p ∷ past) e = record { fits = omega (arith, ap length e, v.fits); is_stored = λ m. refl }

  redo-IsValid : (s : Editor R) → IsValid s → IsValid (redo s)
  unfolding redo
  redo-IsValid s v = go s.future refl
    where
      go : (future : List (List (Shape R))) → s.future ≡ future → IsValid (redo_to future s)
      go [] e = v
      go (p ∷ future) e = record {
        fits = omega (arith, ap length e, v.fits);
        is_stored = λ m. refl;
      }

  -- A commit, whether or not the array is the same.
  commit_from-IsValid :
      (same : Bool) (prev next : List (Shape R)) (s : Editor R)
      → Fits s
      → IsValid (commit_from same prev next s)
  unfolding commit_from
  commit_from-IsValid true prev next s f = record { fits = f; is_stored = λ m. refl }
  commit_from-IsValid false prev next s f = record {
    fits = omega (arith, length-take history_limit (prev ∷ s.past));
    is_stored = λ m. refl;
  }

  replace_shapes-IsValid :
      (same : Bool) (next : List (Shape R)) (s : Editor R)
      → IsValid s
      → IsValid (replace_shapes same next s)
  unfolding replace_shapes
  replace_shapes-IsValid same next s v =
      commit_from-IsValid same s.shapes next (record s { selected = none }) v.fits

  begin_load-IsValid : (s : Editor R) → IsValid (begin_load s)
  unfolding begin_load
  begin_load-IsValid s = record { fits = omega arith; is_stored = λ m. refl }

  loaded-IsValid :
      (shapes : List (Shape R)) (s : Editor R)
      → s.has_saved ≡ false
      → IsValid s
      → IsValid (loaded shapes s)
  unfolding loaded
  loaded-IsValid shapes s h v = record { fits = v.fits; is_stored = λ m. rw h refl }

  -- Drawings that were saved while the load was under way are no longer on screen once it resolves
  -- with others, although they stay stored.
  pub late_load_drops :
      (next shapes : List (Shape R)) (s : Editor R)
      → ((loaded shapes (commit next s)).shapes ≡ shapes)
        × ((loaded shapes (commit next s)).stored ≡ next)
  unfolding loaded commit commit_from
  late_load_drops next shapes s = (refl, refl)

module _ (prices : Prices) (bars : List ℕ) where
  open prices use {R}

  press_select-IsValid :
      (p : Pointer R) (s : Editor R)
      → is_moving s.drag ≡ false
      → IsValid s
      → IsValid (press_select prices p s)
  unfolding press_select
  press_select-IsValid p s m v = go p.hit
    where
      free : s.shapes ≡ s.stored
      free = v.is_stored m

      locks : (b : Bool) {x y : Editor R} → IsValid x → IsValid y → IsValid (if b then x else y)
      locks true h k = h
      locks false h k = k

      go :
          (o : Option (Hit R))
          → IsValid (elim o [
            | none ↦ record s { selected = none }
            | some hit ↦
                if s.lock_all || hit.shape.locked
                then record s { selected = some hit.shape.id }
                else record s {
                  selected = some hit.shape.id;
                  drag = some (record {
                    id = hit.shape.id;
                    handle = hit.handle;
                    moved = false;
                    last = p.fractional;
                    start = s.shapes;
                  });
                }
          ])
      go none = record { fits = v.fits; is_stored = v.is_stored }
      go (some hit) =
          locks (s.lock_all || hit.shape.locked) (record { fits = v.fits; is_stored = v.is_stored })
            (record { fits = v.fits; is_stored = λ n. free })

  pointer_down-IsValid :
      (p : Pointer R) (s : Editor R)
      → is_moving s.drag ≡ false
      → IsValid s
      → IsValid (pointer_down prices p s)
  unfolding pointer_down
  pointer_down-IsValid p s m v = go s.tool
    where
      draws : (b : Bool) {x y : Editor R} → IsValid x → IsValid y → IsValid (if b then x else y)
      draws true h k = h
      draws false h k = k

      go :
          (o : Option String)
          → IsValid (elim o [
            | none ↦ press_select prices p s
            | some tool ↦
                if str_eq tool "brush" then press_brush prices p s else press_draw prices tool p s
          ])
      go none = press_select-IsValid p s m v
      go (some tool) =
          draws (str_eq tool "brush") (Settles-IsValid (Settles.press_brush-Settles prices p s) v)
            (Settles-IsValid (Settles.press_draw-Settles prices tool p s) v)

  move_drag-IsValid :
      (drag : Drag R) (p : Pointer R) (s : Editor R)
      → IsValid s
      → IsValid (move_drag prices bars drag p s)
  unfolding move_drag
  move_drag-IsValid drag p s v = record { fits = v.fits; is_stored = λ m. cc }

  move_by-IsValid :
      (far : Bool) (p : Pointer R) (brush pending : Option (Shape R)) (drag : Option (Drag R))
      (s : Editor R)
      → IsValid s
      → IsValid (move_by prices bars far p brush pending drag s)
  move_by-IsValid far p (some stroke) pending drag s v =
      Settles-IsValid (Settles.extend_stroke-Settles prices bars far stroke p.fractional s) v
  move_by-IsValid far p none (some pending) drag s v = v
  move_by-IsValid far p none none none s v = v
  move_by-IsValid far p none none (some drag) s v = move_drag-IsValid drag p s v

  put_down_drag-IsValid :
      (same : Bool) (drag : Drag R) (s : Editor R)
      → s.drag ≡ some drag
      → IsValid s
      → IsValid (put_down_drag prices same drag s)
  put_down_drag-IsValid same drag s d v = go drag.moved refl
    where
      go :
          (b : Bool)
          → drag.moved ≡ b
          → IsValid (
              if b
              then commit_from same drag.start s.shapes (record s { drag = none })
              else record s { drag = none })
      go true m = commit_from-IsValid same drag.start s.shapes (record s { drag = none }) v.fits
      go false m = record { fits = v.fits; is_stored = λ n. v.is_stored (ap is_moving d ∙ m) }

  pointer_up-IsValid : (same : Bool) (s : Editor R) → IsValid s → IsValid (pointer_up prices same s)
  unfolding pointer_up
  pointer_up-IsValid same s v = go s.brush s.drag refl
    where
      go :
          (brush : Option (Shape R)) (drag : Option (Drag R))
          → s.drag ≡ drag
          → IsValid (up_by prices same brush drag s)
      go (some stroke) drag d = Settles-IsValid (Settles.put_down_stroke-Settles prices stroke s) v
      go none none d = v
      go none (some drag) d = put_down_drag-IsValid same drag s d v

  -- No pointer goes down while another one is dragging, and the load resolves before anything is
  -- saved.
  abbrev pub IsCalm : Event R → Editor R → Type 0
  IsCalm (down p) s = is_moving s.drag ≡ false
  IsCalm (Event.loaded shapes) s = s.has_saved ≡ false
  IsCalm _ s = Unit {0}

  pub step-IsValid :
      (e : Event R) (s : Editor R) → IsCalm e s → IsValid s → IsValid (step prices bars e s)
  unfolding step key_down pointer_move
  step-IsValid (down p) s c v = pointer_down-IsValid p s c v
  step-IsValid (move far p) s c v = move_by-IsValid far p s.brush s.pending s.drag s v
  step-IsValid (up same) s c v = pointer_up-IsValid same s v
  step-IsValid (double p) s c v = Settles-IsValid (Settles.double_click-Settles prices p s) v
  step-IsValid (key escape) s c v = Settles-IsValid (Settles.press_escape-Settles s) v
  step-IsValid (key ctrl_z) s c v = undo-IsValid s v
  step-IsValid (key ctrl_y) s c v = redo-IsValid s v
  step-IsValid (key delete) s c v = Settles-IsValid (Settles.press_delete-Settles s) v
  step-IsValid (key (alt letter)) s c v = Settles-IsValid (Settles.press_alt-Settles letter s) v
  step-IsValid (choose_tool tool) s c v = Settles-IsValid (Settles.set_tool-Settles tool s) v
  step-IsValid (select id) s c v = record { fits = v.fits; is_stored = v.is_stored }
  step-IsValid (text value) s c v = Settles-IsValid (Settles.commit_text-Settles value s) v
  step-IsValid (edit id b) s c v = Settles-IsValid (Settles.start_edit-Settles id b s) v
  step-IsValid cancel_edit s c v = record { fits = v.fits; is_stored = v.is_stored }
  step-IsValid (remove id) s c v = Settles-IsValid (Settles.delete_shape-Settles id s) v
  step-IsValid remove_selected s c v = Settles-IsValid (Settles.delete_selected-Settles s) v
  step-IsValid clear s c v = Settles-IsValid (Settles.clear_all-Settles s) v
  step-IsValid Event.undo s c v = undo-IsValid s v
  step-IsValid Event.redo s c v = redo-IsValid s v
  step-IsValid (update id f) s c v = Settles-IsValid (Settles.update_shape-Settles id f s) v
  step-IsValid (replace same next) s c v = replace_shapes-IsValid same next s v
  step-IsValid (merge fresh extra) s c v =
      Settles-IsValid (Settles.merge_shapes-Settles fresh extra s) v
  step-IsValid (lock_all b) s c v = record { fits = v.fits; is_stored = v.is_stored }
  step-IsValid Event.begin_load s c v = begin_load-IsValid s
  step-IsValid (Event.loaded shapes) s c v = loaded-IsValid shapes s c v

  -- Calm at every step of a session.
  abbrev pub AreCalm : List (Event R) → Editor R → Type 0
  AreCalm [] s = Unit {0}
  AreCalm (e ∷ es) s = IsCalm e s × AreCalm es (step prices bars e s)

  -- Over any session in which no pointer is pressed while a drag has moved and each load resolves
  -- before anything is saved since it began, an editor stays one whose undo and redo together hold at
  -- most 100 states and whose drawings on screen, whenever no drag has moved, are the ones that were
  -- last stored or loaded.
  pub run-IsValid :
      (es : List (Event R)) (s : Editor R)
      → AreCalm es s
      → IsValid s
      → IsValid (run prices bars es s)
  unfolding run
  run-IsValid [] s c v = v
  run-IsValid (e ∷ es) s c v = run-IsValid es _ c.1 (step-IsValid e s c.0 v)

  -- With no tool, no stroke and no lock on all drawings, a press on an unlocked shape replaces any
  -- drag under way: once it is released without a move, what the first drag changed stays on screen
  -- with no record in the history and no write to storage.
  pub second_press_drops :
      (same : Bool) (p : Pointer R) (hit : Hit R) (s : Editor R)
      → s.tool ≡ none
      → s.brush ≡ none
      → s.lock_all ≡ false
      → p.hit ≡ some hit
      → hit.shape.locked ≡ false
      → ((pointer_up prices same (pointer_down prices p s)).shapes ≡ s.shapes)
        × ((pointer_up prices same (pointer_down prices p s)).stored ≡ s.stored)
        × ((pointer_up prices same (pointer_down prices p s)).past ≡ s.past)
        × ((pointer_up prices same (pointer_down prices p s)).drag ≡ none)
  unfolding pointer_down pointer_up press_select
  second_press_drops same p hit s t b l h k = ground arith
