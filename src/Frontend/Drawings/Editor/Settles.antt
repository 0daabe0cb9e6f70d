-- ===== src/Frontend/Drawings/Editor/Settles.antt =====
-- What each handler of the drawing layer does to the drawings, the stored copy and the history: it
-- leaves all of them alone, or it commits.
use stock_dashboard.Prelude.{
  ℕ, ◌≤◌, String, ◌≡◌, refl, ◌⊎◌, inl, inr, Bool, true, false, not, ◌&&◌, ◌||◌, Option, none, some,
  List, [], ◌∷◌, ◌++◌, arith, leb, if◌then◌else◌, str_eq, length, take, length-take, is_some,
}
use stock_dashboard.Frontend.Drawings.Shapes.{Shape, Point, Prices}
use stock_dashboard.Frontend.Drawings.Tools.{tool_by_shortcut, textual, points_needed}
use stock_dashboard.Frontend.Drawings.Editor.{
  Editor, Editing, history_limit, commit, cancel_pending, find_shape, is_current, start_edit,
  commit_text, commit_edit, finish_shape, open_editor, delete_shape, delete_selected, set_tool,
  clear_all, update_shape, merge_shapes,
}
use stock_dashboard.Frontend.Drawings.Editor.Pointer.{
  Pointer, Hit, press_draw, press_brush, double_click, pending_or, final_points, blank,
  put_down_stroke, extend_stroke,
}
use stock_dashboard.Frontend.Drawings.Editor.Events.{press_escape, press_delete, press_alt}

module _ {R : Type 0} where
  pub record IsQuiet (s t : Editor R) : Type 0 where
    pub shapes : t.shapes ≡ s.shapes
    pub stored : t.stored ≡ s.stored
    pub past : t.past ≡ s.past
    pub future : t.future ≡ s.future
    pub drag : t.drag ≡ s.drag

  pub record IsCommitted (s t : Editor R) : Type 0 where
    pub shapes : t.shapes ≡ t.stored
    pub past : length t.past ≤ history_limit
    pub future : t.future ≡ []
    pub drag : t.drag ≡ s.drag

  abbrev pub Settles : Editor R → Editor R → Type 0
  Settles s t = IsQuiet s t ⊎ IsCommitted s t

  module _ (s : Editor R) where
    -- Only the state of the interface changes.
    pub ui-Settles :
        (tool selected : Option String) (pending brush : Option (Shape R))
        (editing : Option (Editing R)) (lock : Bool)
        → Settles s (record s {
          tool = tool;
          selected = selected;
          pending = pending;
          brush = brush;
          editing = editing;
          lock_all = lock;
        })
    ui-Settles tool selected pending brush editing lock =
        inl (record { shapes = refl; stored = refl; past = refl; future = refl; drag = refl })

    -- A commit of the next drawings, whatever else changes.
    pub committed :
        (next : List (Shape R)) (tool selected : Option String) (pending brush : Option (Shape R))
        (editing : Option (Editing R)) (lock : Bool)
        → Settles s (record s {
          tool = tool;
          shapes = next;
          selected = selected;
          past = take history_limit (s.shapes ∷ s.past);
          future = [];
          pending = pending;
          brush = brush;
          editing = editing;
          lock_all = lock;
          stored = next;
          has_saved = true;
        })
    committed next tool selected pending brush editing lock = inr (record {
      shapes = refl;
      past = omega (arith, length-take history_limit (s.shapes ∷ s.past));
      future = refl;
      drag = refl;
    })

    pub quiet : Settles s s
    quiet = ui-Settles _ _ _ _ _ _

    pub if-Settles :
        (b : Bool) {x y : Editor R} → Settles s x → Settles s y → Settles s (if b then x else y)
    if-Settles true h k = h
    if-Settles false h k = k

  pub open_editor-Settles :
      (x : Shape R) (a b : Bool) (s : Editor R) → Settles s (open_editor x a b s)
  unfolding open_editor
  open_editor-Settles x a b s = if-Settles s (not b) (quiet s) (ui-Settles s _ _ _ _ _ _)

  pub start_edit-Settles : (id : String) (b : Bool) (s : Editor R) → Settles s (start_edit id b s)
  unfolding start_edit
  start_edit-Settles id b s = go (find_shape id s.shapes)
    where
      go :
          (o : Option (Shape R))
          → Settles s (elim o [
            | none ↦ s
            | some shape ↦ if textual shape.kind then open_editor shape false b s else s
          ])
      go none = quiet s
      go (some shape) =
          if-Settles s (textual shape.kind) (open_editor-Settles shape false b s) (quiet s)

  commit_edit-Settles :
      (v : String) (o : Option (Editing R)) (s : Editor R)
      → Settles s (commit_edit v o (record s { editing = none }))
  unfolding commit
  commit_edit-Settles v none s = ui-Settles s _ _ _ _ _ _
  commit_edit-Settles v (some ed) s =
      if-Settles s ed.is_fresh
        (if-Settles s (str_eq v "") (ui-Settles s _ _ _ _ _ _) (committed s _ _ _ _ _ _ _))
        (if-Settles s (not (str_eq v "") && not (str_eq v ed.shape.text))
          (committed s _ _ _ _ _ _ _) (ui-Settles s _ _ _ _ _ _))

  pub commit_text-Settles : (v : String) (s : Editor R) → Settles s (commit_text v s)
  unfolding commit_text
  commit_text-Settles v s = commit_edit-Settles v s.editing s

  pub finish_shape-Settles :
      (b : Bool) (x : Shape R) (s : Editor R) → Settles s (finish_shape b x s)
  unfolding finish_shape
  finish_shape-Settles b x s =
      if-Settles s (textual x.kind)
        (if-Settles s (not b) (ui-Settles s _ _ _ _ _ _) (ui-Settles s _ _ _ _ _ _))
        (committed s _ _ _ _ _ _ _)

  pub delete_shape-Settles : (id : String) (s : Editor R) → Settles s (delete_shape id s)
  unfolding delete_shape
  delete_shape-Settles id s = if-Settles s (str_eq id "") (quiet s) (
      if-Settles s (is_current s.selected id) (committed s _ _ _ _ _ _ _)
        (committed s _ _ _ _ _ _ _))

  pub delete_selected-Settles : (s : Editor R) → Settles s (delete_selected s)
  unfolding delete_selected
  delete_selected-Settles s = go s.selected
    where
      go : (o : Option String) → Settles s (elim o [ none ↦ s | some id ↦ delete_shape id s ])
      go none = quiet s
      go (some id) = delete_shape-Settles id s

  pub clear_all-Settles : (s : Editor R) → Settles s (clear_all s)
  unfolding clear_all
  clear_all-Settles s = committed s _ _ _ _ _ _ _

  pub update_shape-Settles :
      (id : String) (f : Shape R → Shape R) (s : Editor R) → Settles s (update_shape id f s)
  unfolding update_shape
  update_shape-Settles id f s = committed s _ _ _ _ _ _ _

  pub merge_shapes-Settles :
      (fresh : List String) (extra : List (Shape R)) (s : Editor R)
      → Settles s (merge_shapes fresh extra s)
  unfolding merge_shapes
  merge_shapes-Settles fresh extra s = committed s _ _ _ _ _ _ _

  pub set_tool-Settles : (tool : Option String) (s : Editor R) → Settles s (set_tool tool s)
  unfolding set_tool
  set_tool-Settles none s = ui-Settles s _ _ _ _ _ _
  set_tool-Settles (some key) s = ui-Settles s _ _ _ _ _ _

  pub press_delete-Settles : (s : Editor R) → Settles s (press_delete s)
  unfolding press_delete
  press_delete-Settles s = go s.selected
    where
      found :
          (o : Option (Shape R))
          → Settles s (elim o [
            | none ↦ s
            | some shape ↦ if shape.locked || s.lock_all then s else delete_shape shape.id s
          ])
      found none = quiet s
      found (some shape) =
          if-Settles s (shape.locked || s.lock_all) (quiet s) (delete_shape-Settles shape.id s)

      go :
          (o : Option String)
          → Settles s (elim o [
            | none ↦ s
            | some id ↦ elim (find_shape id s.shapes) [
              | none ↦ s
              | some shape ↦ if shape.locked || s.lock_all then s else delete_shape shape.id s
            ]
          ])
      go none = quiet s
      go (some id) = found (find_shape id s.shapes)

  pub press_escape-Settles : (s : Editor R) → Settles s (press_escape s)
  unfolding press_escape
  press_escape-Settles s =
      if-Settles s (is_some s.pending || is_some s.brush) (ui-Settles s _ _ _ _ _ _)
        (if-Settles s (is_some s.tool) (ui-Settles s _ _ _ _ _ _) (ui-Settles s _ _ _ _ _ _))

  pub press_alt-Settles : (letter : String) (s : Editor R) → Settles s (press_alt letter s)
  unfolding press_alt
  press_alt-Settles letter s = go (tool_by_shortcut letter)
    where
      go :
          (o : Option String)
          → Settles s (elim o [
            | none ↦ s
            | some key ↦ record (cancel_pending s) {
              editing = none;
              selected = none;
              tool = if is_current s.tool key then none else some key;
            }
          ])
      go none = quiet s
      go (some key) = ui-Settles s _ _ _ _ _ _

module _ (prices : Prices) where
  open prices use {R}

  pub press_draw-Settles :
      (tool : String) (p : Pointer R) (s : Editor R) → Settles s (press_draw prices tool p s)
  unfolding press_draw
  press_draw-Settles tool p s = go p.snapped
    where
      go :
          (o : Option (Point R))
          → Settles s (elim o [
            | none ↦ s
            | some pt ↦
                let pending = pending_or prices s.pending p.fresh_id tool in
                let points = pending.points ++ pt ∷ [] in
                if leb (points_needed tool) (length points)
                then finish_shape p.on_screen
                    (record pending { points = final_points prices tool points })
                    s
                else record s { pending = some (record pending { points = points }) }
          ])
      go none = quiet s
      go (some pt) =
          let pending = pending_or prices s.pending p.fresh_id tool in
          let points = pending.points ++ pt ∷ [] in
          if-Settles s (leb (points_needed tool) (length points))
            (finish_shape-Settles p.on_screen
              (record pending { points = final_points prices tool points }) s)
            (ui-Settles s _ _ _ _ _ _)

  pub press_brush-Settles : (p : Pointer R) (s : Editor R) → Settles s (press_brush prices p s)
  unfolding press_brush
  press_brush-Settles p s = go p.fractional
    where
      go :
          (o : Option (Point R))
          → Settles s (elim o [
            | none ↦ s
            | some pt ↦ record s {
              brush = some (record (blank prices p.fresh_id "brush") { points = pt ∷ [] });
            }
          ])
      go none = quiet s
      go (some pt) = ui-Settles s _ _ _ _ _ _

  pub double_click-Settles : (p : Pointer R) (s : Editor R) → Settles s (double_click prices p s)
  unfolding double_click
  double_click-Settles p s = go s.tool p.hit
    where
      go :
          (t : Option String) (h : Option (Hit R))
          → Settles s (elim t [
            | some tool ↦ s
            | none ↦ elim h [
              | none ↦ s
              | some hit ↦
                  if textual hit.shape.kind && not s.lock_all && not hit.shape.locked
                  then start_edit hit.shape.id p.on_screen s
                  else s
            ]
          ])
      go (some tool) h = quiet s
      go none none = quiet s
      go none (some hit) =
          if-Settles s (textual hit.shape.kind && not s.lock_all && not hit.shape.locked)
            (start_edit-Settles hit.shape.id p.on_screen s) (quiet s)

  pub put_down_stroke-Settles :
      (stroke : Shape R) (s : Editor R) → Settles s (put_down_stroke prices stroke s)
  unfolding commit
  put_down_stroke-Settles stroke s =
      if-Settles s (leb 2 (length stroke.points)) (committed s _ _ _ _ _ _ _)
        (ui-Settles s _ _ _ _ _ _)

  pub extend_stroke-Settles :
      (bars : List ℕ) (far : Bool) (stroke : Shape R) (o : Option (Point R)) (s : Editor R)
      → Settles s (extend_stroke prices bars far stroke o s)
  extend_stroke-Settles bars far stroke none s = quiet s
  extend_stroke-Settles bars far stroke (some pt) s =
      if-Settles s (not far) (quiet s) (ui-Settles s _ _ _ _ _ _)
