-- ===== src/Frontend/Drawings/Editor.antt =====
-- frontend/src/lib/drawings/useDrawings.js: the drawing state and its pointer, keyboard and menu
-- handlers, for one ticker. What the browser and the chart library answer (the shape under the
-- pointer, the anchor of a pixel, whether the pointer moved three pixels) comes with the event, and
-- so does the random id of a new shape. The draft that is only rendered is left out.
pub mod Pointer
pub mod Events
pub mod History
pub mod Invariants
pub mod Settles
use stock_dashboard.Prelude.{
  ℕ, String, Bool, true, false, not, ◌&&◌, Option, none, some, List, [], ◌∷◌, ◌++◌, map,
  if◌then◌else◌, str_eq, take, filter, any, find?, contains,
}
use stock_dashboard.Frontend.Drawings.Shapes.{Point, Shape, Prices, ids}
use stock_dashboard.Frontend.Drawings.Tools.{textual}

pub record Drag (R : Type 0) : Type 0 where
  pub id : String
  pub handle : Option ℕ
  pub moved : Bool
  pub last : Option (Point R)
  pub start : List (Shape R)

pub record Editing (R : Type 0) : Type 0 where
  pub shape : Shape R
  pub is_fresh : Bool

-- `past` and `future` have the entry that is taken next at their heads. `stored` is the argument of
-- the latest `persistDrawings`, or what was loaded; `has_saved` says that there was such a call since
-- the load began.
pub record Editor (R : Type 0) : Type 0 where
  pub tool : Option String
  pub shapes : List (Shape R)
  pub selected : Option String
  pub past : List (List (Shape R))
  pub future : List (List (Shape R))
  pub pending : Option (Shape R)
  pub brush : Option (Shape R)
  pub drag : Option (Drag R)
  pub editing : Option (Editing R)
  pub lock_all : Bool
  pub stored : List (Shape R)
  pub has_saved : Bool

abbrev pub history_limit : ℕ
history_limit = 100

-- `cur === key`, where no value is null.
abbrev pub is_current : Option String → String → Bool
is_current none key = false
is_current (some cur) key = str_eq cur key

module _ {R : Type 0} where
  -- The load of a ticker's drawings begins, with no drawings and an empty history.
  unfoldable pub begin_load : Editor R → Editor R
  begin_load s = record s { shapes = []; past = []; future = []; stored = []; has_saved = false }

  -- And it resolves: the drawings on screen are the loaded ones, whatever was drawn meanwhile, and
  -- the history stays. They were read before anything that was saved since.
  unfoldable pub loaded : List (Shape R) → Editor R → Editor R
  loaded shapes s = record s { shapes = shapes; stored = if s.has_saved then s.stored else shapes }

  -- `setShapes` and `persist` for the same list.
  abbrev pub show : List (Shape R) → Editor R → Editor R
  show next s = record s { shapes = next; stored = next; has_saved = true }

  -- `commit(next, prev)`, where the flag says that `prev === next`, one array and not a copy.
  unfoldable pub commit_from : Bool → List (Shape R) → List (Shape R) → Editor R → Editor R
  commit_from is_same prev next s =
      if is_same
      then show next s
      else show next (record s { past = take history_limit (prev ∷ s.past); future = [] })

  -- `commit(next)`, where `next` is a new array.
  unfoldable pub commit : List (Shape R) → Editor R → Editor R
  unfolding commit_from
  commit next s = commit_from false s.shapes next s

  abbrev pub has_id : String → List (Shape R) → Bool
  has_id id shapes = any (λ s. str_eq s.id id) shapes

  abbrev pub find_shape : String → List (Shape R) → Option (Shape R)
  find_shape id shapes = find? (λ s. str_eq s.id id) shapes

  abbrev pub keep_selected : Option String → List (Shape R) → Option String
  keep_selected none shapes = none
  keep_selected (some id) shapes = if has_id id shapes then some id else none

  abbrev pub undo_to : List (List (Shape R)) → Editor R → Editor R
  undo_to [] s = s
  undo_to (prev ∷ rest) s = show prev (record s {
    past = rest;
    future = s.shapes ∷ s.future;
    selected = keep_selected s.selected prev;
  })

  unfoldable pub undo : Editor R → Editor R
  undo s = undo_to s.past s

  abbrev pub redo_to : List (List (Shape R)) → Editor R → Editor R
  redo_to [] s = s
  redo_to (next ∷ rest) s = show next (record s { future = rest; past = s.shapes ∷ s.past })

  unfoldable pub redo : Editor R → Editor R
  redo s = redo_to s.future s

  unfoldable pub cancel_pending : Editor R → Editor R
  cancel_pending s = record s { pending = none; brush = none }

  -- `setTool(t)`, where no tool is null: choosing the active tool again puts it down.
  unfoldable pub set_tool : Option String → Editor R → Editor R
  unfolding cancel_pending
  set_tool none s = record (cancel_pending s) { editing = none; tool = none }
  set_tool (some key) s = record (cancel_pending s) {
    editing = none;
    tool = if is_current s.tool key then none else some key;
    selected = none;
  }

  -- `openEditor`: nothing opens where the anchor has no place on screen.
  unfoldable pub open_editor : Shape R → Bool → Bool → Editor R → Editor R
  open_editor shape is_fresh on_screen s =
      if not on_screen
      then s
      else record s { editing = some (record { shape = shape; is_fresh = is_fresh }) }

  -- `startEdit(id)`
  unfoldable pub start_edit : String → Bool → Editor R → Editor R
  unfolding open_editor
  start_edit id on_screen s = elim (find_shape id s.shapes) [
    | none ↦ s
    | some shape ↦ if textual shape.kind then open_editor shape false on_screen s else s
  ]

  -- A change of the shapes with one id.
  abbrev pub update_where : String → (Shape R → Shape R) → List (Shape R) → List (Shape R)
  update_where id f shapes = map (λ s. if str_eq s.id id then f s else s) shapes

  -- The text of the inline editor, trimmed.
  abbrev pub commit_edit : String → Option (Editing R) → Editor R → Editor R
  commit_edit value none s = s
  commit_edit value (some ed) s =
      let named = record (ed.shape) { text = value } in
      if ed.is_fresh
      then (if str_eq value ""
          then s
          else record (commit (s.shapes ++ named ∷ []) s) { selected = some ed.shape.id })
      else if not (str_eq value "") && not (str_eq value ed.shape.text)
      then commit (update_where ed.shape.id (λ x. record x { text = value }) s.shapes) s
      else s

  unfoldable pub commit_text : String → Editor R → Editor R
  unfolding commit
  commit_text value s = commit_edit value s.editing (record s { editing = none })

  -- `finishShape`: a text shape first asks for its text.
  unfoldable pub finish_shape : Bool → Shape R → Editor R → Editor R
  unfolding commit cancel_pending open_editor
  finish_shape on_screen shape s =
      let idle = record (cancel_pending s) { tool = none } in
      if textual shape.kind
      then open_editor shape true on_screen idle
      else record (commit (idle.shapes ++ shape ∷ []) idle) { selected = some shape.id }

  unfoldable pub delete_shape : String → Editor R → Editor R
  unfolding commit
  delete_shape id s =
      let next = commit (filter (λ x. not (str_eq x.id id)) s.shapes) s in
      if str_eq id ""
      then s
      else if is_current s.selected id
      then record next { selected = none }
      else next

  unfoldable pub delete_selected : Editor R → Editor R
  unfolding delete_shape
  delete_selected s = elim s.selected [ none ↦ s | some id ↦ delete_shape id s ]

  unfoldable pub clear_all : Editor R → Editor R
  unfolding commit
  clear_all s = commit [] (record s { selected = none })

  unfoldable pub update_shape : String → (Shape R → Shape R) → Editor R → Editor R
  unfolding commit
  update_shape id patch s = commit (update_where id patch s.shapes) s

  -- `replaceShapes(next)`: the flag says that the caller passes the very array on screen, as a
  -- second load of the same draft does.
  unfoldable pub replace_shapes : Bool → List (Shape R) → Editor R → Editor R
  unfolding commit_from
  replace_shapes is_same next s = commit_from is_same s.shapes next (record s { selected = none })

  -- Clashing ids are drawn anew; the fresh ids come as a list, one for each added shape.
  abbrev pub rekey : List String → List String → List (Shape R) → List (Shape R)
  rekey taken fresh [] = []
  rekey taken [] (x ∷ extra) = x ∷ rekey taken [] extra
  rekey taken (id ∷ fresh) (x ∷ extra) =
      (if contains x.id taken then record x { id = id } else x) ∷ rekey taken fresh extra

  unfoldable pub merge_shapes : List String → List (Shape R) → Editor R → Editor R
  unfolding commit
  merge_shapes fresh extra s = commit (s.shapes ++ rekey (ids s.shapes) fresh extra) s
