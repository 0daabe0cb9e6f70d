-- ===== src/Frontend/Drawings/Editor/Events.antt =====
-- The events of the drawing layer, from the pointer, the keyboard and the toolbar, and sessions.
use stock_dashboard.Prelude.{
  ℕ, String, Bool, ◌||◌, Option, none, some, List, [], ◌∷◌, if◌then◌else◌, is_some,
}
use stock_dashboard.Frontend.Drawings.Shapes.{Shape, Prices}
use stock_dashboard.Frontend.Drawings.Tools.{tool_by_shortcut}
use stock_dashboard.Frontend.Drawings.Editor
use stock_dashboard.Frontend.Drawings.Editor.{
  Editor, cancel_pending, is_current, find_shape, delete_shape,
}
use stock_dashboard.Frontend.Drawings.Editor.Pointer.{
  Pointer, pointer_down, pointer_move, pointer_up, double_click,
}

-- The keys that `onKeyDown` handles, with the modifiers decoded.
pub data Key : Type 0 where
  escape ctrl_z ctrl_y delete : Key
  alt : String → Key

module _ {R : Type 0} where
  unfoldable pub press_escape : Editor R → Editor R
  unfolding cancel_pending
  press_escape s =
      if is_some s.pending || is_some s.brush
      then cancel_pending s
      else if is_some s.tool
      then record s { tool = none }
      else record s { selected = none }

  unfoldable pub press_delete : Editor R → Editor R
  unfolding delete_shape
  press_delete s = elim s.selected [
    | none ↦ s
    | some id ↦ elim (find_shape id s.shapes) [
      | none ↦ s
      | some shape ↦ if shape.locked || s.lock_all then s else delete_shape shape.id s
    ]
  ]

  unfoldable pub press_alt : String → Editor R → Editor R
  unfolding cancel_pending
  press_alt letter s = elim (tool_by_shortcut letter) [
    | none ↦ s
    | some key ↦ record (cancel_pending s) {
      editing = none;
      selected = none;
      tool = if is_current s.tool key then none else some key;
    }
  ]

  -- `onKeyDown`, with the pointer over the chart or the focus in it, and not while typing.
  unfoldable pub key_down : Key → Editor R → Editor R
  unfolding press_escape press_delete press_alt Editor.undo Editor.redo
  key_down escape s = press_escape s
  key_down ctrl_z s = Editor.undo s
  key_down ctrl_y s = Editor.redo s
  key_down delete s = press_delete s
  key_down (alt letter) s = press_alt letter s

pub data Event (R : Type 0) : Type 0 where
  down : Pointer R → Event R
  move : Bool → Pointer R → Event R
  -- whether the array on screen is the one of the drag's start
  up : Bool → Event R
  double : Pointer R → Event R
  key : Key → Event R
  choose_tool : Option String → Event R
  select : Option String → Event R
  text : String → Event R
  edit : String → Bool → Event R
  cancel_edit : Event R
  remove : String → Event R
  remove_selected clear undo redo : Event R
  update : String → (Shape R → Shape R) → Event R
  -- whether the array is the one on screen
  replace : Bool → List (Shape R) → Event R
  merge : List String → List (Shape R) → Event R
  lock_all : Bool → Event R
  -- the load begins for a ticker, and resolves with its drawings
  begin_load : Event R
  loaded : List (Shape R) → Event R

module _ (prices : Prices) (bars : List ℕ) where
  open prices use {R}

  unfoldable pub step : Event R → Editor R → Editor R
  unfolding pointer_down pointer_move pointer_up double_click key_down Editor.set_tool
      Editor.commit_text Editor.start_edit Editor.delete_shape Editor.delete_selected
      Editor.clear_all Editor.undo Editor.redo Editor.update_shape Editor.replace_shapes
      Editor.merge_shapes Editor.begin_load Editor.loaded
  step (down p) s = pointer_down prices p s
  step (move is_far p) s = pointer_move prices bars is_far p s
  step (up is_same) s = pointer_up prices is_same s
  step (double p) s = double_click prices p s
  step (key k) s = key_down k s
  step (choose_tool tool) s = Editor.set_tool tool s
  step (select id) s = record s { selected = id }
  step (text value) s = Editor.commit_text value s
  step (edit id on_screen) s = Editor.start_edit id on_screen s
  step cancel_edit s = record s { editing = none }
  step (remove id) s = Editor.delete_shape id s
  step remove_selected s = Editor.delete_selected s
  step clear s = Editor.clear_all s
  step undo s = Editor.undo s
  step redo s = Editor.redo s
  step (update id patch) s = Editor.update_shape id patch s
  step (replace is_same next) s = Editor.replace_shapes is_same next s
  step (merge fresh extra) s = Editor.merge_shapes fresh extra s
  step (lock_all b) s = record s { lock_all = b }
  step begin_load s = Editor.begin_load s
  step (loaded shapes) s = Editor.loaded shapes s

  unfoldable pub run : List (Event R) → Editor R → Editor R
  run [] s = s
  run (e ∷ es) s = run es (step e s)
