-- ===== src/Frontend/Tooltip/Step.antt =====
-- The handlers, effects and timers of frontend/src/components/Tooltip.jsx. The child's own handlers
-- are not followed, and one pointer moves at a time: it enters again only after it has left.
use stock_dashboard.Prelude.{
  ℕ, String, Bool, true, false, not, ◌&&◌, ◌||◌, Option, none, some, List, [], ◌∷◌, if◌then◌else◌,
}
use stock_dashboard.Frontend.Tooltip.{
  Mode, Props, Tip, Page, is_shown, set_tip, release_group, closed_tip, hide, group_is_warm, show,
}

pub data Event : Type 0 where
  -- `touch` tells whether `pointerType` is "touch".
  pointer_enter : Bool → Option String → Event
  pointer_leave pointer_down : Bool → Event
  pointer_up pointer_cancel blurred tip_enter tip_leave : Event
  clicked : Option String → Event
  -- `visible`: the focus is on the trigger itself and is `:focus-visible`.
  focused : Bool → Option String → Event
  open_fires press_fires : Option String → Event
  close_fires escape down_outside unmount : Event
  rendered : Props → Event

-- A change to the refs and timers of one instance.
abbrev pub update : ℕ → (Tip → Tip) → Page → Page
update i f s = set_tip i (f (s.tips i)) s

abbrev pub is_mode : Mode → Option Mode → Bool
is_mode m none = false
is_mode Mode.hover (some Mode.hover) = true
is_mode Mode.focus (some Mode.focus) = true
is_mode Mode.touch (some Mode.touch) = true
is_mode Mode.click (some Mode.click) = true
is_mode _ _ = false

abbrev pub no_press : Tip → Tip
no_press t = record t { press_timer = none }

abbrev pub no_close : Tip → Tip
no_close t = record t { close_timer = false }

abbrev pub no_open : Tip → Tip
no_open t = record t { open_timer = none }

abbrev pub suppress : Bool → Tip → Tip
suppress b t = record t { suppressed = b }

unfoldable pub on_enter : Bool → Option String → ℕ → ℕ → Page → Page
unfolding show group_is_warm
on_enter true clipped i now s = s
on_enter false clipped i now s =
    let t = s.tips i in
    let s' = update i no_close s in
    if t.is_open || t.suppressed
    then s'
    else (if group_is_warm now s'
        then show t.props Mode.hover clipped i now s'
        else update i (λ u. record u { open_timer = some t.props }) s')

abbrev pub close_if_hovering : Tip → Tip
close_if_hovering t = record t { close_timer = is_mode Mode.hover t.mode || t.close_timer }

unfoldable pub on_leave : Bool → ℕ → Page → Page
on_leave true i s = update i no_press s
on_leave false i s = update i (λ t. close_if_hovering (suppress false (no_open t))) s

unfoldable pub on_down : Bool → ℕ → ℕ → Page → Page
unfolding hide
on_down true i now s = update i (λ t. record t { press_timer = some t.props }) s
on_down false i now s =
    let t = s.tips i in
    let s' = update i (λ u. suppress true (no_open u)) s in
    if t.props.open_on_click then s else (if t.is_open then hide i now s' else s')

unfoldable pub on_click : Option String → ℕ → ℕ → Page → Page
unfolding hide show
on_click clipped i now s =
    let t = s.tips i in
    if t.props.open_on_click
    then (if t.is_open && is_mode Mode.click t.mode
        then hide i now s
        else show t.props Mode.click clipped i now s)
    else (if t.is_open && not (is_mode Mode.touch t.mode) then hide i now s else s)

unfoldable pub on_blur : ℕ → ℕ → Page → Page
unfolding hide
on_blur i now s =
    let t = s.tips i in
    let s' = update i (suppress false) s in
    if is_mode Mode.focus t.mode || is_mode Mode.click t.mode then hide i now s' else s'

-- A timer that is not running does not fire.
unfoldable pub fire : Option Props → Mode → Option String → ℕ → ℕ → Page → Page
unfolding show
fire none how clipped i now s = s
fire (some p) how clipped i now s = show p how clipped i now s

unfoldable pub step : ℕ → ℕ → Event → Page → Page
unfolding on_enter on_leave on_down on_click on_blur fire show hide is_shown release_group
step i now (Event.pointer_enter touch clipped) s = on_enter touch clipped i now s
step i now (Event.pointer_leave touch) s = on_leave touch i s
step i now (Event.pointer_down touch) s = on_down touch i now s
step i now Event.pointer_up s = update i no_press s
step i now Event.pointer_cancel s = update i no_press s
step i now (Event.clicked clipped) s = on_click clipped i now s
step i now (Event.focused true clipped) s =
    show (s.tips i).props Mode.focus clipped i now (update i (suppress false) s)
step i now (Event.focused false clipped) s = s
step i now Event.blurred s = on_blur i now s
step i now Event.tip_enter s = update i no_close s
step i now Event.tip_leave s = update i close_if_hovering s
step i now (Event.open_fires clipped) s =
    fire (s.tips i).open_timer Mode.hover clipped i now (update i no_open s)
step i now (Event.press_fires clipped) s =
    fire (s.tips i).press_timer Mode.touch clipped i now (update i no_press s)
step i now Event.close_fires s = if (s.tips i).close_timer then hide i now s else s
step i now Event.escape s =
    if is_shown (s.tips i) then hide i now (update i (suppress true) s) else s
step i now Event.down_outside s = if is_shown (s.tips i) then hide i now s else s
step i now Event.unmount s = release_group i false now (update i (λ t. closed_tip t) s)
step i now (Event.rendered p) s = update i (λ t. record t { props = p }) s

-- The events of a page: the instance, the clock's reading and what happens.
unfoldable pub run : List (ℕ × ℕ × Event) → Page → Page
unfolding step
run [] s = s
run ((i, now, e) ∷ es) s = run es (step i now e s)

-- Instances that have just been mounted.
abbrev pub initial : (ℕ → Props) → Page
initial props = record {
  tips = λ i. record {
    props = props i;
    is_open = false;
    clipped_text = none;
    mode = none;
    suppressed = false;
    open_timer = none;
    close_timer = false;
    press_timer = none;
  };
  owner = none;
  last_closed_at = 0;
}
