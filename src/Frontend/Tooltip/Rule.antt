-- ===== src/Frontend/Tooltip/Rule.antt =====
-- What a property of the page has to survive for every event of an instance of Tooltip.jsx to keep
-- it: the instance's refs and timers, opening, closing and unmounting.
use stock_dashboard.Prelude.{
  ℕ, String, ◌≡◌, refl, Bool, true, false, not, ◌&&◌, ◌||◌, Option, none, some, if◌then◌else◌,
}
use stock_dashboard.Frontend.Tooltip.{
  Mode, Props, Tip, Page, is_shown, set_tip, release_group, closed_tip, hide, group_is_warm, show,
}
use stock_dashboard.Frontend.Tooltip.Step.{
  Event, update, is_mode, no_press, no_close, no_open, suppress, on_enter, on_leave, on_down,
  on_click, on_blur, fire, step,
}

module _ {ℓ} (Q : Page → Type ℓ) (i now : ℕ)
    (set : (u : Tip) (s : Page)
      → u.is_open ≡ (s.tips i).is_open
      → u.mode ≡ (s.tips i).mode
      → Q s
      → Q (set_tip i u s))
    (hid : (s : Page) → Q s → Q (hide i now s))
    (sho : (p : Props) (how : Mode) (clipped : Option String) (s : Page)
      → Q s
      → Q (show p how clipped i now s))
    (unm : (s : Page)
      → Q s
      → Q (release_group i false now (set_tip i (closed_tip (s.tips i)) s))) where
  fire_keeps :
      (timer : Option Props) (how : Mode) (clipped : Option String) (s : Page)
      → Q s
      → Q (fire timer how clipped i now s)
  unfolding fire
  fire_keeps none how clipped s v = v
  fire_keeps (some p) how clipped s v = sho p how clipped s v

  if_keeps : (b : Bool) (x y : Page) → Q x → Q y → Q (if b then x else y)
  if_keeps true x y v w = v
  if_keeps false x y v w = w

  on_enter_keeps :
      (touch : Bool) (clipped : Option String) (s : Page) → Q s → Q (on_enter touch clipped i now s)
  unfolding on_enter
  on_enter_keeps true clipped s v = v
  on_enter_keeps false clipped s v =
      let t = s.tips i in
      let s' = update i no_close s in
      let v' : Q s' = set (no_close t) s refl refl v in
      if_keeps (t.is_open || t.suppressed) _ _ v' (
        if_keeps (group_is_warm now s') _ _ (sho t.props Mode.hover clipped s' v')
          (set (record (s'.tips i) { open_timer = some t.props }) s' refl refl v'))

  on_leave_keeps : (touch : Bool) (s : Page) → Q s → Q (on_leave touch i s)
  unfolding on_leave
  on_leave_keeps true s v = set _ s refl refl v
  on_leave_keeps false s v = set _ s refl refl v

  on_down_keeps : (touch : Bool) (s : Page) → Q s → Q (on_down touch i now s)
  unfolding on_down
  on_down_keeps true s v = set _ s refl refl v
  on_down_keeps false s v =
      let v' = set (suppress true (no_open (s.tips i))) s refl refl v in
      if_keeps (s.tips i).props.open_on_click _ _ v (if_keeps (s.tips i).is_open _ _ (hid _ v') v')

  on_click_keeps : (clipped : Option String) (s : Page) → Q s → Q (on_click clipped i now s)
  unfolding on_click
  on_click_keeps clipped s v =
      let t = s.tips i in
      if_keeps t.props.open_on_click _ _
        (if_keeps (t.is_open && is_mode Mode.click t.mode) _ _ (hid s v)
          (sho t.props Mode.click clipped s v))
        (if_keeps (t.is_open && not (is_mode Mode.touch t.mode)) _ _ (hid s v) v)

  on_blur_keeps : (s : Page) → Q s → Q (on_blur i now s)
  unfolding on_blur
  on_blur_keeps s v =
      let v' = set (suppress false (s.tips i)) s refl refl v in
      if_keeps (is_mode Mode.focus (s.tips i).mode || is_mode Mode.click (s.tips i).mode) _ _
        (hid _ v') v'

  pub step_keeps : (e : Event) (s : Page) → Q s → Q (step i now e s)
  unfolding step
  step_keeps (Event.pointer_enter touch clipped) s v = on_enter_keeps touch clipped s v
  step_keeps (Event.pointer_leave touch) s v = on_leave_keeps touch s v
  step_keeps (Event.pointer_down touch) s v = on_down_keeps touch s v
  step_keeps Event.pointer_up s v = set _ s refl refl v
  step_keeps Event.pointer_cancel s v = set _ s refl refl v
  step_keeps (Event.clicked clipped) s v = on_click_keeps clipped s v
  step_keeps (Event.focused true clipped) s v =
      sho (s.tips i).props Mode.focus clipped _ (set (suppress false (s.tips i)) s refl refl v)
  step_keeps (Event.focused false clipped) s v = v
  step_keeps Event.blurred s v = on_blur_keeps s v
  step_keeps Event.tip_enter s v = set _ s refl refl v
  step_keeps Event.tip_leave s v = set _ s refl refl v
  step_keeps (Event.open_fires clipped) s v =
      fire_keeps (s.tips i).open_timer Mode.hover clipped _ (set (no_open (s.tips i)) s refl refl v)
  step_keeps (Event.press_fires clipped) s v =
      fire_keeps (s.tips i).press_timer Mode.touch clipped _
        (set (no_press (s.tips i)) s refl refl v)
  step_keeps Event.close_fires s v = if_keeps (s.tips i).close_timer _ _ (hid s v) v
  step_keeps Event.escape s v =
      if_keeps (is_shown (s.tips i)) _ _ (hid _ (set (suppress true (s.tips i)) s refl refl v)) v
  step_keeps Event.down_outside s v = if_keeps (is_shown (s.tips i)) _ _ (hid s v) v
  step_keeps Event.unmount s v = unm s v
  step_keeps (Event.rendered p) s v = set _ s refl refl v
