-- ===== src/Frontend/Tooltip/Suppressed.antt =====
-- What Tooltip.jsx promises of a dismissed tooltip: it stays closed until the pointer leaves.
use stock_dashboard.Prelude.{
  ℕ, String, ◌≡◌, inl, inr, Bool, true, false, not, ◌&&◌, Option, none, List, [], ◌∷◌, arith, ◌==◌,
  if◌then◌else◌, Bool-cases, Option-cases, is_some,
}
use stock_dashboard.Frontend.Tooltip.{
  is_shown, closed_tip, Mode, Props, claim_group, set_tip, show, Tip, Page, release_group, hide,
}
use stock_dashboard.Frontend.Tooltip.Step.{
  run, fire, on_blur, on_click, on_down, on_leave, on_enter, step, Event,
}
use stock_dashboard.Frontend.Tooltip.Rule.{step_keeps}

-- Closed, kept from opening by hovering, with no long press under way, and not opened by clicks.
pub record IsDismissed (t : Tip) : Type 0 where
  pub closed : t.is_open ≡ false
  pub held : t.suppressed ≡ true
  pub no_hover : t.open_timer ≡ none
  pub no_touch : t.press_timer ≡ none
  pub by_hover : t.props.open_on_click ≡ false

-- What does not lift the dismissal: not the pointer's leaving, a focus, a blur, a touch, or a render
-- that makes the trigger open on clicks.
unfoldable pub lifts : Event → Bool
lifts (Event.pointer_enter touch clipped) = false
lifts (Event.pointer_leave touch) = not touch
lifts (Event.pointer_down touch) = touch
lifts (Event.focused visible clipped) = visible
lifts Event.blurred = true
lifts (Event.rendered p) = p.open_on_click
lifts _ = false

-- A press on a trigger that clicks do not open, or Escape while its tooltip is shown.
unfoldable pub dismisses : Event → Tip → Bool
dismisses (Event.pointer_down false) t = not t.props.open_on_click && not (is_some t.press_timer)
dismisses Event.escape t = not t.props.open_on_click && is_shown t
dismisses _ t = false

module _ (k : ℕ) where
  -- No event of the run lifts the dismissal of instance `k`.
  unfoldable pub none_lifts : List (ℕ × ℕ × Event) → Bool
  none_lifts [] = true
  none_lifts ((i, now, e) ∷ es) = not (i == k && lifts e) && none_lifts es

  hide-IsDismissed :
      (i now : ℕ) (s : Page) → IsDismissed (s.tips k) → IsDismissed ((hide i now s).tips k)
  unfolding hide release_group
  hide-IsDismissed i now s v = elim (Option-cases s.owner) [
    | inl e ↦ ground (arith, e)
    | inr (j, e) ↦ ground (arith, e)
  ]

  if-IsDismissed :
      (b : Bool) (x y : Page)
      → IsDismissed (x.tips k)
      → IsDismissed (y.tips k)
      → IsDismissed ((if b then x else y).tips k)
  if-IsDismissed true x y v w = v
  if-IsDismissed false x y v w = w

  -- The events of another instance.
  module _ (i now : ℕ) (other : (i == k) ≡ false) where
    set_tip_other :
        (u : Tip) (s : Page) → IsDismissed (s.tips k) → IsDismissed ((set_tip i u s).tips k)
    set_tip_other u s v = ground (arith, v)

    show_other :
        (p : Props) (how : Mode) (clipped : Option String) (s : Page)
        → IsDismissed (s.tips k)
        → IsDismissed ((show p how clipped i now s).tips k)
    unfolding show claim_group hide release_group
    show_other p how clipped s v = elim (Option-cases s.owner) [
      | inl e ↦ ground (arith, e)
      | inr (j, e) ↦ ground (arith, e)
    ]

    unmount_other :
        (s : Page)
        → IsDismissed (s.tips k)
        → IsDismissed ((release_group i false now (set_tip i (closed_tip (s.tips i)) s)).tips k)
    unfolding release_group
    unmount_other s v = elim (Option-cases s.owner) [
      | inl e ↦ ground (arith, e)
      | inr (j, e) ↦ ground (arith, e)
    ]

    step_other :
        (e : Event) (s : Page) → IsDismissed (s.tips k) → IsDismissed ((step i now e s).tips k)
    step_other =
        step_keeps (λ s. IsDismissed (s.tips k)) i now (λ u s _ _. set_tip_other u s)
          (hide-IsDismissed i now) show_other unmount_other

  step_own :
      (now : ℕ) (e : Event) (s : Page)
      → lifts e ≡ false
      → IsDismissed (s.tips k)
      → IsDismissed ((step k now e s).tips k)
  unfolding step lifts on_enter on_leave on_down on_click on_blur fire release_group
  step_own now (Event.pointer_enter true clipped) s h v = v
  step_own now (Event.pointer_enter false clipped) s h v = ground (arith, v)
  step_own now (Event.pointer_leave true) s h v = ground (arith, v)
  step_own now (Event.pointer_leave false) s h v = cc
  step_own now (Event.pointer_down true) s h v = cc
  step_own now (Event.pointer_down false) s h v = ground (arith, v)
  step_own now Event.pointer_up s h v = ground (arith, v)
  step_own now Event.pointer_cancel s h v = ground (arith, v)
  step_own now (Event.clicked clipped) s h v = ground (arith, v)
  step_own now (Event.focused true clipped) s h v = cc
  step_own now (Event.focused false clipped) s h v = v
  step_own now Event.blurred s h v = cc
  step_own now Event.tip_enter s h v = ground (arith, v)
  step_own now Event.tip_leave s h v = ground (arith, v)
  step_own now (Event.open_fires clipped) s h v = ground (arith, v)
  step_own now (Event.press_fires clipped) s h v = ground (arith, v)
  step_own now Event.close_fires s h v = ground (arith, v, hide-IsDismissed k now s v)
  step_own now Event.escape s h v = ground (arith, v, is_shown (s.tips k))
  step_own now Event.down_outside s h v = ground (arith, v, hide-IsDismissed k now s v)
  step_own now Event.unmount s h v = ground (arith, v, s.owner)
  step_own now (Event.rendered p) s h v = ground (arith, v)

  step-IsDismissed :
      (i now : ℕ) (e : Event) (s : Page)
      → (i == k && lifts e) ≡ false
      → IsDismissed (s.tips k)
      → IsDismissed ((step i now e s).tips k)
  step-IsDismissed i now e s h v = elim (Bool-cases (i == k)) [
    | inr ne ↦ step_other i now ne e s v
    | inl eq ↦ let same : i ≡ k = ground arith in rw same (step_own now e s (ground arith) v)
  ]

  run-IsDismissed :
      (es : List (ℕ × ℕ × Event)) (s : Page)
      → none_lifts es ≡ true
      → IsDismissed (s.tips k)
      → IsDismissed ((run es s).tips k)
  unfolding run none_lifts
  run-IsDismissed [] s h v = v
  run-IsDismissed ((i, now, e) ∷ es) s h v =
      run-IsDismissed es (step i now e s) (ground arith)
        (step-IsDismissed i now e s (ground arith) v)

  dismisses-IsDismissed :
      (now : ℕ) (e : Event) (s : Page)
      → dismisses e (s.tips k) ≡ true
      → IsDismissed ((step k now e s).tips k)
  unfolding dismisses step on_down hide release_group
  dismisses-IsDismissed now (Event.pointer_down false) s h =
      ground (arith, Option-cases (s.tips k).press_timer)
  dismisses-IsDismissed now Event.escape s h = ground (arith, s.owner)
  dismisses-IsDismissed now _ s h = cc

  -- Where clicks do not open it, a tooltip that a press on its trigger, with no long press under way,
  -- or Escape dismisses stays closed, whatever the other
  -- tooltips do and however often the pointer enters, until the pointer leaves, the trigger is
  -- focused, blurred or touched, or is rendered to open on clicks.
  pub dismissed_stays_closed :
      (now : ℕ) (e : Event) (es : List (ℕ × ℕ × Event)) (s : Page)
      → dismisses e (s.tips k) ≡ true
      → none_lifts es ≡ true
      → ((run ((k, now, e) ∷ es) s).tips k).is_open ≡ false
  unfolding run
  dismissed_stays_closed now e es s h quiet =
      (run-IsDismissed es (step k now e s) quiet (dismisses-IsDismissed now e s h)).closed
