-- ===== src/Frontend/Tooltip/Laws.antt =====
-- What Tooltip.jsx promises of its group: the tooltip that is open is the group's owner.
use stock_dashboard.Frontend.Tooltip.Step.{initial, step, Event, run}
use stock_dashboard.Prelude.{
  ℕ, String, ◌≡◌, refl, inl, inr, true, false, Option, List, [], ◌∷◌, arith, Option-cases, is_some,
}
use stock_dashboard.Frontend.Tooltip.{
  closed_tip, set_tip, Tip, Mode, Props, Page, owns, release_group, hide, claim_group, show,
}
use stock_dashboard.Frontend.Tooltip.Rule.{step_keeps}

-- A tooltip is open exactly when it owns the group, and it has a mode exactly when it is open.
pub IsOwned : Page → Type 0
IsOwned s =
    (j : ℕ) → ((s.tips j).is_open ≡ owns j s.owner) × (is_some (s.tips j).mode ≡ (s.tips j).is_open)

hide-IsOwned : (i now : ℕ) (s : Page) → IsOwned s → IsOwned (hide i now s)
unfolding IsOwned hide release_group
hide-IsOwned i now s v j = elim (Option-cases s.owner) [
  | inl e ↦ ground (arith, v j, v i, e)
  | inr (k, e) ↦ ground (arith, v j, v i, e)
]

show-IsOwned :
    (p : Props) (how : Mode) (clipped : Option String) (i now : ℕ) (s : Page)
    → IsOwned s
    → IsOwned (show p how clipped i now s)
unfolding IsOwned show claim_group hide release_group
show-IsOwned p how clipped i now s v j = elim (Option-cases s.owner) [
  | inl e ↦ ground (arith, v j, v i, e)
  | inr (k, e) ↦ ground (arith, v j, v i, e)
]

-- A change that leaves the opening and the mode of an instance alone.
update-IsOwned :
    (i : ℕ) (u : Tip) (s : Page)
    → u.is_open ≡ (s.tips i).is_open
    → u.mode ≡ (s.tips i).mode
    → IsOwned s
    → IsOwned (set_tip i u s)
unfolding IsOwned
update-IsOwned i u s same kept v j = ground (arith, v j, v i, same, kept)

unmount-IsOwned :
    (i now : ℕ) (s : Page)
    → IsOwned s
    → IsOwned (release_group i false now (set_tip i (closed_tip (s.tips i)) s))
unfolding IsOwned release_group
unmount-IsOwned i now s v j = elim (Option-cases s.owner) [
  | inl e ↦ ground (arith, v j, v i, e)
  | inr (k, e) ↦ ground (arith, v j, v i, e)
]

step-IsOwned : (i now : ℕ) (e : Event) (s : Page) → IsOwned s → IsOwned (step i now e s)
step-IsOwned i now =
    step_keeps IsOwned i now (update-IsOwned i) (hide-IsOwned i now)
      (λ p how clipped. show-IsOwned p how clipped i now) (unmount-IsOwned i now)

pub run-IsOwned : (es : List (ℕ × ℕ × Event)) (s : Page) → IsOwned s → IsOwned (run es s)
unfolding run
run-IsOwned [] s v = v
run-IsOwned ((i, now, e) ∷ es) s v = run-IsOwned es (step i now e s) (step-IsOwned i now e s v)

initial-IsOwned : (props : ℕ → Props) → IsOwned (initial props)
unfolding IsOwned
initial-IsOwned props j = (refl, refl)

-- However the pointer, the keyboard, the timers and the renders of the tooltips of a page come, at
-- most one of them is open.
pub run-initial-is_single :
    (props : ℕ → Props) (es : List (ℕ × ℕ × Event)) (i j : ℕ)
    → ((run es (initial props)).tips i).is_open ≡ true
    → ((run es (initial props)).tips j).is_open ≡ true
    → i ≡ j
unfolding IsOwned
run-initial-is_single props es i j oi oj =
    let v = run-IsOwned es (initial props) (initial-IsOwned props) in
    elim (Option-cases (run es (initial props)).owner) [
      | inl e ↦ ground (arith, v i, v j, e)
      | inr (k, e) ↦ ground (arith, v i, v j, e)
    ]
