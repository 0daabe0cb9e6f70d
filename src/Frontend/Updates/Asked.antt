-- ===== src/Frontend/Updates/Asked.antt =====
-- What UpdatesSection.jsx promises: an update is asked for only where the button was enabled.
use stock_dashboard.Prelude.{
  ℕ, ◌+◌, ◌≤◌, ◌≡◌, inl, inr, Option, List, [], ◌∷◌, arith, if◌then◌else◌, Option-cases,
}
use stock_dashboard.Frontend.Updates.{
  Status, Call, Reply, Section, Event, initial, state_of, flow, is_blocked,
}
use stock_dashboard.Frontend.Updates.Step.{
  reconnect, tick, settle, find_call, without_call, act, reload_effect, step,
}

-- The steps that call `applyUpdate`, and those that open the question while the button is enabled.
abbrev asks : Event → Section → ℕ
asks Event.start_update s = if s.confirming then 1 else 0
asks _ s = 0

abbrev opens : Event → Section → ℕ
opens Event.open_confirm s = if is_blocked s then 0 else 1
opens _ s = 0

unfoldable pub asked : List Event → Section → ℕ
asked [] s = 0
asked (e ∷ es) s = asks e s + asked es (step e s)

unfoldable pub opened : List Event → Section → ℕ
opened [] s = 0
opened (e ∷ es) s = opens e s + opened es (step e s)

open_now : Section → ℕ
open_now s = if s.confirming then 1 else 0

settle-confirming :
    (c : Call) (now : ℕ) (r : Reply) (s : Section) → (settle c now r s).confirming ≡ s.confirming
unfolding settle reconnect
settle-confirming Call.follow now (Reply.status d) s = ground (arith, d.apply)
settle-confirming (Call.health_when_done want) now (Reply.health c) s = ground arith
settle-confirming (Call.probe want) now (Reply.health c) s = ground arith
settle-confirming (Call.probe want) now (Reply.failure e) s = ground arith
settle-confirming Call.status_after_probe now (Reply.status d) s = ground (arith, state_of d.apply)
settle-confirming _ now r s = ground (arith, r)

act_confirming : (e : Event) (s : Section) → asks e s + open_now (act e s) ≤ opens e s + open_now s
unfolding act tick open_now
act_confirming (Event.store d) s = ground arith
act_confirming Event.open_confirm s = ground arith
act_confirming Event.cancel_confirm s = ground arith
act_confirming Event.start_update s = ground arith
act_confirming Event.check s = ground arith
act_confirming Event.poll s = ground (arith, flow s)
act_confirming Event.second s = ground arith
act_confirming (Event.reply i now r) s = elim (Option-cases (find_call i s.calls)) [
  | inl e ↦ ground (arith, e)
  | inr (c, e) ↦
      let same = settle-confirming c now r (record s { calls = without_call i s.calls }) in
      ground (arith, e, same)
]

step_confirming :
    (e : Event) (s : Section) → asks e s + open_now (step e s) ≤ opens e s + open_now s
unfolding step reload_effect open_now
step_confirming e s = ground (arith, act_confirming e s)

asked-le : (es : List Event) (s : Section) → asked es s ≤ opened es s + open_now s
unfolding asked opened
asked-le [] s = omega arith
asked-le (e ∷ es) s = omega (arith, step_confirming e s, asked-le es (step e s))

-- Each call of `applyUpdate` has a question of its own behind it, opened while the button was not
-- blocked: by a reader who is no admin, an update under way, or a check that gives its reason.
pub asked-opened :
    (d : Option Status) (es : List Event) → asked es (initial d) ≤ opened es (initial d)
unfolding open_now
asked-opened d es = omega (arith, asked-le es (initial d))
