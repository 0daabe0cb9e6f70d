-- ===== src/Frontend/RiskStatus.antt =====
-- frontend/src/hooks/useRiskStatus.js: the store that the banner and the Risk tab share. The calls of
-- the API are numbered as they are sent; D is the payload of /api/risk/status. A tab's listeners are
-- numbered too, and so are the intervals, from 1.
pub mod Laws
use stock_dashboard.Prelude.{
  ℕ, ◌+◌, String, Bool, true, false, not, ◌&&◌, Option, none, some, List, [], ◌∷◌, ◌++◌, ◌==◌,
  if◌then◌else◌, length, filter, any,
}

pub data Call : Type 0 where
  -- `refreshRiskStatus`
  refresh : Call
  -- `setMaxDrawdown`, `setRegimeGate`, `setGuardrails`, `haltAll`, `releaseAll`, `acknowledgeTrip`
  change : Call

pub data Reply (D : Type 0) : Type 0 where
  answer : D → Reply D
  failure : String → Reply D

pub record Store (D : Type 0) : Type 0 where
  -- `state`, with its `data`
  pub payload : Option D
  pub error : Option String
  pub loading : Bool
  -- the calls in flight
  pub pending : List (ℕ × Call)
  pub sent : ℕ
  pub listeners : List ℕ
  -- the variable `timer`, and the intervals that tick
  pub timer : Option ℕ
  pub ticking : List ℕ
  pub intervals : ℕ
  -- the listeners' calls, the last first
  pub notified : List ℕ

abbrev pub find_call : ℕ → List (ℕ × Call) → Option Call
find_call i [] = none
find_call i (p ∷ ps) = if p.0 == i then some p.1 else find_call i ps

abbrev pub without_call : ℕ → List (ℕ × Call) → List (ℕ × Call)
without_call i ps = filter (λ p. not (p.0 == i)) ps

-- `listeners.add(listener)` on a Set
abbrev pub add_listener : ℕ → List ℕ → List ℕ
add_listener l ls = if any (λ j. j == l) ls then ls else ls ++ l ∷ []

abbrev pub clear_interval : Option ℕ → List ℕ → List ℕ
clear_interval none ticking = ticking
clear_interval (some t) ticking = filter (λ j. not (j == t)) ticking

module _ {D : Type 0} where
  abbrev pub initial : Store D
  initial = record {
    payload = none;
    error = none;
    loading = false;
    pending = [];
    sent = 0;
    listeners = [];
    timer = none;
    ticking = [];
    intervals = 0;
    notified = [];
  }

  -- `emit`, once the state is patched
  abbrev pub notify_all : Store D → Store D
  notify_all s = record s { notified = s.listeners ++ s.notified }

  abbrev pub send : Call → Store D → Store D
  send c s = record s { pending = (s.sent, c) ∷ s.pending; sent = s.sent + 1 }

  unfoldable pub refresh_risk_status : Store D → Store D
  refresh_risk_status s = send refresh (notify_all (record s { loading = true }))

  -- What comes after a call's promise, by the kind of the call; a change that fails throws.
  abbrev pub settle : Call → Reply D → Store D → Store D
  settle refresh (answer d) s =
      notify_all (record s { payload = some d; error = none; loading = false })
  settle refresh (failure e) s = notify_all (record s { error = some e; loading = false })
  settle change (answer d) s = notify_all (record s { payload = some d; error = none })
  settle change (failure e) s = s

  unfoldable pub reply : ℕ → Reply D → Store D → Store D
  reply i r s = elim (find_call i s.pending) [
    | none ↦ s
    | some c ↦ settle c r (record s { pending = without_call i s.pending })
  ]

  abbrev pub set_interval : Store D → Store D
  set_interval s = record s {
    timer = some (s.intervals + 1);
    ticking = (s.intervals + 1) ∷ s.ticking;
    intervals = s.intervals + 1;
  }

  unfoldable pub subscribe : ℕ → Store D → Store D
  unfolding refresh_risk_status
  subscribe l s =
      let added = record s { listeners = add_listener l s.listeners } in
      if length added.listeners == 1 then set_interval (refresh_risk_status added) else added

  unfoldable pub unsubscribe : ℕ → Store D → Store D
  unsubscribe l s =
      let removed = record s { listeners = filter (λ j. not (j == l)) s.listeners } in
      if length removed.listeners == 0
      then record removed { ticking = clear_interval s.timer s.ticking; timer = none }
      else removed

  -- An interval's tick, by `document.hidden`.
  unfoldable pub tick : ℕ → Bool → Store D → Store D
  unfolding refresh_risk_status
  tick t hidden s = if any (λ j. j == t) s.ticking && not hidden then refresh_risk_status s else s

pub data Event (D : Type 0) : Type 0 where
  subscribed unsubscribed : ℕ → Event D
  ticked : ℕ → Bool → Event D
  -- a call from a component
  called : Call → Event D
  replied : ℕ → Reply D → Event D

module _ {D : Type 0} where
  abbrev pub call : Call → Store D → Store D
  call refresh s = refresh_risk_status s
  call change s = send change s

  unfoldable pub step : Event D → Store D → Store D
  unfolding subscribe unsubscribe tick reply refresh_risk_status
  step (subscribed l) s = subscribe l s
  step (unsubscribed l) s = unsubscribe l s
  step (ticked t hidden) s = tick t hidden s
  step (called c) s = call c s
  step (replied i r) s = reply i r s

  unfoldable pub run : List (Event D) → Store D → Store D
  unfolding step
  run [] s = s
  run (e ∷ es) s = run es (step e s)
