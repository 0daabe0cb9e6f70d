-- ===== src/Frontend/Updates/Step.antt =====
-- The handlers, the timers and the replies of frontend/src/components/UpdatesSection.jsx, with the
-- effect that reloads the page.
use stock_dashboard.Prelude.{
  ℕ, ◌+◌, ◌-◌, Bool, true, false, not, ◌&&◌, ◌||◌, Option, none, some, List, [], ◌∷◌, ◌++◌, ltb,
  ◌==◌, if◌then◌else◌, filter,
}
use stock_dashboard.Frontend.Updates.{
  reload_delay_s, reconnect_give_up_ms, same_commit, ApplyState, Apply, Status, Phase, Call, Reply,
  Section, Event, state_of, flow, target, following, is_blocked,
}

abbrev pub send : Call → Section → Section
send c s = record s { calls = s.calls ++ (s.sent, c) ∷ []; sent = s.sent + 1 }

abbrev pub set_status : Status → Section → Section
set_status d s = record s { stored = some d }

abbrev pub set_phase : Phase → Section → Section
set_phase p s = record s { phase = some p }

unfoldable pub reconnect : Section → Section
reconnect s = record s { countdown = some reload_delay_s; phase = some Phase.reconnected }

-- `tick` up to its first await.
unfoldable pub tick : Section → Section
unfolding flow target
tick s = elim (flow s) [
  | some Phase.running ↦ send Call.follow s
  | some Phase.restarting ↦ send (Call.probe (target s)) s
  | _ ↦ s
]

-- The phase after a status, while the server restarts and while it runs.
abbrev pub unless_running : ApplyState → Section → Section
unless_running ApplyState.absent s = s
unless_running ApplyState.running s = s
unless_running ApplyState.done s = set_phase Phase.finished s
unless_running ApplyState.other s = set_phase Phase.finished s

abbrev pub after_follow : Option Apply → Section → Section
after_follow none s = s
after_follow (some a) s = elim a.state [
  | ApplyState.done ↦ send (Call.health_when_done a.new_commit) s
  | ApplyState.other ↦ set_phase Phase.finished s
  | _ ↦ s
]

-- How each call goes on; a reply of another kind than the call's is not one.
unfoldable pub settle : Call → ℕ → Reply → Section → Section
unfolding same_commit reconnect
settle Call.follow now (Reply.status d) s = after_follow d.apply (set_status d s)
settle Call.follow now (Reply.failure e) s =
    set_phase Phase.restarting (record s { restart_since = now })
settle (Call.health_when_done want) now (Reply.health c) s =
    if same_commit c want then reconnect s else set_phase Phase.finished s
settle (Call.health_when_done want) now (Reply.failure e) s = set_phase Phase.finished s
settle (Call.probe want) now (Reply.health c) s =
    if same_commit c want then reconnect s else send Call.status_after_probe s
settle (Call.probe want) now (Reply.failure e) s =
    if ltb reconnect_give_up_ms (now - s.restart_since) then set_phase Phase.timeout s else s
settle Call.status_after_probe now (Reply.status d) s =
    unless_running (state_of d.apply) (set_status d s)
settle Call.status_after_probe now (Reply.failure e) s = s
settle Call.apply_update now (Reply.status d) s = set_phase Phase.running (set_status d s)
settle Call.apply_update now (Reply.failure e) s = record s { apply_error = some e }
settle Call.check_now now (Reply.status d) s = record s { checking = false }
settle Call.check_now now (Reply.failure e) s = record s { check_error = some e; checking = false }
settle _ now r s = s

abbrev pub find_call : ℕ → List (ℕ × Call) → Option Call
find_call i [] = none
find_call i (p ∷ ps) = if p.0 == i then some p.1 else find_call i ps

abbrev pub without_call : ℕ → List (ℕ × Call) → List (ℕ × Call)
without_call i ps = filter (λ p. not (p.0 == i)) ps

abbrev pub arrive : Option Call → ℕ → ℕ → Reply → Section → Section
arrive none i now r s = s
arrive (some c) i now r s = settle c now r (record s { calls = without_call i s.calls })

abbrev pub is_reconnected : Option Phase → Bool
is_reconnected (some Phase.reconnected) = true
is_reconnected _ = false

abbrev pub is_zero : Option ℕ → Bool
is_zero none = false
is_zero (some n) = n == 0

abbrev pub count_down : Option ℕ → ℕ
count_down none = 0
count_down (some n) = n - 1

-- The handlers, the timers and the replies.
unfoldable pub act : Event → Section → Section
unfolding tick settle flow is_blocked
act (Event.store d) s = record s { stored = d }
act Event.open_confirm s = if is_blocked s then s else record s { confirming = true }
act Event.cancel_confirm s = record s { confirming = false }
act Event.start_update s =
    if s.confirming
    then send Call.apply_update (record s { confirming = false; apply_error = none })
    else s
act Event.check s =
    if s.checking || following (flow s)
    then s
    else send Call.check_now (record s { checking = true; check_error = none })
act Event.poll s = if following (flow s) then tick s else s
act Event.second s =
    if is_reconnected (flow s) then record s { countdown = some (count_down s.countdown) } else s
act (Event.reply i now r) s = arrive (find_call i s.calls) i now r s

-- The effect that reloads the page.
unfoldable pub reload_effect : Section → Section
unfolding flow
reload_effect s =
    if is_reconnected (flow s) && is_zero s.countdown then record s { reloaded = true } else s

unfoldable pub step : Event → Section → Section
unfolding act reload_effect
step e s = reload_effect (act e s)

unfoldable pub run : List Event → Section → Section
unfolding step
run [] s = s
run (e ∷ es) s = run es (step e s)
