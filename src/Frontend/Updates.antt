-- ===== src/Frontend/Updates.antt =====
-- The "Updates" section of the Info page, frontend/src/components/UpdatesSection.jsx: installing an
-- update and following it until the page reloads into the new build. A call of the API is numbered
-- as it is sent, and its reply carries on where the source awaits it, with what its `tick` had
-- captured. Commits are the codes of their texts; clocks are in milliseconds.
pub mod Step
pub mod Laws
pub mod Countdown
pub mod Asked
mod Tests
use stock_dashboard.Prelude.{
  ℕ, String, Bool, true, false, not, ◌&&◌, ◌||◌, Option, none, some, List, [], ◌∷◌, ◌==◌,
  if◌then◌else◌, is_some,
}

abbrev pub reload_delay_s : ℕ
reload_delay_s = 5

abbrev pub reconnect_give_up_ms : ℕ
reconnect_give_up_ms = 240_000

abbrev pub Commit : Type 0
Commit = List ℕ

abbrev pub starts_with : Commit → Commit → Bool
starts_with [] a = true
starts_with (b ∷ bs) [] = false
starts_with (b ∷ bs) (a ∷ as') = b == a && starts_with bs as'

abbrev pub is_full : Commit → Bool
is_full [] = false
is_full (c ∷ cs) = true

-- A missing commit is `none`.
unfoldable pub same_commit : Option Commit → Option Commit → Bool
same_commit (some a) (some b) = is_full a && is_full b && (starts_with b a || starts_with a b)
same_commit _ _ = false

-- `apply.state`: a missing or an empty one is `absent`.
pub data ApplyState : Type 0 where
  absent running done other : ApplyState

pub record Apply : Type 0 where
  pub state : ApplyState
  pub new_commit : Option Commit
  pub target_commit : Option Commit

-- The status that the server reports: `apply`, and of `check` what the section decides with.
pub record Status : Type 0 where
  pub apply : Option Apply
  pub has_check : Bool
  pub can_apply : Bool
  pub blocked_reason : Option String
  pub remote_commit : Option Commit
  pub viewer_is_admin : Bool

pub data Phase : Type 0 where
  running restarting reconnected timeout finished : Phase

-- Where a `tick` or a click waits.
pub data Call : Type 0 where
  -- `getUpdateStatus` while running; then `getHealth`, for the commit wanted
  follow : Call
  health_when_done : Option Commit → Call
  -- `getHealth` while restarting, for the target captured; then `getUpdateStatus`
  probe : Option Commit → Call
  status_after_probe : Call
  apply_update : Call
  check_now : Call

pub data Reply : Type 0 where
  status : Status → Reply
  -- the commit that the health reports
  health : Option Commit → Reply
  -- the message of what was thrown
  failure : String → Reply

pub record Section : Type 0 where
  -- the store of useUpdateStatus
  pub stored : Option Status
  pub checking : Bool
  pub check_error : Option String
  pub confirming : Bool
  pub apply_error : Option String
  pub phase : Option Phase
  pub countdown : Option ℕ
  pub restart_since : ℕ
  pub calls : List (ℕ × Call)
  pub sent : ℕ
  -- `window.location.reload` was called
  pub reloaded : Bool

pub data Event : Type 0 where
  -- the store changes, by this page or another part of it
  store : Option Status → Event
  open_confirm cancel_confirm start_update check : Event
  -- the interval of 2 s, and the interval of 1 s
  poll second : Event
  -- a call's reply, at a reading of the clock
  reply : ℕ → ℕ → Reply → Event

abbrev pub initial : Option Status → Section
initial data' = record {
  stored = data';
  checking = false;
  check_error = none;
  confirming = false;
  apply_error = none;
  phase = none;
  countdown = none;
  restart_since = 0;
  calls = [];
  sent = 0;
  reloaded = false;
}

abbrev pub apply_of : Option Status → Option Apply
apply_of none = none
apply_of (some d) = d.apply

abbrev pub state_of : Option Apply → ApplyState
state_of none = ApplyState.absent
state_of (some a) = a.state

abbrev pub is_running : ApplyState → Bool
is_running ApplyState.running = true
is_running _ = false

abbrev pub flow_of : Option Phase → ApplyState → Option Phase
flow_of (some p) st = some p
flow_of none st = if is_running st then some Phase.running else none

unfoldable pub flow : Section → Option Phase
flow s = flow_of s.phase (state_of (apply_of s.stored))

-- `a || b` on commits, of which the empty one counts as missing.
abbrev pub or_commit : Option Commit → Option Commit → Option Commit
or_commit (some (c ∷ cs)) b = some (c ∷ cs)
or_commit _ b = b

abbrev pub new_commit : Option Apply → Option Commit
new_commit none = none
new_commit (some a) = a.new_commit

abbrev pub target_commit : Option Apply → Option Commit
target_commit none = none
target_commit (some a) = a.target_commit

abbrev pub remote_commit : Option Status → Option Commit
remote_commit none = none
remote_commit (some d) = if d.has_check then d.remote_commit else none

unfoldable pub target : Section → Option Commit
target s =
    or_commit (or_commit (new_commit (apply_of s.stored)) (target_commit (apply_of s.stored)))
      (remote_commit s.stored)

abbrev pub following : Option Phase → Bool
following (some Phase.running) = true
following (some Phase.restarting) = true
following _ = false

-- Whether the button that asks to confirm is disabled.
unfoldable pub is_blocked : Section → Bool
unfolding flow
is_blocked s = elim s.stored [
  | none ↦ true
  | some d ↦
      not d.viewer_is_admin
      || following (flow s)
      || is_running (state_of d.apply)
      || (d.has_check && not d.can_apply && is_some d.blocked_reason)
]
