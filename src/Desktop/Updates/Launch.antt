-- ===== src/Desktop/Updates/Launch.antt =====
-- desktop/src/updates/launch.js: the update check that runs once per launch, its dialogs, and the
-- wait for the restarted backend. Replies, clicks and the clock are inputs.
use stock_dashboard.Prelude.{
  ℕ, zero, suc, ◌+◌, ◌-◌, String, Bool, true, false, not, ◌&&◌, ◌||◌, Option, none, some, List, [],
  ◌∷◌, ◌++◌, map, ltb, ◌==◌, if◌then◌else◌, str_eq, length, take,
}
use stock_dashboard.Desktop.Updates.Pending.{
  Payload, Offer, offer_apply, blocked, pending_update, stale_run_ms,
}

abbrev pub max_listed_commits : ℕ
max_listed_commits = 5

abbrev pub update_poll_ms : ℕ
update_poll_ms = 2000

-- The lines of the dialog's detail text.
pub data Line : Type 0 where
  commit_line : String → Line
  and_more : ℕ → Line
  empty_line restart_note : Line

unfoldable pub describe : ℕ → List String → List Line
describe behind commits =
    let listed = map commit_line (take max_listed_commits commits) in
    let rest = behind - length listed in
    (if ltb 0 rest then listed ++ and_more rest ∷ [] else listed) ++ empty_line ∷ restart_note ∷ []

-- GET /api/update/status: the thrown status, if any, or the payload.
pub data Reply : Type 0 where
  threw : Option ℕ → Reply
  answered : Option Payload → Reply

pub data Action : Type 0 where
  blocked_box : ℕ → String → Action
  offer_box : ℕ → Option String → List Line → Action
  post_apply : Action
  error_box : String → Action

pub data Outcome : Type 0 where
  retry finished : Outcome
  applied : Option String → Outcome

abbrev pub is_signed_out_or_unreachable : Option ℕ → Bool
is_signed_out_or_unreachable none = true
is_signed_out_or_unreachable (some status) = status == 401

abbrev pub commit_of : Option Payload → Option String
commit_of none = none
commit_of (some payload) = payload.current_commit

module _ (date_parse : String → Option ℕ) (now : ℕ) where
  -- What POST /api/update/apply gives: nothing, or the message of its error.
  abbrev pub apply_update : Option Payload → Option String → List Action × Outcome
  apply_update payload none = (post_apply ∷ [], applied (commit_of payload))
  apply_update payload (some message) = (post_apply ∷ error_box message ∷ [], finished)

  abbrev pub act_on : Option Payload → ℕ → Option String → Option Offer → List Action × Outcome
  act_on payload response post none = ([], finished)
  act_on payload response post (some (blocked behind reason)) =
      (blocked_box behind reason ∷ [], finished)
  act_on payload response post (some (offer_apply behind version commits)) =
      let box = offer_box behind version (describe behind commits) in
      let (actions, outcome) = apply_update payload post in
      if not (response == 0) then (box ∷ [], finished) else (box ∷ actions, outcome)

  unfoldable pub check_for_update : Reply → ℕ → Option String → List Action × Outcome
  check_for_update (threw status) response post =
      if is_signed_out_or_unreachable status then ([], retry) else ([], finished)
  check_for_update (answered payload) response post =
      act_on payload response post (pending_update date_parse now payload)

-- One round of the wait: what /api/health and /api/update/status answered, and how much longer
-- than the sleep the round took.
pub record Round : Type 0 where
  pub health : Option (Option String)
  pub state : Option String
  pub delay : ℕ

-- `previous && health.commit && health.commit !== previous`
abbrev pub is_new_commit : Option String → Option String → Bool
is_new_commit none commit = false
is_new_commit (some previous) none = false
is_new_commit (some previous) (some commit) =
    not (str_eq previous "") && not (str_eq commit "") && not (str_eq commit previous)

abbrev pub has_failed : Option String → Bool
has_failed none = false
has_failed (some state) = str_eq state "failed" || str_eq state "rolled_back"

-- `some b`: the loop decided on `b` in this round; `none`: it goes on.
abbrev pub decide_round : Option String → Round → Option Bool
decide_round previous r = elim r.health [
  | none ↦ none
  | some commit ↦
      if is_new_commit previous commit
      then some true
      else if has_failed r.state
      then some false
      else none
]

-- The loop of `waitForNewCommit`; `none` means that the fuel ran out.
unfoldable pub wait_loop : ℕ → Option String → ℕ → ℕ → (ℕ → Round) → ℕ → Option Bool
wait_loop zero previous deadline now rounds i = none
wait_loop (suc fuel) previous deadline now rounds i =
    let rest =
      wait_loop fuel previous deadline (now + update_poll_ms + (rounds i).delay) rounds (i + 1) in
    if ltb now deadline
    then elim (decide_round previous (rounds i)) [ none ↦ rest | some b ↦ some b ]
    else some false

unfoldable pub wait_for_new_commit : Option String → ℕ → (ℕ → Round) → Option Bool
unfolding wait_loop
wait_for_new_commit previous now rounds = wait_loop 901 previous (now + stale_run_ms) now rounds 0
