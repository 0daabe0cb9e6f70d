-- ===== src/Frontend/Updates/Tests.antt =====
-- Runs of frontend/src/components/UpdatesSection.jsx, and witnesses.
use stock_dashboard.Prelude.{◌≤◌, ◌≡◌, refl, true, Option, none, some, List, [], ◌∷◌}
use stock_dashboard.Frontend.Updates.{
  Commit, same_commit, ApplyState, Status, Phase, Reply, Event, initial, flow, target, is_blocked,
}
use stock_dashboard.Frontend.Updates.Step.{reconnect, tick, settle, act, reload_effect, step, run}
use stock_dashboard.Frontend.Updates.Asked.{asked, opened, asked-opened}

abbrev built : Option Commit
built = some (b'a' ∷ b'b' ∷ b'c' ∷ [])

abbrev short : Option Commit
short = some (b'a' ∷ b'b' ∷ [])

abbrev status_with : ApplyState → Status
status_with st = record {
  apply = some (record { state = st; new_commit = none; target_commit = built });
  has_check = true;
  can_apply = true;
  blocked_reason = none;
  remote_commit = built;
  viewer_is_admin = true;
}

-- The update is asked for, the server goes away, and comes back on the commit, shortened.
abbrev whole_update : List Event
whole_update =
    Event.open_confirm
    ∷ Event.start_update
    ∷ Event.reply 0 1000 (Reply.status (status_with ApplyState.running))
    ∷ Event.poll
    ∷ Event.reply 1 5000 (Reply.failure "Failed to fetch")
    ∷ Event.poll
    ∷ Event.reply 2 9000 (Reply.health short)
    ∷ Event.second
    ∷ Event.second
    ∷ Event.second
    ∷ Event.second
    ∷ Event.second
    ∷ []

asked-opened_example :
    asked whole_update (initial (some (status_with ApplyState.absent)))
    ≤ opened whole_update (initial (some (status_with ApplyState.absent)))
asked-opened_example = asked-opened (some (status_with ApplyState.absent)) whole_update

-- A health call that was sent before the give-up time and fails after it stops the countdown of a
-- page that has reached the new build in between.
abbrev late_failure : List Event
late_failure =
    Event.open_confirm
    ∷ Event.start_update
    ∷ Event.reply 0 1000 (Reply.status (status_with ApplyState.running))
    ∷ Event.poll
    ∷ Event.reply 1 5000 (Reply.failure "Failed to fetch")
    ∷ Event.poll
    ∷ Event.poll
    ∷ Event.reply 3 245_000 (Reply.health built)
    ∷ Event.reply 2 246_000 (Reply.failure "request timed out: /api/health")
    ∷ []

late_failure_gives_up :
    (run late_failure (initial (some (status_with ApplyState.absent)))).phase ≡ some Phase.timeout
unfolding run step act tick settle flow target same_commit reconnect reload_effect is_blocked
late_failure_gives_up = refl
