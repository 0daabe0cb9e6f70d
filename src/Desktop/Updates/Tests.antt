-- ===== src/Desktop/Updates/Tests.antt =====
-- The launch update at concrete inputs.
use stock_dashboard.Prelude.{
  ℕ, zero, suc, String, ◌≡◌, refl, ◌↔◌, Bool, true, Option, none, some, [], ◌∷◌,
}
use stock_dashboard.Desktop.Updates.Pending.{Check, Payload, pending_update, offer_apply}
use stock_dashboard.Desktop.Updates.Launch.{Round, wait_for_new_commit}
use stock_dashboard.Desktop.Updates.Laws.{IsOffered, pending_update-MayApply}
use stock_dashboard.Desktop.Updates.Wait.{wait_for_new_commit_ends}

abbrev found : Check
found = record {
  ok = true;
  update_available = true;
  behind = 7;
  can_apply = true;
  blocked_reason = "";
  latest_version = "1.4.0";
  current_version = "1.3.0";
  commits = "a" ∷ "b" ∷ "c" ∷ "d" ∷ "e" ∷ "f" ∷ [];
}

abbrev payload : Payload
payload = record {
  check = some found;
  apply = none;
  viewer_is_admin = true;
  current_commit = some "abc";
}

abbrev no_dates : String → Option ℕ
no_dates text = none

-- A clock on which the new commit is up after two rounds.
abbrev rounds : ℕ → Round
rounds zero = record { health = none; state = none; delay = 0 }
rounds (suc i) = record { health = some (some "def"); state = none; delay = 5 }

waits : wait_for_new_commit (some "abc") 0 rounds ≡ some true
unfolding wait_for_new_commit
waits = refl

pending_update-MayApply_example :
    pending_update no_dates 0 (some payload) ≡ some (offer_apply 7 (some "1.4.0") found.commits)
    ↔ IsOffered no_dates 0 payload 7 (some "1.4.0") found.commits
pending_update-MayApply_example =
    pending_update-MayApply no_dates 0 payload 7 (some "1.4.0") found.commits

wait_for_new_commit_ends_example : (b : Bool) × (wait_for_new_commit (some "abc") 0 rounds ≡ some b)
wait_for_new_commit_ends_example = wait_for_new_commit_ends (some "abc") 0 rounds
