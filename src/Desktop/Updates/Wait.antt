-- ===== src/Desktop/Updates/Wait.antt =====
-- The wait for a new commit ends, and reports one only if it was seen.
use stock_dashboard.Prelude.{
  ℕ, zero, suc, ◌+◌, ◌*◌, ◌≤◌, String, ◌≡◌, refl, ◌≢◌, Bool, true, false, Option, none, some, arith,
  ltb, if◌then◌else◌, str_eq_iff,
}
use stock_dashboard.Desktop.Updates.Pending.{stale_run_ms}
use stock_dashboard.Desktop.Updates.Launch.{
  Round, decide_round, wait_loop, wait_for_new_commit, update_poll_ms,
}

abbrev round_of : Bool → Option Bool → Option Bool → Option Bool
round_of running decision rest =
    if running then elim decision [ none ↦ rest | some b ↦ some b ] else some false

round_of_ends :
    (running : Bool) (decision rest : Option Bool)
    → (b : Bool) × (rest ≡ some b)
    → (b : Bool) × (round_of running decision rest ≡ some b)
round_of_ends true none rest h = h
round_of_ends true (some b) rest h = (b, refl)
round_of_ends false decision rest h = (false, refl)

wait_loop_ends :
    (fuel : ℕ) (previous : Option String) (deadline now : ℕ) (rounds : ℕ → Round) (i : ℕ)
    → deadline ≤ now + fuel * update_poll_ms
    → (b : Bool) × (wait_loop (suc fuel) previous deadline now rounds i ≡ some b)
unfolding wait_loop
wait_loop_ends zero previous deadline now rounds i h = (false, ground arith)
wait_loop_ends (suc fuel) previous deadline now rounds i h =
    round_of_ends (ltb now deadline) (decide_round previous (rounds i)) _ (
      wait_loop_ends fuel previous deadline (now + update_poll_ms + (rounds i).delay) rounds (i + 1)
        (omega arith))

-- The wait ends, whatever the backend answers and however long a round takes: 901 rounds of at
-- least two seconds outlast the deadline.
pub wait_for_new_commit_ends :
    (previous : Option String) (now : ℕ) (rounds : ℕ → Round)
    → (b : Bool) × (wait_for_new_commit previous now rounds ≡ some b)
unfolding wait_for_new_commit
wait_for_new_commit_ends previous now rounds =
    wait_loop_ends 900 previous (now + stale_run_ms) now rounds 0 (omega arith)

-- The backend reported a commit other than the previous one.
abbrev pub Reports : Option String → Round → Type 0
Reports previous r =
    (p : String) × (commit : String) × (previous ≡ some p)
    × (r.health ≡ some (some commit))
    × (commit ≢ p)

decide_round-Reports :
    (previous : Option String) (r : Round)
    → decide_round previous r ≡ some true
    → Reports previous r
decide_round-Reports previous r e = go previous r.health refl e
  where
    go :
        (q : Option String) (health : Option (Option String))
        → r.health ≡ health
        → decide_round q (record r { health = health }) ≡ some true
        → Reports q r
    go q none h d = cc
    go none (some commit) h d = absurd (ground arith)
    go (some p) (some none) h d = absurd (ground arith)
    go (some p) (some (some commit)) h d =
        (p, commit, refl, h, λ same. ground (arith, str_eq_iff commit p))

wait_loop-Reports :
    (fuel : ℕ) (previous : Option String) (deadline now : ℕ) (rounds : ℕ → Round) (i : ℕ)
    → wait_loop fuel previous deadline now rounds i ≡ some true
    → (j : ℕ) × Reports previous (rounds j)
unfolding wait_loop
wait_loop-Reports zero previous deadline now rounds i e = cc
wait_loop-Reports (suc fuel) previous deadline now rounds i e =
    go (ltb now deadline) (decide_round previous (rounds i)) refl
      (wait_loop-Reports fuel previous deadline (now + update_poll_ms + (rounds i).delay) rounds
        (i + 1))
      e
  where
    go :
        {rest : Option Bool} (running : Bool) (d : Option Bool)
        → decide_round previous (rounds i) ≡ d
        → (rest ≡ some true → (j : ℕ) × Reports previous (rounds j))
        → round_of running d rest ≡ some true
        → (j : ℕ) × Reports previous (rounds j)
    go true none h ih q = ih q
    go true (some true) h ih q = (i, decide_round-Reports previous (rounds i) h)
    go true (some false) h ih q = cc
    go false d h ih q = cc

-- The wait reports success only when some round saw a commit other than the previous one.
pub wait_for_new_commit-Reports :
    (previous : Option String) (now : ℕ) (rounds : ℕ → Round)
    → wait_for_new_commit previous now rounds ≡ some true
    → (j : ℕ) × Reports previous (rounds j)
unfolding wait_for_new_commit
wait_for_new_commit-Reports previous now rounds e =
    wait_loop-Reports 901 previous (now + stale_run_ms) now rounds 0 e
