-- ===== src/Frontend/Dashboard/Refresh.antt =====
-- `refreshOne` after its workers: the wait until the server has refreshed what was asked for.
pub mod Laws
use stock_dashboard.Prelude.{
  ℕ, zero, suc, ◌+◌, String, Bool, true, false, not, ◌&&◌, Option, none, some, List, [], ◌∷◌, ltb,
  if◌then◌else◌, str_eq, filter, Object, no_keys, entry, spread,
}

-- A row of GET /api/sources.
pub record Status : Type 0 where
  pub source : String
  pub last_refreshed_at : Option String

-- One round: the statuses, unless the request fails, and what it took beyond its sleep.
pub record Round : Type 0 where
  pub statuses : Option (List Status)
  pub delay : ℕ

abbrev pub refresh_wait_ms : ℕ
refresh_wait_ms = 90000

abbrev pub refresh_poll_ms : ℕ
refresh_poll_ms = 1500

-- `Object.fromEntries`: the last row of a source stays. The request may fail.
abbrev pub stamps : Option (List Status) → Object (Option String)
stamps none = no_keys
stamps (some []) = no_keys
stamps (some (x ∷ xs)) = spread (entry x.source x.last_refreshed_at) (stamps (some xs))

-- `===` between a stamp, which may be null, and one that may be missing.
abbrev pub same_stamp : Option String → Option (Option String) → Bool
same_stamp a none = false
same_stamp none (some none) = true
same_stamp none (some (some t)) = false
same_stamp (some s) (some none) = false
same_stamp (some s) (some (some t)) = str_eq s t

abbrev pub is_refreshed : Object (Option String) → Status → Bool
is_refreshed before x = not (same_stamp x.last_refreshed_at (before x.source))

-- `pending.delete(s.source)` for each status that has moved on.
abbrev pub settle : Object (Option String) → List Status → List String → List String
settle before [] pending = pending
settle before (x ∷ xs) pending =
    settle before xs
      (if is_refreshed before x then filter (λ k. not (str_eq k x.source)) pending else pending)

abbrev pub is_empty : List String → Bool
is_empty [] = true
is_empty (k ∷ ks) = false

-- The loop, with what is pending when it is left; the outer `none` means that the fuel ran out.
unfoldable pub wait_loop :
    ℕ → Object (Option String) → ℕ → ℕ → (ℕ → Round) → ℕ → List String → Option (List String)
wait_loop zero before deadline now rounds i pending = none
wait_loop (suc fuel) before deadline now rounds i pending =
    let rest = λ (next : List String).
      wait_loop fuel before deadline (now + refresh_poll_ms + (rounds i).delay) rounds (i + 1)
        next in
    if not (is_empty pending) && ltb now deadline
    then elim (rounds i).statuses [
      | none ↦ some pending
      | some statuses ↦ rest (settle before statuses pending)
    ]
    else some pending

unfoldable pub wait_for :
    Option (List Status) → ℕ → (ℕ → Round) → List String → Option (List String)
unfolding wait_loop
wait_for before now rounds wanted =
    wait_loop 61 (stamps before) (now + refresh_wait_ms) now rounds 0 wanted
