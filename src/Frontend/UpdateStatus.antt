-- ===== src/Frontend/UpdateStatus.antt =====
-- frontend/src/hooks/useUpdateStatus.js: the shared store of the update status and its requests,
-- which are numbered as they are sent. D is the payload of /api/update/status. The subscription and
-- its interval are those of useRiskStatus.js, in RiskStatus.
pub mod Laws
use stock_dashboard.Prelude.{
  ℕ, ◌+◌, String, Bool, true, false, not, ◌&&◌, Option, none, some, List, [], ◌∷◌, ◌==◌,
  if◌then◌else◌, filter, any,
}

pub record Store (D : Type 0) : Type 0 where
  -- `state`, with its `data`
  pub payload : Option D
  pub error : Option String
  pub loading : Bool
  pub inflight : Option ℕ
  -- the requests that have not settled
  pub pending : List ℕ
  pub sent : ℕ

pub data Reply (D : Type 0) : Type 0 where
  answer : D → Reply D
  failure : String → Reply D

pub data Event (D : Type 0) : Type 0 where
  -- `refreshUpdateStatus(force)`
  refreshed : Bool → Event D
  settled : ℕ → Reply D → Event D
  -- `setUpdateStatus`
  pushed : D → Event D

abbrev pub is_number : ℕ → Option ℕ → Bool
is_number i none = false
is_number i (some j) = j == i

abbrev pub is_there : Option ℕ → Bool
is_there none = false
is_there (some i) = true

module _ {D : Type 0} where
  abbrev pub initial : Store D
  initial = record {
    payload = none;
    error = none;
    loading = false;
    inflight = none;
    pending = [];
    sent = 0;
  }

  unfoldable pub refresh_update_status : Bool → Store D → Store D
  refresh_update_status force s = if is_there s.inflight && not force then s else record s {
    loading = true;
    inflight = some s.sent;
    pending = s.sent ∷ s.pending;
    sent = s.sent + 1;
  }

  -- `then` and `catch`, and `finally` after them.
  abbrev pub emit_reply : Reply D → Store D → Store D
  emit_reply (answer d) s = record s { payload = some d; error = none; loading = false }
  emit_reply (failure e) s = record s { error = some e; loading = false }

  abbrev pub finally : ℕ → Store D → Store D
  finally i s = record s {
    inflight = if is_number i s.inflight then none else s.inflight;
    pending = filter (λ j. not (j == i)) s.pending;
  }

  unfoldable pub settle : ℕ → Reply D → Store D → Store D
  settle i r s = if any (λ j. j == i) s.pending then finally i (emit_reply r s) else s

  unfoldable pub step : Event D → Store D → Store D
  unfolding refresh_update_status settle
  step (refreshed force) s = refresh_update_status force s
  step (settled i r) s = settle i r s
  step (pushed d) s = record s { payload = some d; error = none }

  unfoldable pub run : List (Event D) → Store D → Store D
  unfolding step
  run [] s = s
  run (e ∷ es) s = run es (step e s)
