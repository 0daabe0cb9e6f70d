-- ===== src/Frontend/Auth.antt =====
-- frontend/src/hooks/useAuth.js: where a tab stands in signing in. A call of the API that fails
-- throws before any state is set, except where the source catches it.
pub mod Laws
use stock_dashboard.Prelude.{Bool, Option, none, some, List, [], ◌∷◌, if◌then◌else◌}

pub data Status : Type 0 where
  loading anon totp_setup totp_required authed : Status

pub record Auth (U : Type 0) : Type 0 where
  pub status : Status
  pub user : Option U

-- The settled calls, with what the server answered, and the steps that call nothing.
pub data Event (U : Type 0) : Type 0 where
  -- `getMe` on mount
  me : Option U → Event U
  -- "auth:expired", from any call that got a 401
  expired : Event U
  -- `login` succeeded; the flag says that TOTP has still to be set up
  logged_in : Bool → Event U
  registered : Event U
  -- `totpVerify` or `useRecoveryCode` succeeded, with its user
  verified : U → Event U
  -- `totpEnable` succeeded; then the user has read the recovery codes
  enabled : U → Event U
  finish_setup : Event U
  -- any of these calls failed
  refused : Event U
  -- `logout` succeeded or failed
  logout : Bool → Event U
  cancel : Event U
  marked_onboarded : Option U → Event U

abbrev pub after_expiry : Status → Status
after_expiry authed = anon
after_expiry status = status

module _ {U : Type 0} where
  abbrev pub initial : Auth U
  initial = record { status = loading; user = none }

  unfoldable pub step : Event U → Auth U → Auth U
  step (me (some u)) s = record { status = authed; user = some u }
  step (me none) s = record s { status = anon }
  step expired s = record { status = after_expiry s.status; user = none }
  step (logged_in needs_setup) s = record s {
    status = if needs_setup then totp_setup else totp_required;
  }
  step registered s = record s { status = totp_setup }
  step (verified u) s = record { status = authed; user = some u }
  step (enabled u) s = record s { user = some u }
  step finish_setup s = record s { status = authed }
  step refused s = s
  step (logout ok) s = record { status = anon; user = none }
  step cancel s = record s { status = anon }
  step (marked_onboarded none) s = s
  step (marked_onboarded (some u)) s = record s { user = some u }

  unfoldable pub run : List (Event U) → Auth U → Auth U
  unfolding step
  run [] s = s
  run (e ∷ es) s = run es (step e s)
