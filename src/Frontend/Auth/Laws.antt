-- ===== src/Frontend/Auth/Laws.antt =====
-- When the app is shown as signed in, there is a user to show.
use stock_dashboard.Prelude.{
  ◌≡◌, refl, ◌≢◌, Bool, true, false, none, some, List, [], ◌∷◌, All, is_some,
}
use stock_dashboard.Frontend.Auth.{
  Status, loading, anon, totp_setup, totp_required, authed, Auth, Event, me, expired, logged_in,
  registered, verified, enabled, finish_setup, refused, logout, cancel, marked_onboarded,
  after_expiry, step, run,
}

pub expiry_leaves : (t : Status) → after_expiry t ≢ authed
expiry_leaves loading h = cc
expiry_leaves anon h = cc
expiry_leaves totp_setup h = cc
expiry_leaves totp_required h = cc
expiry_leaves authed h = cc

module _ {U : Type 0} where
  -- Signed in means that there is a user.
  abbrev pub HasUser : Auth U → Type 0
  HasUser s = s.status ≡ authed → is_some s.user ≡ true

  -- The setup is finished only while the user that `totpEnable` gave is still there.
  unfoldable pub AreOrderly : List (Event U) → Auth U → Type 0
  unfolding step
  AreOrderly [] s = Unit
  AreOrderly (finish_setup ∷ es) s = (is_some s.user ≡ true) × AreOrderly es (step finish_setup s)
  AreOrderly (e ∷ es) s = AreOrderly es (step e s)

  -- An existing session, a second factor or a finished setup.
  abbrev pub signs_in : Event U → Bool
  signs_in (me (some u)) = true
  signs_in (verified u) = true
  signs_in finish_setup = true
  signs_in e = false

  step_stays_out :
      (e : Event U) (s : Auth U)
      → s.status ≢ authed
      → signs_in e ≡ false
      → (step e s).status ≢ authed
  unfolding step
  step_stays_out (me (some u)) s out e = absurd (cc)
  step_stays_out (me none) s out e = λ h. absurd (cc)
  step_stays_out expired s out e = expiry_leaves s.status
  step_stays_out (logged_in true) s out e = λ h. cc
  step_stays_out (logged_in false) s out e = λ h. cc
  step_stays_out registered s out e = λ h. cc
  step_stays_out (verified u) s out e = absurd (cc)
  step_stays_out (enabled u) s out e = out
  step_stays_out finish_setup s out e = absurd (cc)
  step_stays_out refused s out e = out
  step_stays_out (logout ok) s out e = λ h. cc
  step_stays_out cancel s out e = λ h. cc
  step_stays_out (marked_onboarded none) s out e = out
  step_stays_out (marked_onboarded (some u)) s out e = out

  -- Whatever else happens, a tab that is not signed in becomes so only by an existing session, a
  -- second factor or a finished setup: no password, registration or enabled TOTP alone signs it in.
  pub run_stays_out :
      (es : List (Event U)) (s : Auth U)
      → s.status ≢ authed
      → All (λ e. signs_in e ≡ false) es
      → (run es s).status ≢ authed
  unfolding run
  run_stays_out [] s out h = out
  run_stays_out (e ∷ es) s out h = run_stays_out es (step e s) (step_stays_out e s out h.0) h.1

  step-HasUser :
      (e : Event U) (es : List (Event U)) (s : Auth U)
      → HasUser s
      → AreOrderly (e ∷ es) s
      → HasUser (step e s) × AreOrderly es (step e s)
  unfolding step AreOrderly
  step-HasUser (me (some u)) es s has h = (λ q. refl, h)
  step-HasUser (me none) es s has h = (λ q. absurd (cc), h)
  step-HasUser expired es s has h = (λ q. absurd (expiry_leaves s.status q), h)
  step-HasUser (logged_in true) es s has h = (λ q. absurd (cc), h)
  step-HasUser (logged_in false) es s has h = (λ q. absurd (cc), h)
  step-HasUser registered es s has h = (λ q. absurd (cc), h)
  step-HasUser (verified u) es s has h = (λ q. refl, h)
  step-HasUser (enabled u) es s has h = (λ q. refl, h)
  step-HasUser finish_setup es s has h = (λ q. h.0, h.1)
  step-HasUser refused es s has h = (has, h)
  step-HasUser (logout ok) es s has h = (λ q. absurd (cc), h)
  step-HasUser cancel es s has h = (λ q. absurd (cc), h)
  step-HasUser (marked_onboarded none) es s has h = (has, h)
  step-HasUser (marked_onboarded (some u)) es s has h = (λ q. refl, h)

  -- From a state where being signed in means having a user, every sequence of events that finishes
  -- the setup only while its user is still there keeps it so.
  pub run-HasUser :
      (es : List (Event U)) (s : Auth U) → HasUser s → AreOrderly es s → HasUser (run es s)
  unfolding run
  run-HasUser [] s has h = has
  run-HasUser (e ∷ es) s has h = run-HasUser es (step e s) next.0 next.1
    where
      next : HasUser (step e s) × AreOrderly es (step e s)
      next = step-HasUser e es s has h
