-- ===== src/Desktop/Updates/Pending.antt =====
-- desktop/src/updates/pending.js: what a GET /api/update/status payload offers. `Date.parse` is a
-- parameter; a missing or empty time has none.
use stock_dashboard.Prelude.{
  ℕ, ◌+◌, ◌*◌, String, Bool, false, not, ◌&&◌, ◌||◌, Option, none, some, List, ltb, if◌then◌else◌,
  str_eq,
}

-- backend/app/updater.py STALE_RUN_SECONDS, in milliseconds.
abbrev pub stale_run_ms : ℕ
stale_run_ms = 30 * 60000

pub record Check : Type 0 where
  pub ok : Bool
  pub update_available : Bool
  pub behind : ℕ
  pub can_apply : Bool
  pub blocked_reason : String
  pub latest_version : String
  pub current_version : String
  pub commits : List String

pub record Apply : Type 0 where
  pub state : String
  pub updated_at : String
  pub started_at : String

pub record Payload : Type 0 where
  pub check : Option Check
  pub apply : Option Apply
  pub viewer_is_admin : Bool
  pub current_commit : Option String

pub data Offer : Type 0 where
  -- { kind: "apply", behind, latestVersion, commits }
  offer_apply : ℕ → Option String → List String → Offer
  -- { kind: "blocked", behind, reason }
  blocked : ℕ → String → Offer

abbrev pub admin_only_reason : String
admin_only_reason = "Only an administrator can apply it (Info → Updates)."

abbrev pub fallback_blocked_reason : String
fallback_blocked_reason = "It can't be applied to this install."

-- `a || b` on texts.
abbrev pub or_text : String → String → String
or_text a b = if str_eq a "" then b else a

abbrev pub new_version : Check → Option String
new_version check =
    if not (str_eq check.latest_version "")
      && not (str_eq check.latest_version check.current_version)
    then some check.latest_version
    else none

abbrev pub offer : Bool → Check → Offer
offer is_admin check =
    if not is_admin
    then blocked check.behind admin_only_reason
    else if not check.can_apply
    then blocked check.behind (or_text check.blocked_reason fallback_blocked_reason)
    else offer_apply check.behind (new_version check) check.commits

module _ (date_parse : String → Option ℕ) (now : ℕ) where
  unfoldable pub is_apply_running : Option Apply → Bool
  is_apply_running none = false
  is_apply_running (some apply) =
      if not (str_eq apply.state "running")
      then false
      else elim (date_parse (or_text apply.updated_at apply.started_at)) [
        | none ↦ false
        | some updated ↦ ltb now (updated + stale_run_ms)
      ]

  abbrev pub pending_check : Payload → Option Check → Option Offer
  pending_check payload none = none
  pending_check payload (some check) =
      if not check.ok || not check.update_available
      then none
      else if is_apply_running payload.apply
      then none
      else some (offer payload.viewer_is_admin check)

  -- A missing payload is `none`.
  unfoldable pub pending_update : Option Payload → Option Offer
  pending_update none = none
  pending_update (some payload) = pending_check payload payload.check
