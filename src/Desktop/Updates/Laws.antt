-- ===== src/Desktop/Updates/Laws.antt =====
-- What the update check may do: who is offered what, and when the updater is started.
use stock_dashboard.Prelude.{
  ℕ, suc, ◌+◌, ◌-◌, ◌<◌, min, max, String, ◌≡◌, refl, sym, ap, ◌∙◌, ◌≢◌, ◌↔◌, inl, inr, Bool, true,
  false, not, Option, none, some, List, [], ◌∷◌, ◌++◌, map, arith, ltb, if◌then◌else◌, str_eq,
  str_eq_iff, Bool-cases, length, take, length-take,
}
use mathlib.Core.Bool.{true≢false}
use stock_dashboard.Desktop.Updates.Pending.{
  Apply, or_text, stale_run_ms, Check, Payload, Offer, offer_apply, blocked, pending_update,
  pending_check, is_apply_running, new_version,
}
use stock_dashboard.Desktop.Updates.Launch.{
  Line, commit_line, and_more, empty_line, restart_note, describe, max_listed_commits, Reply, threw,
  answered, Action, blocked_box, offer_box, post_apply, error_box, Outcome, retry, finished,
  applied, check_for_update, act_on, is_signed_out_or_unreachable,
}

module _ (date_parse : String → Option ℕ) (now : ℕ) where
  -- An update is being applied: its state says so, and it was last heard of, or else started, less
  -- than half an hour ago.
  pub record IsLive (apply : Apply) : Type 0 where
    pub running : apply.state ≡ "running"
    pub recent :
        (t : ℕ) × (date_parse (or_text apply.updated_at apply.started_at) ≡ some t)
        × (now < t + 1800000)

  -- The update may be applied: a successful check found one, none is being applied, and the viewer is
  -- an administrator of an install that can apply it.
  pub record MayApply (payload : Payload) (check : Check) : Type 0 where
    pub present : payload.check ≡ some check
    pub checked : check.ok ≡ true
    pub available : check.update_available ≡ true
    pub idle : (apply : Apply) → payload.apply ≡ some apply → IsLive apply → ⊥
    pub admin : payload.viewer_is_admin ≡ true
    pub applicable : check.can_apply ≡ true

  abbrev recently : Option ℕ → Bool
  recently o = elim o [ none ↦ false | some updated ↦ ltb now (updated + stale_run_ms) ]

  recently_lem : (o : Option ℕ) → recently o ≡ true → (t : ℕ) × (o ≡ some t) × (now < t + 1800000)
  recently_lem none e = cc
  recently_lem (some t) e = (t, refl, ground (arith, e))

  IsLive-is_apply_running : (a : Apply) → is_apply_running date_parse now (some a) ≡ true → IsLive a
  unfolding is_apply_running
  IsLive-is_apply_running a e = go (str_eq a.state "running") (str_eq_iff a.state "running").0 e
    where
      go :
          (b : Bool)
          → (b ≡ true → a.state ≡ "running")
          → (if not b then false else recently (date_parse (or_text a.updated_at a.started_at)))
            ≡ true
          → IsLive a
      go true h r = record { running = h refl; recent = recently_lem _ r }
      go false h r = absurd (cc)

  is_apply_running-IsLive : (a : Apply) → IsLive a → is_apply_running date_parse now (some a) ≡ true
  unfolding is_apply_running
  is_apply_running-IsLive a live =
      let (t, parsed, recent) = live.recent in
      ap (λ b. if not b then false else recently (date_parse (or_text a.updated_at a.started_at)))
        ((str_eq_iff a.state "running").1 live.running)
      ∙ ap recently parsed
      ∙ ground (arith, recent)

  idle-is_apply_running :
      (o : Option Apply)
      → ((apply : Apply) → o ≡ some apply → IsLive apply → ⊥)
      → is_apply_running date_parse now o ≡ false
  unfolding is_apply_running
  idle-is_apply_running none h = refl
  idle-is_apply_running (some a) h = elim (Bool-cases (is_apply_running date_parse now (some a))) [
    | inl e ↦ absurd (h a refl (IsLive-is_apply_running a e))
    | inr e ↦ e
  ]

  is_apply_running-idle :
      (o : Option Apply)
      → is_apply_running date_parse now o ≡ false
      → (apply : Apply) → o ≡ some apply
      → IsLive apply
      → ⊥
  is_apply_running-idle o e apply p live =
      true≢false
        (sym (ap (is_apply_running date_parse now) p ∙ is_apply_running-IsLive apply live) ∙ e)

  offered-MayApply :
      (payload : Payload) (check : Check)
      → MayApply payload check
      → pending_update date_parse now (some payload)
        ≡ some (offer_apply check.behind (new_version check) check.commits)
  unfolding pending_update
  offered-MayApply payload check m = ground (
    arith,
    idle-is_apply_running payload.apply m.idle,
    m.present,
    m.checked,
    m.available,
    m.admin,
    m.applicable,
  )

  -- What an offer to apply comes from.
  abbrev pub IsOffered : Payload → ℕ → Option String → List String → Type 0
  IsOffered payload behind version commits =
      (check : Check) × MayApply payload check
      × (check.behind ≡ behind)
      × (check.commits ≡ commits)
      × (new_version check ≡ version)
      × (version ≢ some check.current_version)

  check-MayApply :
      (payload : Payload) (found : Option Check) {behind : ℕ} {version : Option String}
      {commits : List String}
      → payload.check ≡ found
      → pending_check date_parse now payload found ≡ some (offer_apply behind version commits)
      → IsOffered payload behind version commits
  check-MayApply payload none p e = cc
  check-MayApply payload (some check) {version = version} p e = (
    check,
    record {
      present = p;
      checked = ground arith;
      available = ground arith;
      idle = is_apply_running-idle payload.apply (ground arith);
      admin = ground arith;
      applicable = ground arith;
    },
    ground arith,
    ground arith,
    ground arith,
    λ v. ground (arith, str_eq_iff check.latest_version check.current_version),
  )

  -- An update is offered for applying exactly where it may be applied: a successful check found it,
  -- the viewer is an administrator of an install that can apply it, and no run is in progress whose
  -- state is "running" and whose time stamp is less than half an hour old. The offer then shows the
  -- check's commits, and the version that it shows is never the one that is installed.
  pub pending_update-MayApply :
      (payload : Payload) (behind : ℕ) (version : Option String) (commits : List String)
      → pending_update date_parse now (some payload) ≡ some (offer_apply behind version commits)
        ↔ IsOffered payload behind version commits
  unfolding pending_update
  pending_update-MayApply payload behind version commits = (
    λ e. check-MayApply payload payload.check refl e,
    λ (check, may, b, c, v, n).
        offered-MayApply payload check may
        ∙ ap (λ b. some (offer_apply b (new_version check) check.commits)) b
        ∙ ap (λ c. some (offer_apply behind (new_version check) c)) c
        ∙ ap (λ v. some (offer_apply behind v commits)) v,
  )

abbrev pub has_post : List Action → Bool
has_post [] = false
has_post (post_apply ∷ actions) = true
has_post (blocked_box n r ∷ actions) = has_post actions
has_post (offer_box n v l ∷ actions) = has_post actions
has_post (error_box m ∷ actions) = has_post actions

-- The updater was asked to run, and did not refuse.
abbrev pub has_applied : Outcome → Bool
has_applied retry = false
has_applied finished = false
has_applied (applied c) = true

abbrev pub has_retry : Outcome → Bool
has_retry retry = true
has_retry finished = false
has_retry (applied c) = false

module _ (date_parse : String → Option ℕ) (now : ℕ) where
  -- The updater is started only after the payload allowed it to its administrator and the user clicked
  -- the first button; the check then counts as applied exactly when the request succeeded.
  pub check_for_update_posts :
      (payload : Payload) (response : ℕ) (post : Option String)
      → has_post (check_for_update date_parse now (answered (some payload)) response post).0 ≡ true
      → (check : Check) × MayApply date_parse now payload check
        × (response ≡ 0)
        × ((has_applied (check_for_update date_parse now (answered (some payload)) response post).1
              ≡ true)
            ↔ (post ≡ none))
  unfolding check_for_update
  check_for_update_posts payload response post h =
      go (pending_update date_parse now (some payload)) refl h
    where
      go :
          (o : Option Offer)
          → pending_update date_parse now (some payload) ≡ o
          → has_post (act_on date_parse now (some payload) response post o).0 ≡ true
          → (check : Check) × MayApply date_parse now payload check
            × (response ≡ 0)
            × ((has_applied (act_on date_parse now (some payload) response post o).1 ≡ true)
                ↔ (post ≡ none))
      go none e p = cc
      go (some (blocked b r)) e p = cc
      go (some (offer_apply b v cs)) e p =
          let found = (pending_update-MayApply date_parse now payload b v cs).0 e in
          (found.0, found.1, ground arith, (λ q. ground arith, λ q. ground arith))

  act_on-ne-retry :
      (payload : Option Payload) (response : ℕ) (post : Option String) (o : Option Offer)
      → has_retry (act_on date_parse now payload response post o).1 ≡ false
  act_on-ne-retry payload response post none = refl
  act_on-ne-retry payload response post (some (blocked b r)) = refl
  act_on-ne-retry payload response post (some (offer_apply b v cs)) = ground arith

  -- Only a check that was signed out or did not reach the backend is tried again, and it shows
  -- nothing.
  pub check_for_update_retries :
      (reply : Reply) (response : ℕ) (post : Option String)
      → has_retry (check_for_update date_parse now reply response post).1 ≡ true
      → (status : Option ℕ) × (reply ≡ threw status)
        × (is_signed_out_or_unreachable status ≡ true)
        × ((check_for_update date_parse now reply response post).0 ≡ [])
  unfolding check_for_update
  check_for_update_retries (threw status) response post h =
      (status, refl, ground arith, ground arith)
  check_for_update_retries (answered payload) response post h =
      cc (act_on-ne-retry payload response post (pending_update date_parse now payload))

-- The commits that the dialog lists, and the number that it adds for the rest.
abbrev pub listed : List Line → ℕ
listed [] = 0
listed (commit_line subject ∷ ls) = suc (listed ls)
listed (and_more n ∷ ls) = n + listed ls
listed (empty_line ∷ ls) = listed ls
listed (restart_note ∷ ls) = listed ls

listed-append : (xs ys : List Line) → listed (xs ++ ys) ≡ listed xs + listed ys
listed-append [] ys = omega arith
listed-append (commit_line s ∷ xs) ys = omega (arith, listed-append xs ys)
listed-append (and_more n ∷ xs) ys = omega (arith, listed-append xs ys)
listed-append (empty_line ∷ xs) ys = listed-append xs ys
listed-append (restart_note ∷ xs) ys = listed-append xs ys

listed-map : (xs : List String) → listed (map commit_line xs) ≡ length xs
listed-map [] = refl
listed-map (x ∷ xs) = ap suc (listed-map xs)

length-map_line : (xs : List String) → length (map commit_line xs) ≡ length xs
length-map_line [] = refl
length-map_line (x ∷ xs) = ap suc (length-map_line xs)

-- The dialog accounts for every new commit: the subjects shown, at most five, and the number of
-- the others add up to `behind`, unless more subjects are shown than that.
pub listed-describe :
    (behind : ℕ) (commits : List String)
    → listed (describe behind commits) ≡ max behind (min max_listed_commits (length commits))
unfolding describe
listed-describe behind commits =
    let shown = map commit_line (take max_listed_commits commits) in
    let rest = behind - length shown in
    ground (
      arith,
      listed-append shown (and_more rest ∷ []),
      listed-append (shown ++ and_more rest ∷ []) (empty_line ∷ restart_note ∷ []),
      listed-append shown (empty_line ∷ restart_note ∷ []),
      listed-map (take max_listed_commits commits),
      length-map_line (take max_listed_commits commits),
      length-take max_listed_commits commits,
    )
