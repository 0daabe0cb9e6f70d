-- ===== src/Frontend/Dashboard/Laws.antt =====
-- A failing endpoint costs only its own panel, and only the probe's failure is an outage.
use stock_dashboard.Prelude.{
  String, ◌≡◌, refl, ap, ◌∙◌, ◌↔◌, ◌⊎◌, inl, inr, Bool, true, false, not, ◌&&◌, ◌||◌, Option, none,
  some, List, [], ◌∷◌, arith, str_eq, str_eq_iff, Bool-cases, any, is_some,
}
use stock_dashboard.Frontend.Dashboard.{
  Settled, fulfilled, rejected, Endpoint, endpoints, Dashboard, Payloads, applied, patch_of, load,
  outage,
}

abbrev pub value_of : {V : Type 0} → Settled V → Option V
value_of (fulfilled v) = some v
value_of (rejected message) = none

-- The new value where there is one, and the old one otherwise.
abbrev pub or_old : {V : Type 0} → Option V → Option V → Option V
or_old none old = old
or_old (some v) old = some v

-- An endpoint that is loaded into the panel of its own key.
abbrev pub feeds : String → Endpoint → Bool
feeds k e = str_eq e.key k && not e.feeds_unread

abbrev pub only_if {ℓ} : {A : Type ℓ} → Bool → Option A → Option A
only_if true o = o
only_if false o = none

module _ {V : Type 0} (p : Payloads V) where
  applied_at :
      (e : Endpoint) (r : Settled V) (k : String)
      → str_eq "alerts" k ≡ false
      → str_eq "unreadAlerts" k ≡ false
      → applied p e r k ≡ only_if (feeds k e) (value_of r)
  applied_at e (rejected message) k na nu = go (feeds k e)
    where
      go : (b : Bool) → ◌≡◌ {A = Option V} none (only_if b none)
      go true = refl
      go false = refl
  applied_at e (fulfilled v) k na nu = ground (arith)

  -- Two options that agree with a value where they are there.
  merged :
      (b c : Bool) (o : Option V)
      → elim (only_if c o) [ none ↦ only_if b o | some v ↦ some v ] ≡ only_if (b || c) o
  merged true true none = refl
  merged true true (some v) = refl
  merged true false o = refl
  merged false true none = refl
  merged false true (some v) = refl
  merged false false o = refl

  feeds_at :
      (e : Endpoint) (results : String → Settled V) (k : String)
      → only_if (feeds k e) (value_of (results e.key)) ≡ only_if (feeds k e) (value_of (results k))
  feeds_at e results k = go (Bool-cases (str_eq e.key k))
    where
      go :
          (str_eq e.key k ≡ true) ⊎ (str_eq e.key k ≡ false)
          → only_if (feeds k e) (value_of (results e.key))
            ≡ only_if (feeds k e) (value_of (results k))
      go (inl h) = ap (λ j. only_if (feeds k e) (value_of (results j))) ((str_eq_iff e.key k).0 h)
      go (inr h) = rw h refl

  patch_of_at :
      (es : List Endpoint) (results : String → Settled V) (k : String)
      → str_eq "alerts" k ≡ false
      → str_eq "unreadAlerts" k ≡ false
      → patch_of p es results k ≡ only_if (any (feeds k) es) (value_of (results k))
  unfolding patch_of
  patch_of_at [] results k na nu = refl
  patch_of_at (e ∷ es) results k na nu =
      ap {B = Option V} (λ o. elim o [ none ↦ applied p e (results e.key) k | some v ↦ some v ])
        (patch_of_at es results k na nu)
      ∙ ap {B = Option V}
          (λ o. elim (only_if (any (feeds k) es) (value_of (results k))) [
            | none ↦ o
            | some v ↦ some v
          ])
          (applied_at e (results e.key) k na nu ∙ feeds_at e results k)
      ∙ merged (feeds k e) (any (feeds k) es) (value_of (results k))

  -- A load gives every panel but the alerts' two the value that its endpoint answered, and leaves it
  -- as it was where the endpoint failed, or where there is none for it.
  pub load_panel :
      (results : String → Settled V) (s : Dashboard V) (k : String)
      → str_eq "alerts" k ≡ false
      → str_eq "unreadAlerts" k ≡ false
      → (load p results s).contents k
        ≡ or_old (only_if (any (feeds k) endpoints) (value_of (results k))) (s.contents k)
  unfolding load
  load_panel results s k na nu =
      ap {B = Option V} (λ o. elim o [ none ↦ s.contents k | some v ↦ some v ])
        (patch_of_at endpoints results k na nu)
      ∙ go (only_if (any (feeds k) endpoints) (value_of (results k)))
    where
      go :
          (o : Option V)
          → elim o [ none ↦ s.contents k | some v ↦ some v ] ≡ or_old o (s.contents k)
      go none = refl
      go (some v) = refl

  -- After a load the outage is reported exactly when the probe, the fetch of the sources, failed, and
  -- nothing is loading any more, whatever the other endpoints answered.
  pub load_error :
      (results : String → Settled V) (s : Dashboard V)
      → ((load p results s).error ≡ none ↔ is_some (value_of (results "sources")) ≡ true)
        × ((load p results s).loading ≡ false)
  unfolding load
  load_error results s = (go (results "sources"), refl)
    where
      go : (r : Settled V) → outage p r ≡ none ↔ is_some (value_of r) ≡ true
      go (fulfilled v) = (λ h. refl, λ h. refl)
      go (rejected message) = (λ h. absurd (cc), λ h. absurd (cc))
