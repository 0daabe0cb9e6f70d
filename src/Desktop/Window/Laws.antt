-- ===== src/Desktop/Window/Laws.antt =====
-- The navigation policy keeps the shell on its own origin, and the wait for the backend ends.
use stock_dashboard.Prelude.{
  ℕ, zero, suc, ◌+◌, ◌*◌, ◌≤◌, String, ◌≡◌, refl, ◌↔◌, ◌⊎◌, inl, inr, Bool, true, false, ◌&&◌, ◌||◌,
  Option, none, some, List, [], ◌∷◌, arith, ltb, if◌then◌else◌, str_eq, str_eq_iff, All,
}
use stock_dashboard.Desktop.Window.{
  ParsedUrl, allow_child, deny, Effect, open_external, oauth_window, prevent_default, is_app_url,
  is_oauth_start, open_externally, on_window_open, WindowOpen, on_will_navigate, Turn, health_loop,
  wait_for_health, health_timeout_ms, health_interval_ms,
}

-- `event.preventDefault()` is called.
abbrev pub is_prevented : List Effect → Bool
is_prevented [] = false
is_prevented (prevent_default ∷ es) = true
is_prevented (open_external url ∷ es) = is_prevented es
is_prevented (oauth_window url ∷ es) = is_prevented es

-- How many sign-in windows are opened.
abbrev pub sign_ins : List Effect → ℕ
sign_ins [] = 0
sign_ins (oauth_window url ∷ es) = suc (sign_ins es)
sign_ins (open_external url ∷ es) = sign_ins es
sign_ins (prevent_default ∷ es) = sign_ins es

module _ (parse_url : String → Option ParsedUrl) (app_origin : String) where
  -- What may be handed to the operating system: a web address that is not the application's own.
  abbrev pub IsForeignWeb : String → Effect → Type 0
  IsForeignWeb url (open_external other) =
      (other ≡ url)
      × (is_app_url parse_url app_origin url ≡ false)
      × ((u : ParsedUrl) × (parse_url url ≡ some u)
          × ((u.protocol ≡ "http:") ⊎ (u.protocol ≡ "https:")))
  IsForeignWeb url (oauth_window other) =
      (other ≡ url) × (is_oauth_start parse_url app_origin url ≡ true)
  IsForeignWeb url prevent_default = Unit {0}

  open_externally-IsForeignWeb :
      (url : String)
      → is_app_url parse_url app_origin url ≡ false
      → All (IsForeignWeb url) (open_externally parse_url app_origin url)
  unfolding open_externally
  open_externally-IsForeignWeb url h = go (parse_url url) refl
    where
      go :
          (o : Option ParsedUrl)
          → parse_url url ≡ o
          → All (IsForeignWeb url) (elim o [
            | none ↦ []
            | some u ↦
                if str_eq u.protocol "http:" || str_eq u.protocol "https:"
                then open_external url ∷ []
                else []
          ])
      go none e = tt
      go (some u) e = web (str_eq_iff u.protocol "http:").0 (str_eq_iff u.protocol "https:").0
        where
          web :
              (str_eq u.protocol "http:" ≡ true → u.protocol ≡ "http:")
              → (str_eq u.protocol "https:" ≡ true → u.protocol ≡ "https:")
              → All (IsForeignWeb url) (
                  if str_eq u.protocol "http:" || str_eq u.protocol "https:"
                  then open_external url ∷ []
                  else [])
          web f g = pick (str_eq u.protocol "http:") (str_eq u.protocol "https:") f g
            where
              pick :
                  (b c : Bool)
                  → (b ≡ true → u.protocol ≡ "http:")
                  → (c ≡ true → u.protocol ≡ "https:")
                  → All (IsForeignWeb url) (if b || c then open_external url ∷ [] else [])
              pick true c f g = ((refl, h, (u, e, inl (f refl))), tt)
              pick false true f g = ((refl, h, (u, e, inr (g refl))), tt)
              pick false false f g = tt

  -- A child window is allowed exactly for the application's origin. Any other address is denied,
  -- and handed to the browser only if it is an http or https address.
  pub on_window_open_policy :
      (url : String)
      → ((on_window_open parse_url app_origin url).0 ≡ allow_child
          ↔ is_app_url parse_url app_origin url ≡ true)
        × All (IsForeignWeb url) (on_window_open parse_url app_origin url).1
  unfolding on_window_open
  on_window_open_policy url = go (is_app_url parse_url app_origin url) refl
    where
      opened : Bool → WindowOpen × List Effect
      opened b =
          if◌then◌else◌ {A = WindowOpen × List Effect} b (allow_child, [])
            (deny, open_externally parse_url app_origin url)

      go :
          (b : Bool)
          → is_app_url parse_url app_origin url ≡ b
          → ((opened b).0 ≡ allow_child ↔ b ≡ true) × All (IsForeignWeb url) (opened b).1
      go true e = ((λ x. refl, λ x. refl), tt)
      go false e = ((λ x. cc, λ x. cc), open_externally-IsForeignWeb url e)

  abbrev navigated : String → Bool → Bool → List Effect
  navigated url signs_in app =
      if signs_in
      then prevent_default ∷ oauth_window url ∷ []
      else if app
      then []
      else prevent_default ∷ open_externally parse_url app_origin url

  open_externally-sign_ins :
      (url : String) → sign_ins (open_externally parse_url app_origin url) ≡ 0
  unfolding open_externally
  open_externally-sign_ins url = go (parse_url url)
    where
      web : (b : Bool) → sign_ins (if b then open_external url ∷ [] else []) ≡ 0
      web true = refl
      web false = refl

      go :
          (o : Option ParsedUrl)
          → sign_ins (elim o [
            | none ↦ []
            | some u ↦
                if str_eq u.protocol "http:" || str_eq u.protocol "https:"
                then open_external url ∷ []
                else []
          ])
            ≡ 0
      go none = refl
      go (some u) = web (str_eq u.protocol "http:" || str_eq u.protocol "https:")

  navigated_policy :
      (url : String) (start has app : Bool)
      → is_oauth_start parse_url app_origin url ≡ start
      → is_app_url parse_url app_origin url ≡ app
      → (navigated url (start && has) app ≡ [] ↔ (app ≡ true) × ((start && has) ≡ false))
        × All (IsForeignWeb url) (navigated url (start && has) app)
        × (is_prevented (navigated url (start && has) app) ≡ false
            ↔ (app ≡ true) × ((start && has) ≡ false))
        × (sign_ins (navigated url (start && has) app) ≡ (if start && has then 1 else 0))
  navigated_policy url true true app p q =
      ((λ x. cc, λ x. cc), (tt, ((refl, p), tt)), (λ x. cc, λ x. cc), refl)
  navigated_policy url true false true p q =
      ((λ x. (refl, refl), λ x. refl), tt, (λ x. (refl, refl), λ x. refl), refl)
  navigated_policy url true false false p q = (
    (λ x. cc, λ x. cc),
    (tt, open_externally-IsForeignWeb url q),
    (λ x. cc, λ x. cc),
    open_externally-sign_ins url,
  )
  navigated_policy url false has true p q =
      ((λ x. (refl, refl), λ x. refl), tt, (λ x. (refl, refl), λ x. refl), refl)
  navigated_policy url false has false p q = (
    (λ x. cc, λ x. cc),
    (tt, open_externally-IsForeignWeb url q),
    (λ x. cc, λ x. cc),
    open_externally-sign_ins url,
  )

  -- The window's own navigation is let through exactly for an address of the application's origin
  -- that does not start a sign-in with a handler, and prevented for every other address; nothing else
  -- happens exactly where it is let through; and what is opened is a sign-in window, once, for a
  -- sign-in address with a handler, or the browser for a web address of another origin.
  pub on_will_navigate_policy :
      (has_oauth : Bool) (url : String)
      → (on_will_navigate parse_url app_origin has_oauth url ≡ []
          ↔ (is_app_url parse_url app_origin url ≡ true)
            × ((is_oauth_start parse_url app_origin url && has_oauth) ≡ false))
        × All (IsForeignWeb url) (on_will_navigate parse_url app_origin has_oauth url)
        × (is_prevented (on_will_navigate parse_url app_origin has_oauth url) ≡ false
            ↔ (is_app_url parse_url app_origin url ≡ true)
              × ((is_oauth_start parse_url app_origin url && has_oauth) ≡ false))
        × (sign_ins (on_will_navigate parse_url app_origin has_oauth url)
            ≡ (if is_oauth_start parse_url app_origin url && has_oauth then 1 else 0))
  unfolding on_will_navigate
  on_will_navigate_policy has_oauth url =
      navigated_policy url (is_oauth_start parse_url app_origin url) has_oauth
        (is_app_url parse_url app_origin url) refl refl

abbrev turn_of : Bool → Bool → Option String → Option (Option String) → Option (Option String)
turn_of running is_aborted health rest =
    if running
    then (if is_aborted then some none else elim health [ none ↦ rest | some h ↦ some (some h) ])
    else some none

turn_of_ends :
    (running is_aborted : Bool) (health : Option String) {rest : Option (Option String)}
    → (r : Option String) × (rest ≡ some r)
    → (r : Option String) × (turn_of running is_aborted health rest ≡ some r)
turn_of_ends true true health h = (none, refl)
turn_of_ends true false none h = h
turn_of_ends true false (some x) h = (some x, refl)
turn_of_ends false a health h = (none, refl)

health_loop_ends :
    (fuel deadline now : ℕ) (turns : ℕ → Turn) (i : ℕ)
    → deadline ≤ now + fuel * health_interval_ms
    → (r : Option String) × (health_loop (suc fuel) deadline now turns i ≡ some r)
unfolding health_loop
health_loop_ends zero deadline now turns i h = (none, ground arith)
health_loop_ends (suc fuel) deadline now turns i h =
    turn_of_ends (ltb now deadline) (turns i).is_aborted (turns i).health (
      health_loop_ends fuel deadline (now + health_interval_ms + (turns i).delay) turns (i + 1)
        (omega arith))

-- The wait for the backend ends within its minute of turns, whatever the probes find.
pub wait_for_health_ends :
    (now : ℕ) (turns : ℕ → Turn) → (r : Option String) × (wait_for_health now turns ≡ some r)
unfolding wait_for_health
wait_for_health_ends now turns =
    health_loop_ends 60 (now + health_timeout_ms) now turns 0 (omega arith)
