-- ===== src/Desktop/Window.antt =====
-- desktop/src/window.js: the health-gated load and the navigation policy. `new URL` is a parameter.
pub mod Laws
use stock_dashboard.Prelude.{
  ℕ, zero, suc, ◌+◌, String, Bool, true, false, not, ◌&&◌, ◌||◌, Option, none, some, List, [], ◌∷◌,
  ltb, leb, ◌==◌, if◌then◌else◌, str_eq,
}
use Prim.Native.Char.{code}
use Prim.Native.String

abbrev pub codes : String → List ℕ
codes String.[] = []
codes (String.◌∷◌ c s) = code c ∷ codes s

-- The parts of a parsed URL that the policy reads.
pub record ParsedUrl : Type 0 where
  pub protocol : String
  pub origin : String
  pub pathname : List ℕ

-- `rest` if the text begins with the prefix.
abbrev pub strip_prefix : List ℕ → List ℕ → Option (List ℕ)
strip_prefix [] s = some s
strip_prefix (p ∷ ps) [] = none
strip_prefix (p ∷ ps) (c ∷ cs) = let rest = strip_prefix ps cs in if p == c then rest else none

abbrev pub is_lower : ℕ → Bool
is_lower c = leb b'a' c && leb c b'z'

abbrev pub same_codes : List ℕ → List ℕ → Bool
same_codes [] [] = true
same_codes [] (c ∷ cs) = false
same_codes (b ∷ bs) [] = false
same_codes (b ∷ bs) (c ∷ cs) = b == c && same_codes bs cs

-- `[a-z]*\/start$`
abbrev pub ends_in_start : List ℕ → Bool
ends_in_start [] = false
ends_in_start (c ∷ cs) =
    if is_lower c then ends_in_start cs else same_codes (c ∷ cs) (codes "/start")

-- `[a-z]+\/start$`
abbrev pub provider_start : List ℕ → Bool
provider_start [] = false
provider_start (c ∷ cs) = is_lower c && ends_in_start cs

-- `/^\/api\/auth\/oauth\/[a-z]+\/start$/`
unfoldable pub is_start_path : List ℕ → Bool
is_start_path path = elim (strip_prefix (codes "/api/auth/oauth/") path) [
  | none ↦ false
  | some rest ↦ provider_start rest
]

pub data WindowOpen : Type 0 where
  allow_child : WindowOpen
  deny : WindowOpen

pub data Effect : Type 0 where
  open_external : String → Effect
  oauth_window : String → Effect
  prevent_default : Effect

module _ (parse_url : String → Option ParsedUrl) (app_origin : String) where
  unfoldable pub is_app_url : String → Bool
  is_app_url url = elim (parse_url url) [ none ↦ false | some u ↦ str_eq u.origin app_origin ]

  unfoldable pub is_oauth_start : String → Bool
  unfolding is_start_path
  is_oauth_start url = elim (parse_url url) [
    | none ↦ false
    | some u ↦ str_eq u.origin app_origin && is_start_path u.pathname
  ]

  unfoldable pub open_externally : String → List Effect
  open_externally url = elim (parse_url url) [
    | none ↦ []
    | some u ↦
        if str_eq u.protocol "http:" || str_eq u.protocol "https:"
        then open_external url ∷ []
        else []
  ]

  -- `setWindowOpenHandler`
  unfoldable pub on_window_open : String → WindowOpen × List Effect
  on_window_open url = if is_app_url url then (allow_child, []) else (deny, open_externally url)

  -- `will-navigate`; the flag says whether an `onOauth` handler was given.
  unfoldable pub on_will_navigate : Bool → String → List Effect
  on_will_navigate has_oauth url =
      if is_oauth_start url && has_oauth
      then prevent_default ∷ oauth_window url ∷ []
      else if is_app_url url
      then []
      else prevent_default ∷ open_externally url

-- One turn of the wait for the backend: is the signal aborted, what did the probe find, and how
-- long did the turn take beyond its sleep.
pub record Turn : Type 0 where
  pub is_aborted : Bool
  pub health : Option String
  pub delay : ℕ

abbrev pub health_timeout_ms : ℕ
health_timeout_ms = 60000

abbrev pub health_interval_ms : ℕ
health_interval_ms = 1000

-- `probeHealth`: the fetch's failure, or its status and its body, whose JSON may be broken.
unfoldable pub probe_health : Option (Bool × Option String) → Option String
probe_health none = none
probe_health (some (is_ok, body)) = if not is_ok then none else body

-- What the loop of `waitForHealth` returns; the outer `none` means that the fuel ran out.
unfoldable pub health_loop : ℕ → ℕ → ℕ → (ℕ → Turn) → ℕ → Option (Option String)
health_loop zero deadline now turns i = none
health_loop (suc fuel) deadline now turns i =
    let rest =
      health_loop fuel deadline (now + health_interval_ms + (turns i).delay) turns (i + 1) in
    if ltb now deadline
    then (if (turns i).is_aborted
        then some none
        else elim (turns i).health [ none ↦ rest | some health ↦ some (some health) ])
    else some none

unfoldable pub wait_for_health : ℕ → (ℕ → Turn) → Option (Option String)
unfolding health_loop
wait_for_health now turns = health_loop 61 (now + health_timeout_ms) now turns 0
