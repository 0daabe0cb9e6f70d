-- ===== src/Desktop/Oauth.antt =====
-- desktop/src/oauth.js: the sign-in window, from its first redirect to the one call of `onDone`.
-- `new URL` is a parameter.
pub mod Laws
use stock_dashboard.Prelude.{
  ℕ, ◌+◌, String, Bool, true, false, not, Option, none, some, List, [], ◌∷◌, if◌then◌else◌, str_eq,
}

-- What `settle` reads of a parsed URL; the flag is `pathname.startsWith("/api/auth/oauth/")`.
pub record Landing : Type 0 where
  pub origin : String
  pub is_oauth_path : Bool

pub data Event : Type 0 where
  -- `will-redirect` or `did-navigate`
  visited : String → Event
  -- the user closes the window
  closed : Event

pub record Flow : Type 0 where
  pub settled : Bool
  pub is_open : Bool
  -- how often `onDone` was called
  pub done : ℕ

abbrev pub start : Flow
start = record { settled = false; is_open = true; done = 0 }

-- The `closed` handler, which runs when the user or `destroy` closes the window.
unfoldable pub on_closed : Flow → Flow
on_closed f =
    let gone = record f { is_open = false } in
    if not f.settled then record gone { done = f.done + 1 } else gone

module _ (parse_url : String → Option Landing) (app_origin : String) where
  abbrev pub is_back : Option Landing → Bool
  is_back none = false
  is_back (some u) = if not (str_eq u.origin app_origin) then false else not u.is_oauth_path

  -- `settled` is set before `destroy`, so that the `closed` handler does not report again.
  unfoldable pub settle : String → Flow → Flow
  unfolding on_closed
  settle url f =
      let s = record f { settled = true } in
      let s' = (if s.is_open then on_closed s else s) in
      if f.settled
      then f
      else if is_back (parse_url url)
      then record s' { done = s'.done + 1 }
      else f

  -- A window that is gone sends no events.
  unfoldable pub step : Event → Flow → Flow
  unfolding settle
  step (visited url) f = if f.is_open then settle url f else f
  step closed f = if f.is_open then on_closed f else f

  unfoldable pub run : List Event → Flow → Flow
  unfolding step
  run [] f = f
  run (e ∷ es) f = run es (step e f)
