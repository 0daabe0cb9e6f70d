-- ===== src/Desktop/Oauth/Laws.antt =====
-- The sign-in window reports its end exactly once.
use stock_dashboard.Prelude.{String, ◌≡◌, refl, ◌⊎◌, inl, true, false, Option, List, [], ◌∷◌, arith}
use stock_dashboard.Desktop.Oauth.{
  Landing, Event, visited, closed, Flow, start, settle, step, run, on_closed,
}

module _ (parse_url : String → Option Landing) (app_origin : String) where
  -- The window stands open and has reported nothing, or it is gone and has reported once.
  abbrev pub IsFlow : Flow → Type 0
  IsFlow f =
      ((f.is_open ≡ true) × (f.settled ≡ false) × (f.done ≡ 0))
      ⊎ ((f.is_open ≡ false) × (f.done ≡ 1))

  step-IsFlow : (e : Event) (f : Flow) → IsFlow f → IsFlow (step parse_url app_origin e f)
  unfolding step settle on_closed
  step-IsFlow (visited url) f v = ground arith
  step-IsFlow closed f v = ground arith

  run-IsFlow : (es : List Event) (f : Flow) → IsFlow f → IsFlow (run parse_url app_origin es f)
  unfolding run
  run-IsFlow [] f v = v
  run-IsFlow (e ∷ es) f v = run-IsFlow es _ (step-IsFlow e f v)

  -- Whatever the redirects, and whether the user closes the window or the flow comes back, the
  -- window is open with no report made, or closed with exactly one.
  pub run-start-IsFlow : (es : List Event) → IsFlow (run parse_url app_origin es start)
  run-start-IsFlow es = run-IsFlow es start (inl (refl, refl, refl))
