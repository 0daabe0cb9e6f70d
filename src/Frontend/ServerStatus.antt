-- ===== src/Frontend/ServerStatus.antt =====
-- frontend/src/hooks/useServerStatus.js: the polling of the Server page. O, S, E and C are what the
-- server answers about itself, its sources, its events and its schedules, and F is the filter of the
-- event log. The two requests of a stage settle together, as `Promise.all` does, and the stages in
-- flight are numbered as they are sent.
pub mod Laws
mod Tests
use stock_dashboard.Prelude.{
  ℕ, ◌+◌, String, Bool, true, false, not, ◌&&◌, Option, none, some, List, [], ◌∷◌, ◌++◌, ◌==◌,
  if◌then◌else◌, filter,
}

-- The stages of a `pull`, each with the filter of the render that made it.
pub data Stage (F : Type 0) : Type 0 where
  -- the overview and the sources; the flag is `withSlow`
  overview_of : Bool → Option F → Stage F
  -- the events and the schedules
  log_of : Option F → Stage F

pub data Reply (O S E C : Type 0) : Type 0 where
  status : O → S → Reply O S E C
  log : E → C → Reply O S E C
  failure : String → Reply O S E C

-- What the page shows.
pub record Shown (O S E C F : Type 0) : Type 0 where
  pub overview : Option O
  pub sources : Option S
  -- the events, with the filter that they were asked for with
  pub events : Option (Option F × E)
  pub schedules : Option C
  pub error : Option String
  pub loading : Bool

pub record Server (O S E C F : Type 0) : Type 0 where
  pub shown : Shown O S E C F
  pub mounted : Bool
  pub active : Bool
  pub filter_by : Option F
  -- whether the intervals and the listener of `visibilitychange` are set up
  pub polling : Bool
  pub pending : List (ℕ × Stage F)
  pub sent : ℕ

pub data Event (O S E C F : Type 0) : Type 0 where
  -- the intervals and `visibilitychange`, with `document.hidden`
  fast slow visible : Bool → Event O S E C F
  refresh : Event O S E C F
  -- a render with another `active` or another filter
  rerender : Bool → Option F → Event O S E C F
  unmount : Event O S E C F
  reply : ℕ → Reply O S E C → Event O S E C F

module _ {F : Type 0} where
  abbrev pub find_stage : ℕ → List (ℕ × Stage F) → Option (Stage F)
  find_stage i [] = none
  find_stage i (p ∷ ps) = if p.0 == i then some p.1 else find_stage i ps

  abbrev pub without_stage : ℕ → List (ℕ × Stage F) → List (ℕ × Stage F)
  without_stage i ps = filter (λ p. not (p.0 == i)) ps

module _ {O S E C F : Type 0} where
  abbrev pub send : Stage F → Server O S E C F → Server O S E C F
  send st s = record s { pending = s.pending ++ (s.sent, st) ∷ []; sent = s.sent + 1 }

  -- `pull` up to its first await.
  unfoldable pub pull : Bool → Server O S E C F → Server O S E C F
  pull with_slow s = send (Stage.overview_of with_slow s.filter_by) s

  -- A stage goes on; `finally` and the setters look at `mounted` first.
  unfoldable pub settle : Stage F → Reply O S E C → Server O S E C F → Server O S E C F
  settle (Stage.overview_of with_slow f) (Reply.status o src) s =
      let s' = record s {
        shown = record s.shown {
          overview = some o;
          sources = some src;
          error = none;
          loading = if with_slow then s.shown.loading else false;
        };
      } in
      if not s.mounted then s else (if with_slow then send (Stage.log_of f) s' else s')
  settle (Stage.log_of f) (Reply.log ev sch) s = if not s.mounted then s else record s {
    shown = record s.shown { events = some (f, ev); schedules = some sch; loading = false };
  }
  settle st (Reply.failure e) s =
      if not s.mounted
      then s
      else record s { shown = record s.shown { error = some e; loading = false } }
  settle st r s = s

  abbrev pub arrive : Option (Stage F) → ℕ → Reply O S E C → Server O S E C F → Server O S E C F
  arrive none i r s = s
  arrive (some st) i r s = settle st r (record s { pending = without_stage i s.pending })

  -- The clean-up of the effect, where it was set up, and the effect.
  unfoldable pub clean_up : Server O S E C F → Server O S E C F
  clean_up s = if s.polling then record s { mounted = false; polling = false } else s

  unfoldable pub effect : Server O S E C F → Server O S E C F
  unfolding pull
  effect s =
      let s' = record s { mounted = true } in
      if not s.active then s' else pull true (record s' { polling = true })

  unfoldable pub step : Event O S E C F → Server O S E C F → Server O S E C F
  unfolding pull settle clean_up effect
  step (Event.fast hidden) s = if s.polling && not hidden then pull false s else s
  step (Event.slow hidden) s = if s.polling && not hidden then pull true s else s
  step (Event.visible hidden) s = if s.polling && not hidden then pull true s else s
  step Event.refresh s = pull true s
  step (Event.rerender active f) s = effect (record (clean_up s) { active = active; filter_by = f })
  step Event.unmount s = clean_up s
  step (Event.reply i r) s = arrive (find_stage i s.pending) i r s

  unfoldable pub run : List (Event O S E C F) → Server O S E C F → Server O S E C F
  unfolding step
  run [] s = s
  run (e ∷ es) s = run es (step e s)

  -- The first render, with its effect.
  unfoldable pub initial : Bool → Option F → Server O S E C F
  unfolding effect
  initial active f = effect (record {
    shown = record {
      overview = none;
      sources = none;
      events = none;
      schedules = none;
      error = none;
      loading = true;
    };
    mounted = true;
    active = active;
    filter_by = f;
    polling = false;
    pending = [];
    sent = 0;
  })
