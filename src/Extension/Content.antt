-- ===== src/Extension/Content.antt =====
-- extension/src/content/index.js: when the overlay runs on a page. The calls of `start`, which wait
-- for the worker twice, are numbered, and so are the mutation observers, in the order of creation.
pub mod Laws
use stock_dashboard.Prelude.{
  ℕ, zero, suc, ◌+◌, Bool, true, false, not, ◌&&◌, ◌||◌, Option, none, some, List, [], ◌∷◌, ◌++◌,
  leb, ◌==◌, if◌then◌else◌, get_elem?, filter, any,
}
use stock_dashboard.Extension.Detect.{Matcher}
use stock_dashboard.Extension.Annotate.{Node, Pass, annotate, page_limit}

-- Where a call of `start` stands.
pub data Stage : Type 0 where
  asking_gate asking_symbols returned : Stage

pub record Content : Type 0 where
  pub running : Bool
  pub matcher : Option Matcher
  -- the variable `observer`, and the observers that are observing
  pub observer : Option ℕ
  pub observing : List ℕ
  pub created : ℕ
  -- `budget.used`
  pub used : ℕ
  pub has_timer : Bool
  pub starts : List Stage
  -- the badges on the page
  pub badges : ℕ

pub data Event : Type 0 where
  -- the call at the end of the script
  loaded : Event
  -- the worker's answers to the call of `start` with the given number; with the second one stand
  -- the text nodes of the page
  gate_known : ℕ → Bool → Event
  symbols_known : ℕ → Matcher → List Node → Event
  -- a relevant change of the settings, when the worker has said whether the site is enabled
  setting_known : Bool → Event
  -- an observer saw a change, or the user went back
  mutated : ℕ → Event
  popstate : Event
  -- the timer; has the address changed, and what text nodes are there
  timer : Bool → List Node → Event

abbrev pub initial : Content
initial = record {
  running = false;
  matcher = none;
  observer = none;
  observing = [];
  created = 0;
  used = 0;
  has_timer = false;
  starts = [];
  badges = 0;
}

abbrev pub disconnect : Option ℕ → List ℕ → List ℕ
disconnect none observing = observing
disconnect (some k) observing = filter (λ j. not (j == k)) observing

abbrev pub observe : Option ℕ → List ℕ → List ℕ
observe none observing = observing
observe (some k) observing = if any (λ j. j == k) observing then observing else k ∷ observing

abbrev pub connect_observer : Content → Content
connect_observer s =
    if not s.running then s else record s { observing = observe s.observer s.observing }

abbrev pub scan_with : Matcher → List Node → Content → Content
scan_with m nodes s =
    let pass = annotate m nodes s.used in
    connect_observer (record s {
      observing = disconnect s.observer s.observing;
      used = pass.used;
      badges = s.badges + pass.inserted;
    })

abbrev pub scan_if : Option Matcher → List Node → Content → Content
scan_if none nodes s = s
scan_if (some m) nodes s = scan_with m nodes s

-- `scan()`
unfoldable pub scan : List Node → Content → Content
scan nodes s = if not s.running || leb page_limit s.used then s else scan_if s.matcher nodes s

abbrev pub set_stage : ℕ → Stage → List Stage → List Stage
set_stage i x [] = []
set_stage zero x (c ∷ cs) = x ∷ cs
set_stage (suc i) x (c ∷ cs) = c ∷ set_stage i x cs

unfoldable pub start : Content → Content
start s = if s.running then s else record s { starts = s.starts ++ asking_gate ∷ [] }

abbrev pub after_gate : ℕ → Bool → Option Stage → Content → Content
after_gate i enabled (some asking_gate) s =
    if not enabled
    then record s { starts = set_stage i returned s.starts }
    else record s { starts = set_stage i asking_symbols s.starts }
after_gate i enabled _ s = s

-- The rest of `start`, with nothing looked at again.
unfoldable pub begin : Matcher → List Node → Content → Content
unfolding scan
begin m nodes s = connect_observer (
    scan nodes (record s {
      matcher = some m;
      running = true;
      observer = some s.created;
      created = s.created + 1;
    }))

abbrev pub after_symbols : ℕ → Matcher → List Node → Option Stage → Content → Content
after_symbols i m nodes (some asking_symbols) s =
    begin m nodes (record s { starts = set_stage i returned s.starts })
after_symbols i m nodes _ s = s

unfoldable pub stop : Content → Content
stop s = record s {
  running = false;
  has_timer = false;
  observing = disconnect s.observer s.observing;
  observer = none;
  used = 0;
  badges = 0;
}

unfoldable pub step : Event → Content → Content
unfolding scan start begin stop
step loaded s = start s
step (gate_known i enabled) s = after_gate i enabled (get_elem? s.starts i) s
step (symbols_known i m nodes) s = after_symbols i m nodes (get_elem? s.starts i) s
step (setting_known enabled) s =
    if enabled && not s.running then start s else if not enabled && s.running then stop s else s
step (mutated k) s = if any (λ j. j == k) s.observing then record s { has_timer = true } else s
-- the listener is there while the overlay runs
step popstate s = if s.running then record s { has_timer = true } else s
step (timer changed nodes) s =
    if not s.has_timer
    then s
    else scan nodes (record s { has_timer = false; used = if changed then 0 else s.used })

unfoldable pub run : List Event → Content → Content
unfolding step
run [] s = s
run (e ∷ es) s = run es (step e s)
