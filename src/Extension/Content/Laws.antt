-- ===== src/Extension/Content/Laws.antt =====
-- A page without the overlay has no badges, and the budget is kept; a start that is under way cannot
-- be called off.
use stock_dashboard.Prelude.{
  ℕ, ◌+◌, ◌≤◌, ◌≡◌, refl, sym, ap, ◌∙◌, Bool, true, false, not, ◌&&◌, ◌||◌, Option, none, some,
  List, [], ◌∷◌, ◌++◌, arith, leb, ◌==◌, if◌then◌else◌, get_elem?, any, is_some,
}
use mathlib.Core.Bool.{true≢false}
use stock_dashboard.Extension.Detect.{Matcher}
use stock_dashboard.Extension.Annotate.{Node, annotate, page_limit}
use stock_dashboard.Extension.Annotate.Laws.{annotate-IsWithin}
use stock_dashboard.Extension.Content.{
  Stage, asking_gate, asking_symbols, returned, Content, Event, loaded, gate_known, symbols_known,
  setting_known, mutated, popstate, timer, initial, connect_observer, scan_with, scan_if, scan,
  set_stage, start, after_gate, begin, after_symbols, stop, step, run, disconnect, observe,
}

pub record IsValid (s : Content) : Type 0 where
  pub budget : s.used ≤ page_limit
  pub clean : s.running ≡ false → s.badges ≡ 0
  pub idle : s.running ≡ false → s.observer ≡ none
  pub watched : s.running ≡ true → is_some s.observer ≡ true
  pub ready : s.running ≡ true → is_some s.matcher ≡ true

connect_observer-IsValid : (s : Content) → IsValid s → IsValid (connect_observer s)
connect_observer-IsValid s v = go (not s.running)
  where
    go :
        (b : Bool)
        → IsValid (if b then s else record s { observing = observe s.observer s.observing })
    go true = v
    go false = record {
      budget = v.budget;
      clean = v.clean;
      idle = v.idle;
      watched = v.watched;
      ready = v.ready;
    }

scan-IsValid : (nodes : List Node) (s : Content) → IsValid s → IsValid (scan nodes s)
unfolding scan
scan-IsValid nodes s v = go s.running refl (leb page_limit s.used) s.matcher
  where
    scanned : (m : Matcher) → s.running ≡ true → IsValid (scan_with m nodes s)
    scanned m r = connect_observer-IsValid _ (record {
      budget = omega (arith, (annotate-IsWithin m nodes s.used).of_page, v.budget);
      clean = λ q. absurd (true≢false (sym r ∙ q));
      idle = v.idle;
      watched = v.watched;
      ready = v.ready;
    })

    go :
        (b : Bool)
        → s.running ≡ b
        → (c : Bool) (o : Option Matcher) → IsValid (if not b || c then s else scan_if o nodes s)
    go false r c o = v
    go true r true o = v
    go true r false none = v
    go true r false (some m) = scanned m r

-- A change of the calls of `start` and of the timer alone.
restaged :
    (s : Content) (starts : List Stage) (has_timer : Bool)
    → IsValid s
    → IsValid (record s { starts = starts; has_timer = has_timer })
restaged s starts has_timer v = record {
  budget = v.budget;
  clean = v.clean;
  idle = v.idle;
  watched = v.watched;
  ready = v.ready;
}

either-IsValid : (b : Bool) {s t : Content} → IsValid s → IsValid t → IsValid (if b then s else t)
either-IsValid true v w = v
either-IsValid false v w = w

start-IsValid : (s : Content) → IsValid s → IsValid (start s)
unfolding start
start-IsValid s v =
    either-IsValid s.running v (restaged s (s.starts ++ asking_gate ∷ []) s.has_timer v)

stop-IsValid : (s : Content) → IsValid (stop s)
unfolding stop
stop-IsValid s = record {
  budget = omega arith;
  clean = λ q. refl;
  idle = λ q. refl;
  watched = λ q. absurd (cc);
  ready = λ q. absurd (cc);
}

-- The state in which `begin` scans.
abbrev prepared : Matcher → Content → Content
prepared m s = record s {
  matcher = some m;
  running = true;
  observer = some s.created;
  created = s.created + 1;
}

begin-IsValid :
    (m : Matcher) (nodes : List Node) (s : Content)
    → s.used ≤ page_limit
    → IsValid (begin m nodes s)
unfolding begin
begin-IsValid m nodes s u = connect_observer-IsValid (scan nodes (prepared m s)) (
    scan-IsValid nodes (prepared m s) (record {
      budget = u;
      clean = λ q. absurd (true≢false q);
      idle = λ q. absurd (true≢false q);
      watched = λ q. refl;
      ready = λ q. refl;
    }))

step-IsValid : (e : Event) (s : Content) → IsValid s → IsValid (step e s)
unfolding step
step-IsValid loaded s v = start-IsValid s v
step-IsValid (gate_known i enabled) s v = go (get_elem? s.starts i)
  where
    go : (o : Option Stage) → IsValid (after_gate i enabled o s)
    go (some asking_gate) =
        either-IsValid (not enabled) (restaged s (set_stage i returned s.starts) s.has_timer v)
          (restaged s (set_stage i asking_symbols s.starts) s.has_timer v)
    go none = v
    go (some asking_symbols) = v
    go (some returned) = v
step-IsValid (symbols_known i m nodes) s v = go (get_elem? s.starts i)
  where
    go : (o : Option Stage) → IsValid (after_symbols i m nodes o s)
    go (some asking_symbols) =
        begin-IsValid m nodes (record s { starts = set_stage i returned s.starts }) v.budget
    go none = v
    go (some asking_gate) = v
    go (some returned) = v
step-IsValid (setting_known enabled) s v =
    either-IsValid (enabled && not s.running) (start-IsValid s v)
      (either-IsValid (not enabled && s.running) (stop-IsValid s) v)
step-IsValid (mutated k) s v =
    either-IsValid (any (λ j. j == k) s.observing) (restaged s s.starts true v) v
step-IsValid popstate s v = either-IsValid s.running (restaged s s.starts true v) v
step-IsValid (timer changed nodes) s v = either-IsValid (not s.has_timer) v (
    scan-IsValid nodes (record s { has_timer = false; used = if changed then 0 else s.used })
      (record {
        budget = reset changed;
        clean = v.clean;
        idle = v.idle;
        watched = v.watched;
        ready = v.ready;
      }))
  where
    reset : (b : Bool) → (if b then 0 else s.used) ≤ page_limit
    reset true = omega arith
    reset false = v.budget

-- Over any order of answers, changes and timers, the page's budget is never passed, a page on which
-- the overlay does not run has no badges, and while it runs it has a matcher and an observer.
pub run-initial-IsClean : (es : List Event) → IsValid (run es initial)
unfolding run
run-initial-IsClean es = go es initial (record {
  budget = omega arith;
  clean = λ q. refl;
  idle = λ q. refl;
  watched = λ q. absurd (cc);
  ready = λ q. absurd (cc);
})
  where
    go : (es : List Event) (s : Content) → IsValid s → IsValid (run es s)
    go [] s v = v
    go (e ∷ es) s v = go es (step e s) (step-IsValid e s v)

connect_observer-running : (s : Content) → (connect_observer s).running ≡ s.running
connect_observer-running s = go (not s.running)
  where
    go :
        (b : Bool)
        → (if b then s else record s { observing = observe s.observer s.observing }).running
          ≡ s.running
    go true = refl
    go false = refl

scan-running : (nodes : List Node) (s : Content) → (scan nodes s).running ≡ s.running
unfolding scan
scan-running nodes s = go (not s.running || leb page_limit s.used) s.matcher
  where
    go : (b : Bool) (o : Option Matcher) → (if b then s else scan_if o nodes s).running ≡ s.running
    go true o = refl
    go false none = refl
    go false (some m) = connect_observer-running (record s {
      observing = disconnect s.observer s.observing;
      used = (annotate m nodes s.used).used;
      badges = s.badges + (annotate m nodes s.used).inserted;
    })

begin-running : (m : Matcher) (nodes : List Node) (s : Content) → (begin m nodes s).running ≡ true
unfolding begin
begin-running m nodes s =
    connect_observer-running (scan nodes (prepared m s)) ∙ scan-running nodes (prepared m s)

-- A start that waits for the symbols is not called off when the site is switched off: with the
-- symbols the overlay runs on it all the same.
pub switched_off_runs :
    (s : Content) (i : ℕ) (m : Matcher) (nodes : List Node)
    → s.running ≡ false
    → get_elem? s.starts i ≡ some asking_symbols
    → (run (setting_known false ∷ symbols_known i m nodes ∷ []) s).running ≡ true
unfolding run
switched_off_runs s i m nodes r at =
    ap (λ b. (run (symbols_known i m nodes ∷ []) (if b then stop s else s)).running) r
    ∙ ap (λ o. (after_symbols i m nodes o s).running) at
    ∙ begin-running m nodes (record s { starts = set_stage i returned s.starts })
