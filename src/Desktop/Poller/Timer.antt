-- ===== src/Desktop/Poller/Timer.antt =====
-- `start` and `stop` of desktop/src/alerts/poller.js: the interval that polls. Intervals are numbered.
use stock_dashboard.Prelude.{
  ℕ, ◌+◌, ◌≡◌, refl, ap, ◌∙◌, Bool, true, false, not, Option, none, some, List, [], ◌∷◌, arith,
  ◌==◌, if◌then◌else◌, filter, any,
}

pub record Timer : Type 0 where
  -- `this.timer`, and the intervals that tick
  pub timer : Option ℕ
  pub ticking : List ℕ
  pub intervals : ℕ
  -- how often `poll` was called
  pub polls : ℕ

pub data Call : Type 0 where
  start stop : Call
  tick : ℕ → Call

abbrev pub constructed : Timer
constructed = record { timer = none; ticking = []; intervals = 0; polls = 0 }

abbrev pub start_unless : Option ℕ → Timer → Timer
start_unless (some t) s = s
start_unless none s = record s {
  timer = some s.intervals;
  ticking = s.intervals ∷ s.ticking;
  intervals = s.intervals + 1;
  polls = s.polls + 1;
}

abbrev pub clear_interval : Option ℕ → List ℕ → List ℕ
clear_interval none ticking = ticking
clear_interval (some t) ticking = filter (λ j. not (j == t)) ticking

unfoldable pub step : Call → Timer → Timer
step start s = start_unless s.timer s
step stop s = record s { timer = none; ticking = clear_interval s.timer s.ticking }
step (tick t) s = if any (λ j. j == t) s.ticking then record s { polls = s.polls + 1 } else s

unfoldable pub run : List Call → Timer → Timer
unfolding step
run [] s = s
run (c ∷ cs) s = run cs (step c s)

abbrev pub list_of : Option ℕ → List ℕ
list_of none = []
list_of (some t) = t ∷ []

cleared : (o : Option ℕ) → clear_interval o (list_of o) ≡ []
cleared none = refl
cleared (some t) = ground arith

step_single :
    (c : Call) (s : Timer)
    → s.ticking ≡ list_of s.timer
    → (step c s).ticking ≡ list_of (step c s).timer
unfolding step
step_single start s h = go s.timer h
  where
    go :
        (o : Option ℕ)
        → s.ticking ≡ list_of o
        → (start_unless o s).ticking ≡ list_of (start_unless o s).timer
    go none h = ap (λ ts. s.intervals ∷ ts) h
    go (some t) q = h
step_single stop s h = ap (clear_interval s.timer) h ∙ cleared s.timer
step_single (tick t) s h = go (any (λ j. j == t) s.ticking)
  where
    go :
        (b : Bool)
        → (if b then record s { polls = s.polls + 1 } else s).ticking
          ≡ list_of (if b then record s { polls = s.polls + 1 } else s).timer
    go true = h
    go false = h

-- However often the poller is started and stopped, the interval of `timer` ticks alone, or none does.
pub run_single :
    (cs : List Call) → (run cs constructed).ticking ≡ list_of (run cs constructed).timer
unfolding run
run_single cs = go cs constructed refl
  where
    go :
        (cs : List Call) (s : Timer)
        → s.ticking ≡ list_of s.timer
        → (run cs s).ticking ≡ list_of (run cs s).timer
    go [] s h = h
    go (c ∷ cs) s h = go cs (step c s) (step_single c s h)
