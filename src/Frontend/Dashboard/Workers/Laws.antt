-- ===== src/Frontend/Dashboard/Workers/Laws.antt =====
-- The workers call the server for every source in the order asked, and come to an end.
use stock_dashboard.Prelude.{
  ℕ, zero, suc, ◌+◌, ◌*◌, ◌<◌, String, ◌≡◌, refl, sym, ap, ◌∙◌, Bool, true, false, not, Option,
  none, some, List, [], ◌∷◌, ◌++◌, arith, if◌then◌else◌, length, get_elem?, any,
}
use mathlib.Core.List.{append_assoc, append-nil, nil≢cons}
use stock_dashboard.Frontend.Dashboard.Workers.{
  Worker, looking, calling, finished, Pool, start, set_worker, look, advance_as, advance, run,
  is_finished, is_done,
}

-- What was called and what is queued are, in order, what was asked for.
advance_keeps :
    (i : ℕ) (p : Pool) → (advance i p).called ++ (advance i p).queue ≡ p.called ++ p.queue
unfolding advance
advance_keeps i p = go (get_elem? p.workers i) p.queue refl
  where
    looks :
        (queue : List String)
        → p.queue ≡ queue
        → (look i queue p).called ++ (look i queue p).queue ≡ p.called ++ p.queue
    looks [] e = refl
    looks (s ∷ queue) e = append_assoc p.called (s ∷ []) queue ∙ ap (λ q. p.called ++ q) (sym e)

    go :
        (o : Option Worker) (queue : List String)
        → p.queue ≡ queue
        → (advance_as i o p).called ++ (advance_as i o p).queue ≡ p.called ++ p.queue
    go none queue e = refl
    go (some looking) queue e = looks p.queue refl
    go (some (calling s)) queue e = refl
    go (some finished) queue e = refl

run_keeps : (is : List ℕ) (p : Pool) → (run is p).called ++ (run is p).queue ≡ p.called ++ p.queue
unfolding run
run_keeps [] p = refl
run_keeps (i ∷ is) p = run_keeps is (advance i p) ∙ advance_keeps i p

-- Some worker has returned only if the queue is empty.
abbrev any_finished : List Worker → Bool
any_finished ws = any is_finished ws

any_set :
    (i : ℕ) (x : Worker) (ws : List Worker)
    → is_finished x ≡ false
    → any_finished (set_worker i x ws) ≡ true
    → any_finished ws ≡ true
any_set i x [] h e = e
any_set zero x (w ∷ ws) h e = ground arith
any_set (suc i) x (w ∷ ws) h e = ground (arith, any_set i x ws h)

abbrev IsDrained : Pool → Type 0
IsDrained p = any_finished p.workers ≡ true → p.queue ≡ []

advance-IsDrained : (i : ℕ) (p : Pool) → IsDrained p → IsDrained (advance i p)
unfolding advance
advance-IsDrained i p d = go (get_elem? p.workers i) p.queue refl
  where
    looks : (queue : List String) → p.queue ≡ queue → IsDrained (look i queue p)
    looks [] e = λ h. e
    looks (s ∷ queue) e =
        λ h. absurd (nil≢cons (sym (d (any_set i (calling s) p.workers refl h)) ∙ e))

    go : (o : Option Worker) (queue : List String) → p.queue ≡ queue → IsDrained (advance_as i o p)
    go none queue e = d
    go (some looking) queue e = looks p.queue refl
    go (some (calling s)) queue e = λ h. d (any_set i looking p.workers refl h)
    go (some finished) queue e = d

run-IsDrained : (is : List ℕ) (p : Pool) → IsDrained p → IsDrained (run is p)
unfolding run
run-IsDrained [] p d = d
run-IsDrained (i ∷ is) p d = run-IsDrained is (advance i p) (advance-IsDrained i p d)

set_worker-length : (i : ℕ) (x : Worker) (ws : List Worker) → length (set_worker i x ws) ≡ length ws
set_worker-length i x [] = refl
set_worker-length zero x (w ∷ ws) = refl
set_worker-length (suc i) x (w ∷ ws) = ap suc (set_worker-length i x ws)

-- How many calls are under way.
abbrev pub is_calling : Worker → Bool
is_calling (calling s) = true
is_calling _ = false

-- What remains to be done: two steps for a source in the queue, two for a call, one for a look.
abbrev pub cost : Worker → ℕ
cost looking = 1
cost (calling s) = 2
cost finished = 0

abbrev pub costs : List Worker → ℕ
costs [] = 0
costs (w ∷ ws) = cost w + costs ws

abbrev pub remaining : Pool → ℕ
remaining p = 2 * length p.queue + costs p.workers

finished_is_there :
    (ws : List Worker)
    → 0 < length ws
    → not (any (λ w. not (is_finished w)) ws) ≡ true
    → any_finished ws ≡ true
finished_is_there [] n h = absurd (omega arith)
finished_is_there (finished ∷ ws) n h = refl
finished_is_there (looking ∷ ws) n h = absurd (cc)
finished_is_there (calling s ∷ ws) n h = absurd (cc)

advance-length : (i : ℕ) (p : Pool) → length (advance i p).workers ≡ length p.workers
unfolding advance
advance-length i p = go (get_elem? p.workers i) p.queue
  where
    looks : (queue : List String) → length (look i queue p).workers ≡ length p.workers
    looks [] = set_worker-length i finished p.workers
    looks (s ∷ queue) = set_worker-length i (calling s) p.workers

    go :
        (o : Option Worker) (queue : List String)
        → length (advance_as i o p).workers ≡ length p.workers
    go none queue = refl
    go (some looking) queue = looks p.queue
    go (some (calling s)) queue = set_worker-length i looking p.workers
    go (some finished) queue = refl

run-length : (is : List ℕ) (p : Pool) → length (run is p).workers ≡ length p.workers
unfolding run
run-length [] p = refl
run-length (i ∷ is) p = run-length is (advance i p) ∙ advance-length i p

-- Whatever order the workers run in, once all of them have returned the server was asked to refresh
-- exactly the wanted sources, each as often as it was wanted and in that order.
pub run-start-called :
    (wanted : List String) (is : List ℕ)
    → is_done (run is (start wanted)) ≡ true
    → (run is (start wanted)).called ≡ wanted
unfolding is_done
run-start-called wanted is h =
    sym (append-nil called) ∙ ap (λ q. called ++ q) (sym drained) ∙ run_keeps is (start wanted)
  where
    called : List String
    called = (run is (start wanted)).called

    ended : any_finished (run is (start wanted)).workers ≡ true
    ended =
        finished_is_there (run is (start wanted)).workers
          (omega (arith, run-length is (start wanted))) h

    drained : (run is (start wanted)).queue ≡ []
    drained = run-IsDrained is (start wanted) (λ e. absurd (cc)) ended

abbrev pub can_run : Option Worker → Bool
can_run none = false
can_run (some w) = not (is_finished w)

-- How many steps of a schedule are taken by a worker that has not returned.
abbrev pub steps : List ℕ → Pool → ℕ
steps [] p = 0
steps (i ∷ is) p = (if can_run (get_elem? p.workers i) then 1 else 0) + steps is (advance i p)
