-- ===== src/Desktop/Shell/Laws.antt =====
-- The shell over any sequence of events: one update check at a time and none after the last, one
-- tray hint, no window lost, and what a superseded health wait does.
use stock_dashboard.Prelude.{
  ℕ, suc, ◌+◌, ◌≤◌, ◌≡◌, refl, Bool, true, false, Option, some, List, [], ◌∷◌, ◌++◌, arith,
  if◌then◌else◌, get_elem?,
}
use stock_dashboard.Desktop.Shell.{
  send_down, load_dashboard, is_aborted, close_for_good, quit, pending, running, done, retry,
  finished, applied, Stage, loading_file, waiting, loading_url, Shell, Event, show_waiting,
  file_loaded, health_known, url_loaded, update_trigger, update_finished, close_window, show_window,
  navigate, route_loaded, quit, Effect, start_update_check, show_hint, initial, after_file,
  after_health, after_url, step, run,
}

abbrev pub is_start : Effect → Bool
is_start start_update_check = true
is_start _ = false

abbrev pub is_hint : Effect → Bool
is_hint show_hint = true
is_hint _ = false

abbrev pub count_if {ℓ} : {A : Type ℓ} → (A → Bool) → List A → ℕ
count_if p [] = 0
count_if p (x ∷ xs) = if p x then suc (count_if p xs) else count_if p xs

count_if-append {ℓ} :
    {A : Type ℓ} (p : A → Bool) (xs ys : List A)
    → count_if p (xs ++ ys) ≡ count_if p xs + count_if p ys
count_if-append p [] ys = omega arith
count_if-append p (x ∷ xs) ys = ground (arith, count_if-append p xs ys)

abbrev pub is_retry : Event → Bool
is_retry (update_finished retry) = true
is_retry _ = false

-- One if a check may still start.
abbrev pub credit : Shell → ℕ
credit s = elim s.update_check [ pending ↦ 1 | running ↦ 0 | done ↦ 0 ]

after_file_keeps :
    (s : Shell) (i : ℕ) (o : Option Stage)
    → ((after_file s i o).0.update_check ≡ s.update_check)
      × (count_if is_start (after_file s i o).1 ≡ 0)
after_file_keeps s i (some loading_file) = (refl, refl)
after_file_keeps s i _ = (refl, refl)

after_health_keeps :
    (s : Shell) (i : ℕ) (up : Bool) (o : Option Stage)
    → ((after_health s i up o).0.update_check ≡ s.update_check)
      × (count_if is_start (after_health s i up o).1 ≡ 0)
after_health_keeps s i up (some (waiting g)) = ground arith
after_health_keeps s i up _ = (refl, refl)

step_starts :
    (e : Event) (s : Shell)
    → count_if is_start (step e s).1 + credit (step e s).0
      ≤ credit s + (if is_retry e then 1 else 0)
unfolding step
step_starts show_waiting s = ground arith
step_starts (file_loaded i) s = ground (arith, after_file_keeps s i (get_elem? s.calls i))
step_starts (health_known i up) s = ground (arith, after_health_keeps s i up (get_elem? s.calls i))
step_starts (url_loaded i) s = url s (get_elem? s.calls i)
  where
    url :
        (s : Shell) (o : Option Stage)
        → count_if is_start (after_url s i o).1 + credit (after_url s i o).0 ≤ credit s + 0
    url s (some loading_url) = ground arith
    url s _ = omega arith
step_starts update_trigger s = ground arith
step_starts (update_finished retry) s = ground arith
step_starts (update_finished finished) s = ground arith
step_starts (update_finished applied) s = ground arith
step_starts close_window s = ground arith
step_starts show_window s = ground arith
step_starts (navigate route) s = ground arith
step_starts route_loaded s = ground arith
step_starts quit s = ground arith

run_starts :
    (es : List Event) (s : Shell)
    → count_if is_start (run es s).1 + credit (run es s).0 ≤ credit s + count_if is_retry es
unfolding run
run_starts [] s = omega arith
run_starts (e ∷ es) s =
    let s' = (step e s).0 in
    let later = (run es s').1 in
    ground (arith, step_starts e s, run_starts es s', count_if-append is_start (step e s).1 later)

-- Over any sequence of events the update check starts at most once more than the number of checks
-- that ended with "retry": one that came to an end is never repeated.
pub starts-run-le :
    (es : List Event) → count_if is_start (run es initial).1 ≤ 1 + count_if is_retry es
starts-run-le es = omega (arith, run_starts es initial)

-- One if the hint is still to come.
abbrev pub hint_credit : Shell → ℕ
hint_credit s = if s.tray_hint_shown then 0 else 1

step_hints :
    (e : Event) (s : Shell)
    → count_if is_hint (step e s).1 + hint_credit (step e s).0 ≤ hint_credit s
unfolding step
step_hints show_waiting s = ground arith
step_hints (file_loaded i) s = file (get_elem? s.calls i)
  where
    file :
        (o : Option Stage)
        → count_if is_hint (after_file s i o).1 + hint_credit (after_file s i o).0 ≤ hint_credit s
    file (some loading_file) = omega arith
    file _ = omega arith
step_hints (health_known i up) s = health (get_elem? s.calls i)
  where
    health :
        (o : Option Stage)
        → count_if is_hint (after_health s i up o).1 + hint_credit (after_health s i up o).0
          ≤ hint_credit s
    health (some (waiting g)) = ground arith
    health _ = omega arith
step_hints (url_loaded i) s = url (get_elem? s.calls i)
  where
    url :
        (o : Option Stage)
        → count_if is_hint (after_url s i o).1 + hint_credit (after_url s i o).0 ≤ hint_credit s
    url (some loading_url) = ground arith
    url _ = omega arith
step_hints (update_finished retry) s = ground arith
step_hints (update_finished finished) s = ground arith
step_hints (update_finished applied) s = ground arith
step_hints _ s = ground arith

run_hints :
    (es : List Event) (s : Shell)
    → count_if is_hint (run es s).1 + hint_credit (run es s).0 ≤ hint_credit s
unfolding run
run_hints [] s = omega arith
run_hints (e ∷ es) s =
    let s' = (step e s).0 in
    let later = (run es s').1 in
    ground (arith, step_hints e s, run_hints es s', count_if-append is_hint (step e s).1 later)

-- However often the window is closed, the hint that the application is still running is shown at
-- most once.
pub hints-run-le : (es : List Event) → count_if is_hint (run es initial).1 ≤ 1
hints-run-le es = omega (arith, run_hints es initial)

abbrev pub is_close : Effect → Bool
is_close close_for_good = true
is_close _ = false

abbrev pub is_quit : Event → Bool
is_quit quit = true
is_quit _ = false

step_closes :
    (e : Event) (s : Shell)
    → s.is_quitting ≡ false
    → is_quit e ≡ false
    → ((step e s).0.is_quitting ≡ false) × (count_if is_close (step e s).1 ≡ 0)
unfolding step
step_closes show_waiting s h q = ground arith
step_closes (file_loaded i) s h q = file (get_elem? s.calls i)
  where
    file :
        (o : Option Stage)
        → ((after_file s i o).0.is_quitting ≡ false) × (count_if is_close (after_file s i o).1 ≡ 0)
    file (some loading_file) = (h, refl)
    file _ = (h, refl)
step_closes (health_known i up) s h q = health (get_elem? s.calls i)
  where
    health :
        (o : Option Stage)
        → ((after_health s i up o).0.is_quitting ≡ false)
          × (count_if is_close (after_health s i up o).1 ≡ 0)
    health (some (waiting g)) = ground arith
    health _ = (h, refl)
step_closes (url_loaded i) s h q = url (get_elem? s.calls i)
  where
    url :
        (o : Option Stage)
        → ((after_url s i o).0.is_quitting ≡ false) × (count_if is_close (after_url s i o).1 ≡ 0)
    url (some loading_url) = ground arith
    url _ = (h, refl)
step_closes (update_finished retry) s h q = ground arith
step_closes (update_finished finished) s h q = ground arith
step_closes (update_finished applied) s h q = ground arith
step_closes _ s h q = ground arith

run_closes :
    (es : List Event) (s : Shell)
    → s.is_quitting ≡ false
    → count_if is_quit es ≡ 0
    → count_if is_close (run es s).1 ≡ 0
unfolding run
run_closes [] s h q = refl
run_closes (e ∷ es) s h q =
    let s' = (step e s).0 in
    let later = (run es s').1 in
    ground (arith, step_closes e s h, run_closes es s', count_if-append is_close (step e s).1 later)

-- Over any events without a Quit no close of the window goes through: it is only ever hidden.
pub run_never_closes :
    (es : List Event) → count_if is_quit es ≡ 0 → count_if is_close (run es initial).1 ≡ 0
run_never_closes es q = run_closes es initial refl q

-- A call whose own signal a newer call has aborted never ends silently: when its wait gives no
-- health, it tells the page that the service is down, and when a probe still succeeded it loads the
-- dashboard.
pub superseded_sends_down :
    (s : Shell) (i signal : ℕ) (has_health : Bool)
    → get_elem? s.calls i ≡ some (waiting signal)
    → is_aborted s signal ≡ true
    → (step (health_known i has_health) s).1
      ≡ (if has_health then load_dashboard else send_down) ∷ []
unfolding step
superseded_sends_down s i signal true at h = rw at (ground arith)
superseded_sends_down s i signal false at h = rw at (ground arith)
