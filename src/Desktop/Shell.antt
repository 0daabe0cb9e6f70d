-- ===== src/Desktop/Shell.antt =====
-- desktop/src/main.js: the shell's lifecycle as a step function over the events of the main process:
-- the waiting page and its health waits, the update check that runs once, and closing to the tray.
pub mod Laws
mod Tests
use stock_dashboard.Prelude.{
  ℕ, zero, suc, ◌+◌, String, Bool, true, false, not, Option, some, List, [], ◌∷◌, ◌++◌, ltb,
  if◌then◌else◌, get_elem?,
}

pub data UpdatePhase : Type 0 where
  pending running done : UpdatePhase

-- What the last update check came to (Updates/Launch).
pub data CheckResult : Type 0 where
  retry finished applied : CheckResult

-- Where one call of `showWaitingThenLoad` stands: the file is loading, the health wait runs with
-- the signal of a controller, the dashboard is loading, or the call has returned.
pub data Stage : Type 0 where
  loading_file : Stage
  waiting : ℕ → Stage
  loading_url : Stage
  returned : Stage

pub record Shell : Type 0 where
  pub on_app_origin : Bool
  -- `healthAbort`: the controllers are numbered in the order of their creation, from 1, and those
  -- below `controller` are aborted, since each call aborts the one before it.
  pub controller : ℕ
  pub calls : List Stage
  pub update_check : UpdatePhase
  pub is_quitting : Bool
  pub is_visible : Bool
  pub tray_hint_shown : Bool

pub data Event : Type 0 where
  -- a call of `showWaitingThenLoad`, and the steps of the call with the given number
  show_waiting : Event
  file_loaded : ℕ → Event
  health_known : ℕ → Bool → Event
  url_loaded : ℕ → Event
  -- `checkUpdateOnce` and its end
  update_trigger : Event
  update_finished : CheckResult → Event
  -- the window's close button, and `showWindow`
  close_window : Event
  show_window : Event
  -- `navigate`, and its `loadURL` resolving
  navigate : String → Event
  route_loaded : Event
  -- Quit in the tray menu
  quit : Event

pub data Effect : Type 0 where
  load_waiting_page : Effect
  -- `send("desktop:health", …)`
  send_starting send_down : Effect
  load_dashboard : Effect
  start_update_check : Effect
  send_route load_route : String → Effect
  wait_for_commit : Effect
  hide show_hint : Effect
  close_for_good : Effect

abbrev pub initial : Shell
initial = record {
  on_app_origin = false;
  controller = 0;
  calls = [];
  update_check = pending;
  is_quitting = false;
  is_visible = true;
  tray_hint_shown = false;
}

-- `controller.signal.aborted`
abbrev pub is_aborted : Shell → ℕ → Bool
is_aborted s signal = ltb signal s.controller

abbrev pub set_stage : ℕ → Stage → List Stage → List Stage
set_stage i stage [] = []
set_stage zero stage (c ∷ cs) = stage ∷ cs
set_stage (suc i) stage (c ∷ cs) = c ∷ set_stage i stage cs

abbrev pub goes_to : Shell → ℕ → Stage → Shell
goes_to s i stage = record s { calls = set_stage i stage s.calls }

-- `await win.loadFile(…)`, then `waitForHealth({ signal: healthAbort.signal })`, whose signal is
-- the one of the controller that is current when the file has loaded.
abbrev pub after_file : Shell → ℕ → Option Stage → Shell × List Effect
after_file s i (some loading_file) = (goes_to s i (waiting s.controller), send_starting ∷ [])
after_file s i _ = (s, [])

-- After `await waitForHealth(…)`, with whether it gave a health: a call that sees its own signal
-- aborted gives none, while a probe under way then may still give one. The test behind it reads the
-- signal of `healthAbort`, the controller that is current by then.
abbrev pub after_health : Shell → ℕ → Bool → Option Stage → Shell × List Effect
after_health s i has_health (some (waiting signal)) =
    if is_aborted s s.controller
    then (goes_to s i returned, [])
    else if not has_health
    then (goes_to s i returned, send_down ∷ [])
    else (goes_to s i loading_url, load_dashboard ∷ [])
after_health s i has_health _ = (s, [])

-- `checkUpdateOnce`, up to its first await
abbrev pub trigger : Shell → UpdatePhase → Shell × List Effect
trigger s pending =
    if not s.on_app_origin
    then (s, [])
    else (record s { update_check = running }, start_update_check ∷ [])
trigger s running = (s, [])
trigger s done = (s, [])

-- After `await win.loadURL(APP_ORIGIN)`.
abbrev pub after_url : Shell → ℕ → Option Stage → Shell × List Effect
after_url s i (some loading_url) =
    trigger (record s { calls = set_stage i returned s.calls; on_app_origin = true }) s.update_check
after_url s i _ = (s, [])

abbrev pub go_route : Shell → String → Shell × List Effect
go_route s route =
    let shown = record s { is_visible = true } in
    (shown, (if s.on_app_origin then send_route route else load_route route) ∷ [])

-- After `await checkForUpdate(win)`.
abbrev pub after_check : Shell → CheckResult → Shell × List Effect
after_check s retry = (record s { update_check = pending }, [])
after_check s finished = (record s { update_check = done }, [])
after_check s applied =
    let (s', effects) = go_route (record s { update_check = done }) "/info" in
    (s', effects ++ wait_for_commit ∷ [])

abbrev pub check_ends : Shell → CheckResult → UpdatePhase → Shell × List Effect
check_ends s result running = after_check s result
check_ends s result pending = (s, [])
check_ends s result done = (s, [])

-- The window's `close` handler.
abbrev pub on_close : Shell → Shell × List Effect
on_close s =
    let hidden = record s { is_visible = false } in
    let hinted = record s { is_visible = false; tray_hint_shown = true } in
    if s.is_quitting
    then (s, close_for_good ∷ [])
    else if not s.tray_hint_shown
    then (hinted, hide ∷ show_hint ∷ [])
    else (hidden, hide ∷ [])

unfoldable pub step : Event → Shell → Shell × List Effect
step show_waiting s = (
  record s {
    on_app_origin = false;
    controller = s.controller + 1;
    calls = s.calls ++ loading_file ∷ [];
  },
  load_waiting_page ∷ [],
)
step (file_loaded i) s = after_file s i (get_elem? s.calls i)
step (health_known i has_health) s = after_health s i has_health (get_elem? s.calls i)
step (url_loaded i) s = after_url s i (get_elem? s.calls i)
step update_trigger s = trigger s s.update_check
step (update_finished result) s = check_ends s result s.update_check
step close_window s = on_close s
step show_window s = (record s { is_visible = true }, [])
step (navigate route) s = go_route s route
step route_loaded s = (record s { on_app_origin = true }, [])
step quit s = (record s { is_quitting = true }, [])

unfoldable pub run : List Event → Shell → Shell × List Effect
run [] s = (s, [])
run (e ∷ es) s = let (s', first) = step e s in let (s'', later) = run es s' in (s'', first ++ later)
