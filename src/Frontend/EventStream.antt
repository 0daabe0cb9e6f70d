-- ===== src/Frontend/EventStream.antt =====
-- frontend/src/lib/eventStream.js: the one EventSource of a tab, opened while anything listens and
-- the tab is visible, and its reconnects. The listeners are numbered.
pub mod Delivery
pub mod Laws
use stock_dashboard.Prelude.{
  ℕ, ◌+◌, String, Bool, true, false, not, ◌&&◌, ◌||◌, List, [], ◌∷◌, ◌++◌, ◌==◌, if◌then◌else◌,
  str_eq, filter, any, contains,
}

pub record Listener : Type 0 where
  pub kind : String
  pub number : ℕ

pub record Stream : Type 0 where
  pub listeners : List Listener
  -- the keys of the `listeners` map, which stay when their last listener leaves
  pub kinds : List String
  pub status_listeners : List ℕ
  pub is_open : Bool
  pub attached : List String
  pub has_timer : Bool
  pub retry : ℕ
  pub connected : Bool
  -- what the status listeners were called with, the latest call first
  pub told : List (ℕ × Bool)
  pub is_hidden : Bool

pub data Event : Type 0 where
  subscribe unsubscribe : Listener → Event
  on_status off_status : ℕ → Event
  -- the stream's "hello" and "error", the timer, and the tab's visibility
  hello error timer : Event
  visibility : Bool → Event

abbrev pub initial : Bool → Stream
initial hidden = record {
  listeners = [];
  kinds = [];
  status_listeners = [];
  is_open = false;
  attached = [];
  has_timer = false;
  retry = 0;
  connected = false;
  told = [];
  is_hidden = hidden;
}

abbrev pub is_empty {ℓ} : {A : Type ℓ} → List A → Bool
is_empty [] = true
is_empty (x ∷ xs) = false

unfoldable pub wanted : Stream → Bool
wanted s = not (is_empty s.status_listeners) || not (is_empty s.listeners)

unfoldable pub open_stream : Stream → Stream
open_stream s = record s { has_timer = false; is_open = true; attached = s.kinds }

unfoldable pub ensure_open : Stream → Stream
unfolding open_stream
ensure_open s = if not s.is_open && not s.has_timer && not s.is_hidden then open_stream s else s

-- `connected === value`
abbrev pub same_bool : Bool → Bool → Bool
same_bool true b = b
same_bool false b = not b

-- Each status listener is called with the value, in order.
abbrev pub tell : Bool → List ℕ → List (ℕ × Bool) → List (ℕ × Bool)
tell value [] log = log
tell value (n ∷ ns) log = tell value ns ((n, value) ∷ log)

unfoldable pub set_connected : Bool → Stream → Stream
set_connected value s =
    if same_bool s.connected value
    then s
    else record s { connected = value; told = tell value s.status_listeners s.told }

unfoldable pub close : Stream → Stream
unfolding set_connected
close s = set_connected false (record s { has_timer = false; is_open = false })

unfoldable pub close_if_idle : Stream → Stream
unfolding wanted close
close_if_idle s = if not (wanted s) then close s else s

unfoldable pub attach : String → Stream → Stream
attach kind s =
    if not s.is_open || contains kind s.attached
    then s
    else record s { attached = s.attached ++ kind ∷ [] }

abbrev pub is_same : Listener → Listener → Bool
is_same a b = str_eq a.kind b.kind && a.number == b.number

-- `listeners.get(kind).add(fn)`, for a set of functions.
abbrev pub add_listener : Listener → Stream → Stream
add_listener l s = record s {
  listeners = if any (is_same l) s.listeners then s.listeners else s.listeners ++ l ∷ [];
  kinds = if contains l.kind s.kinds then s.kinds else s.kinds ++ l.kind ∷ [];
}

abbrev pub drop_listener : Listener → Stream → Stream
drop_listener l s = record s { listeners = filter (λ m. not (is_same l m)) s.listeners }

-- `source.onerror`, where a source is there.
unfoldable pub on_error : Stream → Stream
unfolding wanted set_connected
on_error s =
    let closed = set_connected false (record s { is_open = false }) in
    if not s.is_open
    then s
    else if not (wanted closed) || closed.is_hidden
    then closed
    else record closed { has_timer = true; retry = closed.retry + 1 }

abbrev pub add_status : ℕ → Stream → Stream
add_status n s = record s {
  status_listeners =
      if any (λ m. n == m) s.status_listeners
      then s.status_listeners
      else s.status_listeners ++ n ∷ [];
}

abbrev pub drop_status : ℕ → Stream → Stream
drop_status n s = record s { status_listeners = filter (λ m. not (n == m)) s.status_listeners }

-- `fn(connected)`
abbrev pub tell_one : ℕ → Stream → Stream
tell_one n s = record s { told = (n, s.connected) ∷ s.told }

unfoldable pub step : Event → Stream → Stream
unfolding ensure_open close close_if_idle attach on_error open_stream wanted set_connected
step (subscribe l) s = attach l.kind (ensure_open (add_listener l s))
step (unsubscribe l) s = close_if_idle (drop_listener l s)
step (on_status n) s = tell_one n (ensure_open (add_status n s))
step (off_status n) s = close_if_idle (drop_status n s)
step hello s = if s.is_open then set_connected true (record s { retry = 0 }) else s
step error s = on_error s
step timer s = if s.has_timer then open_stream s else s
step (visibility hidden) s =
    let now = record s { is_hidden = hidden } in
    if hidden then close now else if wanted now then ensure_open (record now { retry = 0 }) else now

unfoldable pub run : List Event → Stream → Stream
run [] s = s
run (e ∷ es) s = run es (step e s)
