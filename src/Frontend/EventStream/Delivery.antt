-- ===== src/Frontend/EventStream/Delivery.antt =====
-- What frontend/src/lib/eventStream.js calls back: the listeners of a kind, with an event's data.
pub mod Laws
use stock_dashboard.Prelude.{
  ℕ, ◌*◌, ◌^◌, min, String, Bool, ◌&&◌, List, [], if◌then◌else◌, str_eq, filter, contains,
}
use stock_dashboard.Frontend.EventStream.{Listener, Stream, Event, on_status, step}

abbrev pub max_backoff_ms : ℕ
max_backoff_ms = 30000

-- The delay of the timer that `onerror` sets.
abbrev pub backoff : ℕ → ℕ
backoff retry = min max_backoff_ms (1000 * 2 ^ retry)

-- `dispatch` of an event of the kind, whose data may fail to parse: whom it calls. The stream sends
-- only the kinds that are attached.
unfoldable pub dispatch : String → Bool → Stream → List Listener
dispatch kind parses s =
    if s.is_open && contains kind s.attached && parses
    then filter (λ l. str_eq l.kind kind) s.listeners
    else []
