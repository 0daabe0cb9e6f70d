-- ===== src/Desktop/Poller.antt =====
-- desktop/src/alerts/poller.js: one poll of GET /api/alerts, the store that it keeps and the
-- notifications that it raises. The timer and the native notification are effects.
pub mod Laws
pub mod Session
pub mod Click
pub mod Timer
use stock_dashboard.Prelude.{
  ℕ, ◌-◌, String, Bool, true, false, not, ◌&&◌, Option, none, some, List, [], ◌∷◌, ◌++◌, ltb, ◌==◌,
  if◌then◌else◌, str_eq, length, take, filter, is_some,
}
use stock_dashboard.Desktop.Seen.{Alert, seen_cap, diff_new, push_seen, keys_of}

-- The settings that the poller reads and writes in its JsonStore.
pub record PollStore : Type 0 where
  pub seen_keys : List String
  pub seeded : Bool
  pub notify_high_severity : Bool

-- `apiGet` throws with the HTTP status, or with none when the backend was not reached.
pub data Response : Type 0 where
  failed : Option ℕ → Response
  received : List Alert → ℕ → Response

pub data Effect : Type 0 where
  -- `onState({ unread, authed, reachable })`
  on_state : ℕ → Bool → Bool → Effect
  toast : Alert → Effect
  -- "+n more high-severity alerts"
  more : ℕ → Effect

abbrev pub max_notifications_per_poll : ℕ
max_notifications_per_poll = 3

abbrev pub is_status : ℕ → Option ℕ → Bool
is_status n none = false
is_status n (some m) = m == n

abbrev pub is_urgent : Alert → Bool
is_urgent a = str_eq a.severity "high" && not a.is_read

-- `#notify` returns at once where notifications are not supported.
unfoldable pub notify : Bool → List Alert → List Effect
notify supported [] = []
notify supported (a ∷ alerts) =
    let rest = notify supported alerts in if supported then toast a ∷ rest else rest

unfoldable pub announce : Bool → List Alert → List Effect
announce supported high =
    let shown = take max_notifications_per_poll high in
    let rest = length high - length shown in
    notify supported shown ++ (if ltb 0 rest then more rest ∷ [] else [])

-- The `poll` method, with `Notification.isSupported()` as its first argument.
unfoldable pub poll : Bool → Response → PollStore → PollStore × List Effect
poll supported (failed status) s =
    (s, on_state 0 (not (is_status 401 status)) (is_some status) ∷ [])
poll supported (received alerts unread) s =
    let keys = keys_of alerts in
    let here = on_state unread true true in
    if s.seeded
    then (let high = filter is_urgent (diff_new s.seen_keys alerts) in
        let s' = record s { seen_keys = push_seen s.seen_keys keys seen_cap } in
        if s.notify_high_severity then (s', here ∷ announce supported high) else (s', here ∷ []))
    else (record s { seen_keys = push_seen [] keys seen_cap; seeded = true }, here ∷ [])

-- A session: the polls of `setInterval`, one after the other, with all their effects.
unfoldable pub run : Bool → List Response → PollStore → PollStore × List Effect
run supported [] s = (s, [])
run supported (r ∷ rs) s =
    let (s', first) = poll supported r s in
    let (s'', later) = run supported rs s' in (s'', first ++ later)
