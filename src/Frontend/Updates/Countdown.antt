-- ===== src/Frontend/Updates/Countdown.antt =====
-- What UpdatesSection.jsx promises: the countdown is given its time before the page reloads.
use stock_dashboard.Prelude.{ℕ, ◌+◌, ◌≤◌, ◌≡◌, true, Option, none, some}
use stock_dashboard.Frontend.Updates.{Event, reload_delay_s, Section}
use stock_dashboard.Frontend.Updates.Step.{is_reconnected}

abbrev remaining : Option ℕ → ℕ
remaining none = 0
remaining (some n) = n

-- After `n` seconds, what is left of the countdown makes up the delay.
pub record IsTimed (n : ℕ) (s : Section) : Type 0 where
  pub counting : is_reconnected s.phase ≡ true → reload_delay_s ≤ n + remaining s.countdown
  pub over : s.reloaded ≡ true → reload_delay_s ≤ n

-- The seconds that an event counts.
ticks : Event → ℕ
ticks Event.second = 1
ticks _ = 0
