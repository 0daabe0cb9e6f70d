-- ===== src/Extension/Background/SameAsDesktop.antt =====
-- The poller of the extension against the one of the desktop shell, which is a port of it.
use stock_dashboard.Prelude.{
  ℕ, ◌+◌, ◌-◌, String, ◌≡◌, refl, true, List, [], ◌∷◌, ◌++◌, map, arith, ltb, if◌then◌else◌, length,
  take, filter,
}
use stock_dashboard.Desktop.Seen.{Alert, keys_of, diff_new}
use stock_dashboard.Desktop.Poller
use stock_dashboard.Desktop.Poller.{PollStore, Response, failed, received, toast, more, on_state}
use stock_dashboard.Desktop.Poller.Laws.{
  toasted, toasted-append, summarised, summarised-append, notify_parts,
}
use stock_dashboard.Extension.Api.{ok}
use stock_dashboard.Extension.Background
use stock_dashboard.Extension.Background.{
  Page, Local, Settings, Effect, badge, badge_signed_out, badge_no_permission, badge_unreachable,
  notification, summary, set_alarm, open_tab, poll,
}

-- The keys notified one by one, and the number in the summary.
abbrev pub notified : List Effect → List String
notified [] = []
notified (notification a ∷ es) = a.dedup_key ∷ notified es
notified (_ ∷ es) = notified es

abbrev pub summed : List Effect → ℕ
summed [] = 0
summed (summary n ∷ es) = n + summed es
summed (_ ∷ es) = summed es

notified-shown :
    (high : List Alert) (rest : List Effect)
    → (notified (map notification high ++ rest) ≡ keys_of high ++ notified rest)
      × (summed (map notification high ++ rest) ≡ summed rest)
notified-shown [] rest = (refl, refl)
notified-shown (a ∷ high) rest = ground (arith, notified-shown high rest)

announce-same :
    (high : List Alert)
    → (notified (Background.announce high) ≡ toasted (Poller.announce true high))
      × (summed (Background.announce high) ≡ summarised (Poller.announce true high))
unfolding Background.announce Poller.announce
announce-same high =
    let shown = take 3 high in
    let rest = length high - length shown in
    let tail = (if ltb 0 rest then more rest ∷ [] else []) in
    let tail' = (if ltb 0 rest then summary rest ∷ [] else []) in
    ground (
      arith,
      notified-shown shown tail',
      toasted-append (Poller.notify true shown) tail,
      summarised-append (Poller.notify true shown) tail,
      notify_parts shown,
    )

-- The two clients keep the same keys and the same settings.
pub record IsSame (settings : Settings) (s : Local) (d : PollStore) : Type 0 where
  pub keys : s.seen_keys ≡ d.seen_keys
  pub seeded : s.seeded ≡ d.seeded
  pub notify : settings.notify_high_severity ≡ d.notify_high_severity

-- From the same keys and settings, on a desktop with notifications, the two clients announce the
-- same alerts one by one and the same number in the summary, and keep the same keys afterwards.
pub poll-IsSame :
    (now : ℕ) (settings : Settings) (page : Page) (s : Local) (d : PollStore)
    → IsSame settings s d
    → (notified (poll now settings (ok page) s).1
        ≡ toasted (Poller.poll true (received page.alerts page.unread) d).1)
      × (summed (poll now settings (ok page) s).1
          ≡ summarised (Poller.poll true (received page.alerts page.unread) d).1)
      × IsSame settings
          (poll now settings (ok page) s).0
          (Poller.poll true (received page.alerts page.unread) d).0
unfolding poll Background.received Poller.poll
poll-IsSame now settings page s d v =
    let high = filter Poller.is_urgent (diff_new d.seen_keys page.alerts) in
    let keys : s.seen_keys ≡ d.seen_keys = v.keys in
    let seeded : s.seeded ≡ d.seeded = v.seeded in ground (arith, announce-same high)
