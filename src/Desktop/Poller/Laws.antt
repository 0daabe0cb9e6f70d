-- ===== src/Desktop/Poller/Laws.antt =====
-- What a poll announces: silence on the first run, nothing twice, at most three toasts, nothing lost.
use stock_dashboard.Prelude.{
  ℕ, suc, ◌+◌, ◌-◌, ◌≤◌, String, ◌≡◌, refl, ap, true, false, List, [], ◌∷◌, ◌++◌, arith, ltb,
  if◌then◌else◌, length, take, length-append, length-take,
}
use stock_dashboard.Desktop.Seen.{Alert, keys_of}
use stock_dashboard.Desktop.Poller.{
  Effect, on_state, toast, more, notify, announce, max_notifications_per_poll,
}

-- The keys of the alerts that were shown one by one.
abbrev pub toasted : List Effect → List String
toasted [] = []
toasted (on_state u a r ∷ es) = toasted es
toasted (toast a ∷ es) = a.dedup_key ∷ toasted es
toasted (more n ∷ es) = toasted es

-- The number of alerts that a summary stands for.
abbrev pub summarised : List Effect → ℕ
summarised [] = 0
summarised (on_state u a r ∷ es) = summarised es
summarised (toast a ∷ es) = summarised es
summarised (more n ∷ es) = n + summarised es

pub toasted-append : (xs ys : List Effect) → toasted (xs ++ ys) ≡ toasted xs ++ toasted ys
toasted-append [] ys = refl
toasted-append (on_state u a r ∷ xs) ys = toasted-append xs ys
toasted-append (toast a ∷ xs) ys = ap (a.dedup_key ∷◌) (toasted-append xs ys)
toasted-append (more n ∷ xs) ys = toasted-append xs ys

pub summarised-append :
    (xs ys : List Effect) → summarised (xs ++ ys) ≡ summarised xs + summarised ys
summarised-append [] ys = omega arith
summarised-append (on_state u a r ∷ xs) ys = summarised-append xs ys
summarised-append (toast a ∷ xs) ys = summarised-append xs ys
summarised-append (more n ∷ xs) ys = omega (arith, summarised-append xs ys)

pub notify_parts :
    (alerts : List Alert)
    → (toasted (notify true alerts) ≡ keys_of alerts)
      × (summarised (notify true alerts) ≡ 0)
      × (notify false alerts ≡ [])
unfolding notify
notify_parts [] = (refl, refl, refl)
notify_parts (a ∷ alerts) = ground (arith, notify_parts alerts)

length-keys_of : (alerts : List Alert) → length (keys_of alerts) ≡ length alerts
length-keys_of [] = refl
length-keys_of (a ∷ alerts) = ap suc (length-keys_of alerts)

-- Every urgent alert is shown or counted, and never more than three are shown.
pub announce_counts :
    (high : List Alert)
    → (length (toasted (announce true high)) + summarised (announce true high) ≡ length high)
      × (length (toasted (announce true high)) ≤ max_notifications_per_poll)
unfolding announce
announce_counts high =
    let shown = take max_notifications_per_poll high in
    let rest = length high - length shown in
    let tail = (if ltb 0 rest then more rest ∷ [] else []) in
    ground (
      arith,
      toasted-append (notify true shown) tail,
      summarised-append (notify true shown) tail,
      notify_parts shown,
      length-keys_of shown,
      length-take max_notifications_per_poll high,
      length-append (keys_of shown) (toasted tail),
    )
