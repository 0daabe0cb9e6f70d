-- ===== src/Desktop/Poller/Session.antt =====
-- Sessions of polls: an alert that the server keeps returning is announced at most once.
use stock_dashboard.Prelude.{
  ℕ, zero, suc, ◌-◌, ◌≤◌, String, ◌≡◌, refl, ap, Bool, true, Option, List, [], ◌∷◌, arith, ltb,
  if◌then◌else◌, str_eq_iff, length, take, filter, All, contains, IsNodup, count, count-append,
  count_nodup,
}
use stock_dashboard.Desktop.Seen.{Alert, seen_cap, diff_new, keys_of, is_new}
use stock_dashboard.Desktop.Seen.Laws.{
  contains-push_seen_new, length-to_set-le, length-push_seen-le, push_seen-IsNodup,
}
use stock_dashboard.Desktop.Poller.{
  PollStore, Response, failed, received, is_urgent, notify, announce, poll, run,
  max_notifications_per_poll, more,
}
use stock_dashboard.Desktop.Poller.Laws.{toasted, toasted-append, notify_parts}

count-filter-le :
    (k : String) (p : Alert → Bool) (xs : List Alert)
    → count k (keys_of (filter p xs)) ≤ count k (keys_of xs)
count-filter-le k p [] = omega arith
count-filter-le k p (x ∷ xs) = ground (arith, count-filter-le k p xs)

count-take-le :
    (k : String) (n : ℕ) (xs : List Alert) → count k (keys_of (take n xs)) ≤ count k (keys_of xs)
count-take-le k zero xs = omega arith
count-take-le k (suc n) [] = omega arith
count-take-le k (suc n) (x ∷ xs) = ground (arith, count-take-le k n xs)

count-diff_new_seen :
    (k : String) (seen : List String) (xs : List Alert)
    → contains k seen ≡ true
    → count k (keys_of (diff_new seen xs)) ≡ 0
unfolding diff_new
count-diff_new_seen k seen [] h = refl
count-diff_new_seen k seen (x ∷ xs) h =
    ground (arith, count-diff_new_seen k seen xs, str_eq_iff x.dedup_key k)

count-diff_new-le :
    (k : String) (seen : List String) (xs : List Alert)
    → count k (keys_of (diff_new seen xs)) ≤ count k (keys_of xs)
unfolding diff_new
count-diff_new-le k seen xs = count-filter-le k (is_new seen) xs

toasted-announce :
    (supported : Bool) (k : String) (high : List Alert)
    → count k (toasted (announce supported high)) ≤ count k (keys_of high)
unfolding announce
toasted-announce supported k high =
    let shown = take max_notifications_per_poll high in
    let rest = length high - length shown in
    let tail = (if ltb 0 rest then more rest ∷ [] else []) in
    ground (
      arith,
      notify_parts shown,
      toasted-append (notify supported shown) tail,
      count-append k (toasted (notify supported shown)) (toasted tail),
      count-take-le k max_notifications_per_poll high,
    )

-- The server keeps returning `k`: it is on every page, whose keys are distinct and fit the cap.
abbrev pub Returns : String → Response → Type 0
Returns k (failed status) = Unit {0}
Returns k (received alerts unread) =
    (contains k (keys_of alerts) ≡ true)
    × IsNodup (keys_of alerts)
    × (length (keys_of alerts) ≤ seen_cap)

abbrev pub Knows : String → PollStore → Type 0
Knows k s = (s.seeded ≡ true) × (contains k s.seen_keys ≡ true)

module _ (supported : Bool) (k : String) where
  poll_known :
      (r : Response) (s : PollStore)
      → Returns k r
      → Knows k s
      → Knows k (poll supported r s).0 × (count k (toasted (poll supported r s).1) ≡ 0)
  unfolding poll
  poll_known (failed status) s h w = (w, refl)
  poll_known (received alerts unread) s h w =
      let fresh = diff_new s.seen_keys alerts in
      ground (
        arith,
        toasted-announce supported k (filter is_urgent fresh),
        count-filter-le k is_urgent fresh,
        count-diff_new_seen k s.seen_keys alerts,
        contains-push_seen_new k s.seen_keys (keys_of alerts) seen_cap,
        length-to_set-le (keys_of alerts),
      )

  poll_page :
      (alerts : List Alert) (unread : ℕ) (s : PollStore)
      → Returns k (received alerts unread)
      → Knows k (poll supported (received alerts unread) s).0
        × (count k (toasted (poll supported (received alerts unread) s).1) ≤ 1)
  unfolding poll
  poll_page alerts unread s h =
      let fresh = diff_new s.seen_keys alerts in
      ground (
        arith,
        toasted-announce supported k (filter is_urgent fresh),
        count-filter-le k is_urgent fresh,
        count-diff_new-le k s.seen_keys alerts,
        count_nodup k (keys_of alerts),
        contains-push_seen_new k s.seen_keys (keys_of alerts) seen_cap,
        contains-push_seen_new k [] (keys_of alerts) seen_cap,
        length-to_set-le (keys_of alerts),
      )

  run_known :
      (rs : List Response) (s : PollStore)
      → All (Returns k) rs
      → Knows k s
      → count k (toasted (run supported rs s).1) ≡ 0
  unfolding run
  run_known [] s h w = refl
  run_known (r ∷ rs) s h w =
      let (w', none_here) = poll_known r s h.0 w in
      let s' = (poll supported r s).0 in
      let first = (poll supported r s).1 in
      let later = (run supported rs s').1 in
      omega (
        arith,
        run_known rs s' h.1 w',
        ap (count k) (toasted-append first later),
        count-append k (toasted first) (toasted later),
      )

  toasted-run_failed :
      (status : Option ℕ) (rs : List Response) (s : PollStore)
      → toasted (run supported (failed status ∷ rs) s).1 ≡ toasted (run supported rs s).1
  unfolding run poll
  toasted-run_failed status rs s = refl

  -- From any store, over any session of failed and successful polls, an alert is announced at most
  -- once where the page of every successful poll has it, with distinct keys and at most 500 of them.
  pub count-run-le :
      (rs : List Response) (s : PollStore)
      → All (Returns k) rs
      → count k (toasted (run supported rs s).1) ≤ 1
  unfolding run
  count-run-le [] s h = omega arith
  count-run-le (failed status ∷ rs) s h =
      omega (arith, ap (count k) (toasted-run_failed status rs s), count-run-le rs s h.1)
  count-run-le (received alerts unread ∷ rs) s h =
      let r = received alerts unread in
      let (w, once) = poll_page alerts unread s h.0 in
      let s' = (poll supported r s).0 in
      let first = (poll supported r s).1 in
      let later = (run supported rs s').1 in
      omega (
        arith,
        run_known rs s' h.1 w,
        ap (count k) (toasted-append first later),
        count-append k (toasted first) (toasted later),
      )

-- The invariant of the stored keys: no duplicates, within the cap.
pub record IsStored (s : PollStore) : Type 0 where
  pub distinct : IsNodup s.seen_keys
  pub bounded : length s.seen_keys ≤ seen_cap

poll-IsStored :
    (supported : Bool) (r : Response) (s : PollStore) → IsStored s → IsStored (poll supported r s).0
unfolding poll
poll-IsStored supported (failed status) s v = v
poll-IsStored supported (received alerts unread) s v = ground (
  arith,
  push_seen-IsNodup s.seen_keys (keys_of alerts) seen_cap,
  push_seen-IsNodup [] (keys_of alerts) seen_cap tt,
  length-push_seen-le s.seen_keys (keys_of alerts) seen_cap,
  length-push_seen-le [] (keys_of alerts) seen_cap,
)

-- Over any polls, a stored queue of distinct keys within its cap stays one.
pub run-IsStored :
    (supported : Bool) (rs : List Response) (s : PollStore)
    → IsStored s
    → IsStored (run supported rs s).0
unfolding run
run-IsStored supported [] s v = v
run-IsStored supported (r ∷ rs) s v = run-IsStored supported rs _ (poll-IsStored supported r s v)
