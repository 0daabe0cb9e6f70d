-- ===== src/Desktop/Seen/Laws.antt =====
-- The FIFO of seen keys: what it keeps, its bound, and that a stored page is never new again.
use stock_dashboard.Prelude.{
  ℕ, ◌+◌, ◌-◌, ◌≤◌, String, ◌≡◌, refl, true, not, ◌&&◌, ◌||◌, List, [], ◌∷◌, ◌++◌, arith,
  str_eq_iff, str_eq_refl, length, drop, length-append, length-drop, length-filter-le, drop-append,
  contains, IsNodup, contains-append, contains-filter, IsNodup-filter, IsNodup-drop, IsNodup-append,
}
use stock_dashboard.Desktop.Seen.{Alert, diff_new, to_set_from, to_set, kept, push_seen, keys_of}

contains-to_set_from :
    (k : String) (seen ks : List String)
    → contains k (to_set_from seen ks) ≡ (contains k ks && not (contains k seen))
contains-to_set_from k seen [] = refl
contains-to_set_from k seen (j ∷ ks) =
    ground
      (arith, contains-to_set_from k seen ks, contains-to_set_from k (j ∷ seen) ks, str_eq_iff j k)

-- A set has the members of the list that it is made from.
pub contains-to_set : (k : String) (ks : List String) → contains k (to_set ks) ≡ contains k ks
contains-to_set k ks = ground (arith, contains-to_set_from k [] ks)

IsNodup-to_set_from : (seen ks : List String) → IsNodup (to_set_from seen ks)
IsNodup-to_set_from seen [] = tt
IsNodup-to_set_from seen (k ∷ ks) = ground (
  arith,
  IsNodup-to_set_from seen ks,
  IsNodup-to_set_from (k ∷ seen) ks,
  contains-to_set_from k (k ∷ seen) ks,
  str_eq_refl k,
)

pub IsNodup-to_set : (ks : List String) → IsNodup (to_set ks)
IsNodup-to_set ks = IsNodup-to_set_from [] ks

length-to_set_from-le : (seen ks : List String) → length (to_set_from seen ks) ≤ length ks
length-to_set_from-le seen [] = omega arith
length-to_set_from-le seen (k ∷ ks) =
    ground (arith, length-to_set_from-le seen ks, length-to_set_from-le (k ∷ seen) ks)

pub length-to_set-le : (ks : List String) → length (to_set ks) ≤ length ks
length-to_set-le ks = length-to_set_from-le [] ks

-- The queue never grows over its cap.
pub length-push_seen-le :
    (seen keys : List String) (cap : ℕ) → length (push_seen seen keys cap) ≤ cap
unfolding push_seen
length-push_seen-le seen keys cap =
    let merged = kept seen (to_set keys) ++ to_set keys in
    ground (arith, length-drop (length merged - cap) merged)

contains-kept :
    (k : String) (seen keys : List String)
    → contains k (kept seen keys) ≡ (contains k seen && not (contains k keys))
contains-kept k seen keys = contains-filter (λ j. not (contains j keys)) k seen

IsNodup-merged :
    (seen keys : List String) → IsNodup seen → IsNodup (kept seen (to_set keys) ++ to_set keys)
IsNodup-merged seen keys d =
    IsNodup-append (kept seen (to_set keys)) (to_set keys)
      (IsNodup-filter (λ j. not (contains j (to_set keys))) seen d) (IsNodup-to_set keys)
      (λ k m. ground (arith, contains-kept k seen (to_set keys)))

-- No key is stored twice.
pub push_seen-IsNodup :
    (seen keys : List String) (cap : ℕ) → IsNodup seen → IsNodup (push_seen seen keys cap)
unfolding push_seen
push_seen-IsNodup seen keys cap d =
    let merged = kept seen (to_set keys) ++ to_set keys in
    ground (arith, IsNodup-merged seen keys d, IsNodup-drop (length merged - cap) merged)

-- The trimming drops from the old keys only, as long as the new ones fit.
pub contains-push_seen_new :
    (k : String) (seen keys : List String) (cap : ℕ)
    → length (to_set keys) ≤ cap
    → contains k keys ≡ true
    → contains k (push_seen seen keys cap) ≡ true
unfolding push_seen
contains-push_seen_new k seen keys cap fits m =
    let old = kept seen (to_set keys) in
    let new = to_set keys in
    let n = length (old ++ new) - cap in
    ground (
      arith,
      contains-to_set k keys,
      length-append old new,
      drop-append n old new,
      contains-append k old new,
      contains-append k (drop n old) new,
    )

-- With room for all keys nothing is forgotten, and nothing is invented.
pub contains-push_seen :
    (k : String) (seen keys : List String) (cap : ℕ)
    → length seen + length (to_set keys) ≤ cap
    → contains k (push_seen seen keys cap) ≡ (contains k seen || contains k keys)
unfolding push_seen
contains-push_seen k seen keys cap fits =
    let new = to_set keys in
    ground (
      arith,
      length-append (kept seen new) new,
      length-filter-le (λ j. not (contains j new)) seen,
      contains-append k (kept seen new) new,
      contains-kept k seen new,
      contains-to_set k keys,
    )

no_new :
    (seen : List String) (alerts : List Alert)
    → ((k : String) → contains k (keys_of alerts) ≡ true → contains k seen ≡ true)
    → diff_new seen alerts ≡ []
unfolding diff_new
no_new seen [] h = refl
no_new seen (a ∷ alerts) h =
    let rest : diff_new seen alerts ≡ [] = no_new seen alerts (λ k m. h k (ground arith)) in
    let here : contains a.dedup_key seen ≡ true = h a.dedup_key (rw (str_eq_refl a.dedup_key)) in
    ground arith

-- What a poll has stored is not new in the next: none of a page's alerts is reported again, as
-- long as the page has no more distinct keys than the cap.
pub diff_new-push_seen :
    (seen : List String) (alerts : List Alert) (cap : ℕ)
    → length (to_set (keys_of alerts)) ≤ cap
    → diff_new (push_seen seen (keys_of alerts) cap) alerts ≡ []
diff_new-push_seen seen alerts cap fits =
    no_new (push_seen seen (keys_of alerts) cap) alerts
      (λ k m. contains-push_seen_new k seen (keys_of alerts) cap fits m)
