-- ===== src/Desktop/Seen.antt =====
-- desktop/src/alerts/seen.js: which alerts are new, the FIFO of seen keys, the badge text and the
-- ticker inside a key. extension/src/background/seen.js is a verbatim copy.
pub mod Laws
use stock_dashboard.Prelude.{
  ℕ, ◌-◌, String, Bool, not, ◌&&◌, List, [], ◌∷◌, ◌++◌, map, ltb, leb, if◌then◌else◌, str_eq,
  length, drop, filter, contains,
}

-- The fields of a row of GET /api/alerts that the clients read.
pub record Alert : Type 0 where
  pub dedup_key : String
  pub ticker : String
  pub title : String
  pub message : String
  pub severity : String
  pub is_read : Bool

abbrev pub seen_cap : ℕ
seen_cap = 500

abbrev pub is_new : List String → Alert → Bool
is_new seen a = not (str_eq a.dedup_key "") && not (contains a.dedup_key seen)

unfoldable pub diff_new : List String → List Alert → List Alert
diff_new seen alerts = filter (is_new seen) alerts

-- `new Set(keys)`, iterated: the first occurrences, in order.
abbrev pub to_set_from : List String → List String → List String
to_set_from seen [] = []
to_set_from seen (k ∷ ks) =
    let rest = to_set_from (k ∷ seen) ks in
    if contains k seen then to_set_from seen ks else k ∷ rest

abbrev pub to_set : List String → List String
to_set keys = to_set_from [] keys

abbrev pub kept : List String → List String → List String
kept seen keys = filter (λ k. not (contains k keys)) seen

abbrev pub trim {ℓ} : {A : Type ℓ} → ℕ → List A → List A
trim cap merged = if ltb cap (length merged) then drop (length merged - cap) merged else merged

unfoldable pub push_seen : List String → List String → ℕ → List String
push_seen seen keys cap = let incoming = to_set keys in trim cap (kept seen incoming ++ incoming)

abbrev pub keys_of : List Alert → List String
keys_of alerts = map (λ a. a.dedup_key) alerts

-- The badge: the empty text, the decimal numeral of `n`, or "99+".
pub data Badge : Type 0 where
  blank : Badge
  count : ℕ → Badge
  over_99 : Badge

-- `Number(unread) || 0` of the server's count, which is a natural number.
unfoldable pub badge_text : ℕ → Badge
badge_text unread = if leb unread 0 then blank else if ltb 99 unread then over_99 else count unread
