-- ===== src/Frontend/Dashboard/Refresh/Laws.antt =====
-- The wait for a refresh ends, and what it no longer waits for has been refreshed.
use stock_dashboard.Prelude.{
  ℕ, zero, suc, ◌+◌, ◌*◌, ◌≤◌, ◌<◌, String, ◌≡◌, refl, sym, ap, ◌∙◌, ◌⊎◌, inl, inr, Bool, true,
  false, not, ◌&&◌, ◌||◌, Option, none, some, List, [], ◌∷◌, arith, ltb, if◌then◌else◌, str_eq,
  Bool-cases, filter, any, contains, contains-filter, Object,
}
use mathlib.Core.Bool.{true≢false}
use stock_dashboard.Frontend.Dashboard.Refresh.{
  Status, Round, refresh_poll_ms, refresh_wait_ms, stamps, is_refreshed, settle, is_empty,
  wait_loop, wait_for,
}

-- One turn of the loop.
abbrev turn :
    Bool
    → List String
    → Option (List Status)
    → (List Status → Option (List String))
    → Option (List String)
turn waits pending statuses rest =
    if waits then elim statuses [ none ↦ some pending | some xs ↦ rest xs ] else some pending

turn_ends :
    (waits : Bool) (pending : List String) (statuses : Option (List Status))
    (rest : List Status → Option (List String))
    → (waits ≡ true → (xs : List Status) → (left : List String) × (rest xs ≡ some left))
    → (left : List String) × (turn waits pending statuses rest ≡ some left)
turn_ends false pending statuses rest h = (pending, refl)
turn_ends true pending none rest h = (pending, refl)
turn_ends true pending (some xs) rest h = h refl xs

wait_loop_ends :
    (fuel : ℕ) (before : Object (Option String)) (deadline now : ℕ) (rounds : ℕ → Round) (i : ℕ)
    (pending : List String)
    → deadline ≤ now + fuel * refresh_poll_ms
    → (left : List String) × (wait_loop (suc fuel) before deadline now rounds i pending ≡ some left)
unfolding wait_loop
wait_loop_ends zero before deadline now rounds i pending h =
    turn_ends (not (is_empty pending) && ltb now deadline) pending (rounds i).statuses _
      (λ e. absurd (ground arith))
wait_loop_ends (suc fuel) before deadline now rounds i pending h =
    turn_ends (not (is_empty pending) && ltb now deadline) pending (rounds i).statuses _ (λ e xs.
      wait_loop_ends fuel before deadline (now + refresh_poll_ms + (rounds i).delay) rounds (i + 1)
        (settle before xs pending) (omega arith))

-- A status of the source that has moved on from what was there before.
abbrev pub has_refreshed : Object (Option String) → String → List Status → Bool
has_refreshed before k xs = any (λ x. str_eq k x.source && is_refreshed before x) xs

settle_lem :
    (before : Object (Option String)) (k : String) (xs : List Status) (pending : List String)
    → contains k pending ≡ true
    → contains k (settle before xs pending) ≡ false
    → has_refreshed before k xs ≡ true
settle_lem before k [] pending m l = absurd (cc)
settle_lem before k (x ∷ xs) pending m l = go (is_refreshed before x) l (settle_lem before k xs)
  where
    go :
        (b : Bool)
        → contains k (
            settle before xs (if b then filter (λ j. not (str_eq j x.source)) pending else pending))
          ≡ false
        → ((later : List String)
            → contains k later ≡ true
            → contains k (settle before xs later) ≡ false
            → has_refreshed before k xs ≡ true)
        → ((str_eq k x.source && b) || has_refreshed before k xs) ≡ true
    go true q rest = elim (Bool-cases (str_eq k x.source)) [
      | inl e ↦ ground arith
      | inr e ↦ ground (
        arith,
        rest (filter (λ j. not (str_eq j x.source)) pending)
            (contains-filter (λ j. not (str_eq j x.source)) k pending ∙ rw (m, e) refl) q,
      )
    ]
    go false q rest = ground (arith, rest pending m q)

-- What one turn leaves is what was pending, or what a later turn leaves.
turn_left :
    (waits : Bool) (pending : List String) (statuses : Option (List Status))
    (rest : List Status → Option (List String)) (left : List String)
    → turn waits pending statuses rest ≡ some left
    → (pending ≡ left) ⊎ ((xs : List Status) × (statuses ≡ some xs) × (rest xs ≡ some left))
turn_left false pending statuses rest left e = inl (cc)
turn_left true pending none rest left e = inl (cc)
turn_left true pending (some xs) rest left e = inr (xs, refl, e)

-- One of the rounds before the given one had a status of the source that has moved on.
abbrev pub IsRefreshed : Object (Option String) → String → (ℕ → Round) → ℕ → Type 0
IsRefreshed before k rounds last =
    (j : ℕ) × (xs : List Status) × (j < last)
    × ((rounds j).statuses ≡ some xs)
    × (has_refreshed before k xs ≡ true)

wait_loop-IsRefreshed :
    (fuel : ℕ) (before : Object (Option String)) (deadline now : ℕ) (rounds : ℕ → Round) (i : ℕ)
    (pending left : List String) (k : String)
    → wait_loop fuel before deadline now rounds i pending ≡ some left
    → contains k pending ≡ true
    → contains k left ≡ false
    → IsRefreshed before k rounds (i + fuel)
unfolding wait_loop
wait_loop-IsRefreshed zero before deadline now rounds i pending left k e m l = absurd (cc)
wait_loop-IsRefreshed (suc fuel) before deadline now rounds i pending left k e m l =
    elim (turn_left (not (is_empty pending) && ltb now deadline) pending (rounds i).statuses _ left
      e) [
        | inl q ↦ absurd (true≢false (sym m ∙ ap (contains k) q ∙ l))
        | inr (xs, at, rest) ↦ elim (Bool-cases (contains k (settle before xs pending))) [
          | inl h ↦
              let (j, ys, early, there, moved) =
                wait_loop-IsRefreshed fuel before deadline
                  (now + refresh_poll_ms + (rounds i).delay) rounds (i + 1)
                  (settle before xs pending) left k rest h l in
              (j, ys, omega (arith, early), there, moved)
          | inr h ↦ (i, xs, omega arith, at, settle_lem before k xs pending m h)
        ]
      ]

-- The wait ends within its minute and a half, whatever the server answers and however long a round
-- takes.
pub wait_for_ends :
    (before : Option (List Status)) (now : ℕ) (rounds : ℕ → Round) (wanted : List String)
    → (left : List String) × (wait_for before now rounds wanted ≡ some left)
unfolding wait_for
wait_for_ends before now rounds wanted =
    wait_loop_ends 60 (stamps before) (now + refresh_wait_ms) now rounds 0 wanted (omega arith)

-- Whatever each request for the statuses comes to and however long it takes, the wait for a refresh
-- ends by the 61st test of its deadline, and each wanted source is then still pending, or one of the
-- rounds before had a stamp of it other than the one before the refresh.
pub wait_for_settles :
    (before : Option (List Status)) (now : ℕ) (rounds : ℕ → Round) (wanted : List String)
    (k : String)
    → contains k wanted ≡ true
    → (left : List String) × (wait_for before now rounds wanted ≡ some left)
      × ((contains k left ≡ true) ⊎ IsRefreshed (stamps before) k rounds 61)
unfolding wait_for
wait_for_settles before now rounds wanted k m =
    let (left, e) = wait_for_ends before now rounds wanted in
    (
      left,
      e,
      elim (Bool-cases (contains k left)) [
        | inl h ↦ inl h
        | inr h ↦ inr (
            wait_loop-IsRefreshed 61 (stamps before) (now + refresh_wait_ms) now rounds 0 wanted
              left k e m h)
      ],
    )
