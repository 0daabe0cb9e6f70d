-- ===== src/Frontend/CommandPalette/Laws.antt =====
-- What CommandPalette.jsx promises of its search: the stocks on screen were asked for with the text
-- and the market on screen, once the search has settled.
use stock_dashboard.Prelude.{
  ℕ, ◌+◌, ◌≤◌, ◌≡◌, refl, sym, inl, inr, Bool, true, false, Option, none, some, List, [], ◌∷◌, ◌++◌,
  arith, ◌==◌, if◌then◌else◌, Bool-cases, Option-cases, All,
}
use stock_dashboard.Frontend.CommandPalette.{
  Market, same_market, Platform, Item, Asked, Entry, Palette, Event, is_empty, find_search,
  without_search, asked, search_effect, fire, answer, run_entry, step, run, initial,
}
use stock_dashboard.Desktop.Window.{same_codes}
use stock_dashboard.Frontend.Nav.Paths.{same_codes_eq}
use stock_dashboard.Prelude.Int.{pos}

-- Every search was sent by a run of the effect up to `n`.
pub AreUpTo : ℕ → List (ℕ × Asked) → Type 0
AreUpTo n ps = All (λ p. p.0 ≤ n) ps

find_later : (n : ℕ) (ps : List (ℕ × Asked)) → AreUpTo n ps → find_search (n + 1) ps ≡ none
unfolding AreUpTo
find_later n [] h = refl
find_later n (p ∷ ps) h = ground (arith, find_later n ps)

AreUpTo-suc : (n : ℕ) (ps : List (ℕ × Asked)) → AreUpTo n ps → AreUpTo (n + 1) ps
unfolding AreUpTo
AreUpTo-suc n [] h = tt
AreUpTo-suc n (p ∷ ps) h = (omega (arith, h.0), AreUpTo-suc n ps h.1)

AreUpTo-without : (n i : ℕ) (ps : List (ℕ × Asked)) → AreUpTo n ps → AreUpTo n (without_search i ps)
unfolding AreUpTo
AreUpTo-without n i [] h = tt
AreUpTo-without n i (p ∷ ps) h = ground (arith, AreUpTo-without n i ps)

AreUpTo-append :
    (n : ℕ) (key : Asked) (ps : List (ℕ × Asked)) → AreUpTo n ps → AreUpTo n (ps ++ (n, key) ∷ [])
unfolding AreUpTo
AreUpTo-append n key [] h = (omega arith, tt)
AreUpTo-append n key (p ∷ ps) h = (h.0, AreUpTo-append n key ps h.1)

find-append :
    (n : ℕ) (key : Asked) (ps : List (ℕ × Asked))
    → find_search n ps ≡ none
    → find_search n (ps ++ (n, key) ∷ []) ≡ some key
find-append n key [] h = ground arith
find-append n key (p ∷ ps) h = ground (arith, find-append n key ps)

find-without :
    (n i : ℕ) (ps : List (ℕ × Asked))
    → find_search n (without_search i ps) ≡ (if i == n then none else find_search n ps)
find-without n i [] = ground arith
find-without n i (p ∷ ps) = ground (arith, find-without n i ps)

-- Whether the timer runs, what the last run has sent, the text and market on screen, and those that
-- the stocks were found for: the timer runs before anything is sent, then the last run waits for an
-- answer to what is on screen, or has it.
pub Settling : Bool → Option Asked → Asked → Asked → Type 0
Settling true sent key found = sent ≡ none
Settling false none key found = found ≡ key
Settling false (some asked_for) key found = asked_for ≡ key

timer-Settling :
    (timer : Bool) (sent : Option Asked) (key found : Asked)
    → timer ≡ true
    → Settling timer sent key found
    → sent ≡ none
unfolding Settling
timer-Settling true sent key found on h = h
timer-Settling false sent key found on h = absurd (cc)

answered-Settling :
    (timer : Bool) (sent key found : Asked)
    → Settling timer (some sent) key found
    → Settling timer none key sent
unfolding Settling
answered-Settling true sent key found h = refl
answered-Settling false sent key found h = h

settled :
    (timer : Bool) (sent : Option Asked) (key found : Asked)
    → timer ≡ false
    → sent ≡ none
    → Settling timer sent key found
    → found ≡ key
unfolding Settling
settled true sent key found off idle h = absurd (cc)
settled false none key found off idle h = h
settled false (some a) key found off idle h = absurd (cc)

same_market_eq : (m n : Market) → same_market m n ≡ true → m ≡ n
same_market_eq Market.all n h = ground arith
same_market_eq Market.us n h = ground arith
same_market_eq Market.tase n h = ground arith

module _ (platform : Platform) {S : Type 0} where
  pub record IsFresh (s : Palette S) : Type 0 where
    pub up_to : AreUpTo s.last_run s.searching
    pub settling :
        Settling s.timer (find_search s.last_run s.searching) (asked platform s) s.found_for

  effect-IsFresh : (s : Palette S) → AreUpTo s.last_run s.searching → IsFresh (search_effect s)
  unfolding Settling
  effect-IsFresh s h = record {
    up_to = AreUpTo-suc s.last_run s.searching h;
    settling = find_later s.last_run s.searching h;
  }

  fire-IsFresh : (s : Palette S) → s.timer ≡ true → IsFresh s → IsFresh (fire platform s)
  unfolding fire Settling
  fire-IsFresh s on v =
      let idle : find_search s.last_run s.searching ≡ none =
        timer-Settling s.timer _ (asked platform s) s.found_for on v.settling in
      elim (Bool-cases (is_empty (platform.trim s.query))) [
        | inl empty ↦ rw empty (record { up_to = v.up_to; settling = rw idle refl })
        | inr full ↦ rw full (record {
          up_to = AreUpTo-append s.last_run (asked platform s) s.searching v.up_to;
          settling = rw (find-append s.last_run (asked platform s) s.searching idle) refl;
        })
      ]

  answer-IsFresh :
      (key : Asked) (i : ℕ) (rows : Option (List S)) (s : Palette S)
      → find_search i s.searching ≡ some key
      → IsFresh s
      → IsFresh (answer (some key) i rows s)
  unfolding answer
  answer-IsFresh key i rows s sent v = elim (Bool-cases (i == s.last_run)) [
    | inl last ↦
        let same : i ≡ s.last_run = ground arith in
        let found : find_search s.last_run s.searching ≡ some key = rw (← same) sent in
        let left = find-without s.last_run i s.searching in
        rw last (record {
          up_to = AreUpTo-without s.last_run i s.searching v.up_to;
          settling =
              rw (left, last)
                (answered-Settling s.timer key (asked platform s) s.found_for
                  (rw (← found) v.settling));
        })
    | inr early ↦
        let left = find-without s.last_run i s.searching in
        rw early (record {
          up_to = AreUpTo-without s.last_run i s.searching v.up_to;
          settling = rw (left, early) v.settling;
        })
  ]

  if-IsFresh : (b : Bool) (s t : Palette S) → IsFresh s → IsFresh t → IsFresh (if b then s else t)
  if-IsFresh true s t v w = v
  if-IsFresh false s t v w = w

  run_entry-IsFresh : (e : Option (Entry S)) (s : Palette S) → IsFresh s → IsFresh (run_entry e s)
  run_entry-IsFresh none s v = v
  run_entry-IsFresh (some e) s v = record { up_to = v.up_to; settling = v.settling }

  step-IsFresh :
      (items : List Item) (e : Event S) (s : Palette S)
      → IsFresh s
      → IsFresh (step platform items e s)
  unfolding step
  step-IsFresh items (Event.typed q) s v = elim (Bool-cases (same_codes q s.query)) [
    | inl same ↦
        let unchanged : s.query ≡ q = sym (same_codes_eq q s.query same) in
        rw same (record { up_to = v.up_to; settling = rw (← unchanged) v.settling })
    | inr other ↦ rw other (effect-IsFresh (record s { query = q; active = pos 0 }) v.up_to)
  ]
  step-IsFresh items (Event.choose_market m) s v = elim (Bool-cases (same_market m s.market)) [
    | inl same ↦
        let unchanged : s.market ≡ m = sym (same_market_eq m s.market same) in
        rw same (record { up_to = v.up_to; settling = rw (← unchanged) v.settling })
    | inr other ↦ rw other (effect-IsFresh (record s { market = m; active = pos 0 }) v.up_to)
  ]
  step-IsFresh items Event.timer_fires s v = elim (Bool-cases s.timer) [
    | inl on ↦ rw on (fire-IsFresh s on v)
    | inr off ↦ simp off v
  ]
  step-IsFresh items (Event.answered i rows) s v = elim (Option-cases (find_search i s.searching)) [
    | inl e ↦ rw e v
    | inr (key, e) ↦ rw e (answer-IsFresh key i rows s e v)
  ]
  step-IsFresh items Event.arrow_down s v = record { up_to = v.up_to; settling = v.settling }
  step-IsFresh items Event.arrow_up s v = record { up_to = v.up_to; settling = v.settling }
  step-IsFresh items Event.enter s v = run_entry-IsFresh _ s v
  step-IsFresh items (Event.hovered i) s v = record { up_to = v.up_to; settling = v.settling }
  step-IsFresh items (Event.clicked i) s v = run_entry-IsFresh _ s v

  run-IsFresh :
      (items : List Item) (es : List (Event S)) (s : Palette S)
      → IsFresh s
      → IsFresh (run platform items es s)
  unfolding run
  run-IsFresh items [] s v = v
  run-IsFresh items (e ∷ es) s v =
      run-IsFresh items es (step platform items e s) (step-IsFresh items e s v)

  -- However the user types, switches the market and picks entries, and in whatever order the searches
  -- are answered: once no timer runs and the last search is not in flight, the stocks listed were set
  -- for the text, trimmed, and the market on screen.
  pub run-initial-IsFresh :
      (items : List Item) (m : Market) (es : List (Event S))
      → (run platform items es (initial platform m)).timer ≡ false
      → find_search
          (run platform items es (initial platform m)).last_run
          (run platform items es (initial platform m)).searching
        ≡ none
      → (run platform items es (initial platform m)).found_for
        ≡ asked platform (run platform items es (initial platform m))
  unfolding Settling AreUpTo
  run-initial-IsFresh items m es off idle =
      let s = run platform items es (initial platform m) in
      let v = run-IsFresh items es (initial platform m) (record { up_to = tt; settling = refl }) in
      settled s.timer (find_search s.last_run s.searching) (asked platform s) s.found_for off idle
        v.settling
