-- ===== src/Frontend/RiskStatus/Laws.antt =====
-- One interval ticks while somebody listens, and none otherwise; an answer that comes late.
use stock_dashboard.Prelude.{
  ℕ, ◌+◌, ◌≤◌, ◌≡◌, refl, ap, ◌∙◌, Bool, true, false, not, ◌&&◌, Option, none, some, List, [], ◌∷◌,
  ◌++◌, arith, ◌==◌, if◌then◌else◌, length, filter, any, length-append, length-filter-le,
}
use mathlib.Core.Bool.{true≢false}
use stock_dashboard.Frontend.RiskStatus.{
  Call, refresh, change, Reply, answer, failure, Store, find_call, without_call, clear_interval,
  initial, send, refresh_risk_status, settle, reply, set_interval, subscribe, unsubscribe, tick,
  Event, subscribed, unsubscribed, ticked, called, replied, step, run,
}

abbrev pub Ticks : List ℕ → Option ℕ → List ℕ → Type 0
Ticks [] timer ticking = ticking ≡ []
Ticks (l ∷ ls) none ticking = ⊥
Ticks (l ∷ ls) (some t) ticking = ticking ≡ t ∷ []

other-Ticks :
    (x y : ℕ) (xs ys : List ℕ) (timer : Option ℕ) (ticking : List ℕ)
    → Ticks (x ∷ xs) timer ticking
    → Ticks (y ∷ ys) timer ticking
other-Ticks x y xs ys none ticking h = h
other-Ticks x y xs ys (some t) ticking h = h

-- Once the interval of `timer` is cleared, none ticks.
cleared :
    (ls : List ℕ) (timer : Option ℕ) (ticking : List ℕ)
    → Ticks ls timer ticking
    → clear_interval timer ticking ≡ []
cleared [] none ticking h = h
cleared [] (some t) ticking h = ap (filter (λ j. not (j == t))) h
cleared (x ∷ ls) none ticking h = absurd h
cleared (x ∷ ls) (some t) ticking h = ap (filter (λ j. not (j == t))) h ∙ ground arith

module _ {D : Type 0} where
  -- With no listener no interval ticks; with one or more, the interval of `timer` ticks alone.
  abbrev pub IsPolled : Store D → Type 0
  IsPolled s = Ticks s.listeners s.timer s.ticking

  -- React subscribes each listener once.
  abbrev pub IsFresh : Event D → Store D → Type 0
  IsFresh (subscribed l) s = any (λ j. j == l) s.listeners ≡ false
  IsFresh e s = Unit {0}

  abbrev pub IsFreshRun : List (Event D) → Store D → Type 0
  IsFreshRun [] s = Unit {0}
  IsFreshRun (e ∷ es) s = IsFresh e s × IsFreshRun es (step e s)

  refresh-IsPolled : (s : Store D) → IsPolled s → IsPolled (refresh_risk_status s)
  unfolding refresh_risk_status
  refresh-IsPolled s h = h

  subscribe-IsPolled :
      (l : ℕ) (s : Store D)
      → any (λ j. j == l) s.listeners ≡ false
      → IsPolled s
      → IsPolled (subscribe l s)
  unfolding subscribe refresh_risk_status
  subscribe-IsPolled l s f h = go s.listeners (any (λ j. j == l) s.listeners) f h
    where
      with_listeners : List ℕ → Store D
      with_listeners ls = record s { listeners = ls }

      several :
          (x : ℕ) (ls : List ℕ) (c : Bool)
          → (length (x ∷ ls ++ l ∷ []) == 1) ≡ c
          → Ticks (x ∷ ls) s.timer s.ticking
          → IsPolled (
              if c
              then set_interval (refresh_risk_status (with_listeners (x ∷ ls ++ l ∷ [])))
              else with_listeners (x ∷ ls ++ l ∷ []))
      several x ls true q h = absurd (ground (arith, q, length-append ls (l ∷ [])))
      several x ls false q h = other-Ticks x x ls (ls ++ l ∷ []) s.timer s.ticking h

      go :
          (ls : List ℕ) (b : Bool)
          → b ≡ false
          → Ticks ls s.timer s.ticking
          → IsPolled (
              let added = if b then ls else ls ++ l ∷ [] in
              if length added == 1
              then set_interval (refresh_risk_status (with_listeners added))
              else with_listeners added)
      go ls true q h = absurd (true≢false q)
      go [] false q h = ap (λ t. (s.intervals + 1) ∷ t) h
      go (x ∷ ls) false q h = several x ls (length (x ∷ ls ++ l ∷ []) == 1) refl h

  unsubscribe-IsPolled : (l : ℕ) (s : Store D) → IsPolled s → IsPolled (unsubscribe l s)
  unfolding unsubscribe
  unsubscribe-IsPolled l s h =
      go s.listeners (filter (λ j. not (j == l)) s.listeners)
        (length-filter-le (λ j. not (j == l)) s.listeners) h
    where
      kept :
          (x y : ℕ) (ls rest : List ℕ) (c : Bool)
          → (length (y ∷ rest) == 0) ≡ c
          → Ticks (x ∷ ls) s.timer s.ticking
          → IsPolled (
              if c
              then record s {
                listeners = y ∷ rest;
                ticking = clear_interval s.timer s.ticking;
                timer = none;
              }
              else record s { listeners = y ∷ rest })
      kept x y ls rest true q h = absurd (ground (arith, q))
      kept x y ls rest false q h = other-Ticks x y ls rest s.timer s.ticking h

      go :
          (ls rest : List ℕ)
          → length rest ≤ length ls
          → Ticks ls s.timer s.ticking
          → IsPolled (
              if length rest == 0
              then record s {
                listeners = rest;
                ticking = clear_interval s.timer s.ticking;
                timer = none;
              }
              else record s { listeners = rest })
      go ls [] k h = cleared ls s.timer s.ticking h
      go [] (y ∷ rest) k h = absurd (omega (arith, k))
      go (x ∷ ls) (y ∷ rest) k h = kept x y ls rest (length (y ∷ rest) == 0) refl h

  reply-IsPolled : (i : ℕ) (r : Reply D) (s : Store D) → IsPolled s → IsPolled (reply i r s)
  unfolding reply
  reply-IsPolled i r s h = go (find_call i s.pending) r
    where
      go :
          (o : Option Call) (r : Reply D)
          → IsPolled (elim o [
            | none ↦ s
            | some c ↦ settle c r (record s { pending = without_call i s.pending })
          ])
      go none r = h
      go (some refresh) (answer d) = h
      go (some refresh) (failure e) = h
      go (some change) (answer d) = h
      go (some change) (failure e) = h

  step-IsPolled : (e : Event D) (s : Store D) → IsFresh e s → IsPolled s → IsPolled (step e s)
  unfolding step tick
  step-IsPolled (subscribed l) s f h = subscribe-IsPolled l s f h
  step-IsPolled (unsubscribed l) s f h = unsubscribe-IsPolled l s h
  step-IsPolled (ticked t hidden) s f h = go (any (λ j. j == t) s.ticking && not hidden)
    where
      go : (b : Bool) → IsPolled (if b then refresh_risk_status s else s)
      go true = refresh-IsPolled s h
      go false = h
  step-IsPolled (called refresh) s f h = refresh-IsPolled s h
  step-IsPolled (called change) s f h = h
  step-IsPolled (replied i r) s f h = reply-IsPolled i r s h

  -- However components come and go, however calls are answered, with each listener subscribed once:
  -- no interval polls while nobody listens, and exactly one while somebody does.
  pub run-initial-IsPolled :
      (es : List (Event D)) → IsFreshRun es initial → IsPolled (run es initial)
  unfolding run
  run-initial-IsPolled es f = go es initial f refl
    where
      go : (es : List (Event D)) (s : Store D) → IsFreshRun es s → IsPolled s → IsPolled (run es s)
      go [] s f h = h
      go (e ∷ es) s f h = go es (step e s) f.1 (step-IsPolled e s f.0 h)

  reply-payload :
      (i : ℕ) (d : D) (c : Call) (s : Store D)
      → find_call i s.pending ≡ some c
      → (reply i (answer d) s).payload ≡ some d
  unfolding reply
  reply-payload i d c s q =
      ap
        (λ o.
          (elim o as (λ o. Store D) [
            | none ↦ s
            | some c ↦ settle c (answer d) (record s { pending = without_call i s.pending })
          ]).payload)
        q
      ∙ go c
    where
      go :
          (c : Call)
          → (settle c (answer d) (record s { pending = without_call i s.pending })).payload ≡ some d
      go refresh = refl
      go change = refl

  reply-pending :
      (i : ℕ) (d : D) (s : Store D)
      → find_call i s.pending ≡ some change
      → (reply i (answer d) s).pending ≡ without_call i s.pending
  unfolding reply
  reply-pending i d s q =
      ap
        (λ o.
          (elim o as (λ o. Store D) [
            | none ↦ s
            | some c ↦ settle c (answer d) (record s { pending = without_call i s.pending })
          ]).pending)
        q

  -- A poll that was sent before a change of the kill switch, and is answered after it, puts its own
  -- answer in the place of the change's.
  pub refreshed_late :
      (s : Store D) (halted stale : D)
      → (run
          (called refresh
            ∷ called change
            ∷ replied (s.sent + 1) (answer halted)
            ∷ replied s.sent (answer stale)
            ∷ [])
          s).payload
        ≡ some stale
  unfolding run step reply refresh_risk_status
  refreshed_late s halted stale =
      reply-payload s.sent stale refresh (reply (s.sent + 1) (answer halted) sent_both) (
        ap (find_call s.sent) (reply-pending (s.sent + 1) halted sent_both (ground arith))
        ∙ ground arith)
    where
      sent_both : Store D
      sent_both = send change (refresh_risk_status s)
