-- ===== src/Frontend/UpdateStatus/Laws.antt =====
-- Without force there is at most one request at a time, and the shared promise is always a live one.
use stock_dashboard.Prelude.{
  ℕ, ◌+◌, ◌≡◌, refl, ap, ◌∙◌, Bool, true, false, not, ◌&&◌, Option, none, some, List, [], ◌∷◌, ◌==◌,
  if◌then◌else◌, filter, any, All,
}
use stock_dashboard.Frontend.UpdateStatus.{
  Store, Reply, answer, failure, Event, refreshed, settled, pushed, is_number, is_there, initial,
  refresh_update_status, emit_reply, finally, settle, step, run,
}

abbrev pub list_of : Option ℕ → List ℕ
list_of none = []
list_of (some i) = i ∷ []

finally-single :
    (i : ℕ) (o : Option ℕ)
    → filter (λ j. not (j == i)) (list_of o) ≡ list_of (if is_number i o then none else o)
finally-single i none = refl
finally-single i (some j) = go (j == i)
  where
    go : (b : Bool) → (if not b then j ∷ [] else []) ≡ list_of (if b then none else some j)
    go true = refl
    go false = refl

module _ {D : Type 0} where
  abbrev pub IsUnforced : Event D → Type 0
  IsUnforced (refreshed force) = force ≡ false
  IsUnforced e = Unit {0}

  -- The request in flight is the only one that has not settled.
  abbrev pub IsSingle : Store D → Type 0
  IsSingle s = s.pending ≡ list_of s.inflight

  refresh-IsSingle : (s : Store D) → IsSingle s → IsSingle (refresh_update_status false s)
  unfolding refresh_update_status
  refresh-IsSingle s h = go s.inflight h
    where
      go :
          (o : Option ℕ)
          → s.pending ≡ list_of o
          → IsSingle (
              if is_there o && true then record s { inflight = o } else record s {
                loading = true;
                inflight = some s.sent;
                pending = s.sent ∷ s.pending;
                sent = s.sent + 1;
              })
      go none h = ap (λ ps. s.sent ∷ ps) h
      go (some i) h = h

  settle-IsSingle : (i : ℕ) (r : Reply D) (s : Store D) → IsSingle s → IsSingle (settle i r s)
  unfolding settle
  settle-IsSingle i r s h = go (any (λ j. j == i) s.pending) r
    where
      kept :
          filter (λ j. not (j == i)) s.pending
          ≡ list_of (if is_number i s.inflight then none else s.inflight)
      kept = ap (filter (λ j. not (j == i))) h ∙ finally-single i s.inflight

      go : (b : Bool) (r : Reply D) → IsSingle (if b then finally i (emit_reply r s) else s)
      go false r = h
      go true (answer d) = kept
      go true (failure e) = kept

  step-IsSingle : (e : Event D) (s : Store D) → IsUnforced e → IsSingle s → IsSingle (step e s)
  unfolding step
  step-IsSingle (refreshed force) s u h = rw u (refresh-IsSingle s h)
  step-IsSingle (settled i r) s u h = settle-IsSingle i r s h
  step-IsSingle (pushed d) s u h = h

  -- However many components ask and however the requests settle, as long as nobody forces one there
  -- is at most one request that has not settled: the one that is shared.
  pub run-initial-IsSingle : (es : List (Event D)) → All IsUnforced es → IsSingle (run es initial)
  unfolding run
  run-initial-IsSingle es u = go es initial u refl
    where
      go :
          (es : List (Event D)) (s : Store D) → All IsUnforced es → IsSingle s → IsSingle (run es s)
      go [] s u h = h
      go (e ∷ es) s u h = go es (step e s) u.1 (step-IsSingle e s u.0 h)
