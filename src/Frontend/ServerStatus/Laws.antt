-- ===== src/Frontend/ServerStatus/Laws.antt =====
-- What useServerStatus.js promises: a page that has gone is left alone.
use stock_dashboard.Prelude.{
  ◌≡◌, refl, inl, inr, Bool, true, false, List, [], ◌∷◌, arith, Option-cases, All,
}
use stock_dashboard.Frontend.ServerStatus.{
  Stage, Reply, Server, Event, find_stage, without_stage, settle, clean_up, step, run,
}

module _ {O S E C F : Type 0} where
  -- What begins a pull or sets the effect up again after the page has gone.
  unfoldable pub starts : Event O S E C F → Bool
  starts Event.refresh = true
  starts (Event.rerender active f) = true
  starts _ = false

  -- Nothing is shown anew and nothing is sent.
  pub record IsSilent (s t : Server O S E C F) : Type 0 where
    pub same_shown : t.shown ≡ s.shown
    pub same_sent : t.sent ≡ s.sent
    pub gone : t.mounted ≡ false
    pub stopped : t.polling ≡ false

  settle-IsSilent :
      (st : Stage F) (r : Reply O S E C) (s : Server O S E C F)
      → s.mounted ≡ false
      → settle st r s ≡ s
  unfolding settle
  settle-IsSilent (Stage.overview_of w f) (Reply.status o src) s h = ground (arith, h)
  settle-IsSilent (Stage.overview_of w f) (Reply.log e c) s h = refl
  settle-IsSilent (Stage.overview_of w f) (Reply.failure m) s h = ground (arith, h)
  settle-IsSilent (Stage.log_of f) (Reply.status o src) s h = refl
  settle-IsSilent (Stage.log_of f) (Reply.log e c) s h = ground (arith, h)
  settle-IsSilent (Stage.log_of f) (Reply.failure m) s h = ground (arith, h)

  step-IsSilent :
      (e : Event O S E C F) (s t : Server O S E C F)
      → starts e ≡ false
      → IsSilent s t
      → IsSilent s (step e t)
  unfolding step starts clean_up
  step-IsSilent (Event.fast hidden) s t h v = ground (arith, v)
  step-IsSilent (Event.slow hidden) s t h v = ground (arith, v)
  step-IsSilent (Event.visible hidden) s t h v = ground (arith, v)
  step-IsSilent Event.refresh s t h v = absurd (cc)
  step-IsSilent (Event.rerender active f) s t h v = absurd (cc)
  step-IsSilent Event.unmount s t h v = ground (arith, v)
  step-IsSilent (Event.reply i r) s t h v = elim (Option-cases (find_stage i t.pending)) [
    | inl e ↦ rw e v
    | inr (st, e) ↦
        let t' = record t { pending = without_stage i t.pending } in
        rw (e, settle-IsSilent st r t' v.gone) (ground (arith, v))
  ]

  run-IsSilent :
      (es : List (Event O S E C F)) (s t : Server O S E C F)
      → All (λ e. starts e ≡ false) es
      → IsSilent s t
      → IsSilent s (run es t)
  unfolding run
  run-IsSilent [] s t h v = v
  run-IsSilent (e ∷ es) s t h v = run-IsSilent es s (step e t) h.1 (step-IsSilent e s t h.0 v)

  -- After a polling page has gone, unless it is rendered or refreshed again, its timers send nothing
  -- and the answers that are still to come change nothing of what it showed.
  pub unmount-IsSilent :
      (es : List (Event O S E C F)) (s : Server O S E C F)
      → s.polling ≡ true
      → All (λ e. starts e ≡ false) es
      → ((run (Event.unmount ∷ es) s).shown ≡ s.shown)
        × ((run (Event.unmount ∷ es) s).sent ≡ s.sent)
  unfolding run step clean_up
  unmount-IsSilent es s p h =
      let gone : IsSilent s (clean_up s) = rw p (ground arith) in
      let v = run-IsSilent es s (clean_up s) h gone in (v.same_shown, v.same_sent)
