-- ===== src/Frontend/Updates/Laws.antt =====
-- What UpdatesSection.jsx promises: when the page reloads, and when an update is asked for.
use stock_dashboard.Prelude.{
  ℕ, suc, ◌≡◌, sym, ap, ◌∙◌, inl, inr, Bool, false, ◌||◌, Option, some, List, [], ◌∷◌, arith,
  Option-cases,
}
use stock_dashboard.Frontend.Updates.{same_commit, Call, Reply, Section, Event, state_of, flow}
use stock_dashboard.Frontend.Updates.Step.{
  without_call, tick, act, run, reload_effect, settle, find_call, is_reconnected, step,
}

-- The reply is that of a server whose health names the commit wanted.
abbrev pub confirms_call : Option Call → Reply → Bool
confirms_call (some (Call.health_when_done want)) (Reply.health c) = same_commit c want
confirms_call (some (Call.probe want)) (Reply.health c) = same_commit c want
confirms_call _ _ = false

abbrev pub confirms : Event → Section → Bool
confirms (Event.reply i now r) s = confirms_call (find_call i s.calls) r
confirms _ s = false

unfoldable pub confirmed : List Event → Section → Bool
confirmed [] s = false
confirmed (e ∷ es) s = confirms e s || confirmed es (step e s)

unfoldable pub seconds : List Event → ℕ
seconds [] = 0
seconds (Event.second ∷ es) = suc (seconds es)
seconds (_ ∷ es) = seconds es

-- The page has neither reloaded nor started to count down.
pub record IsWaiting (s : Section) : Type 0 where
  pub not_counting : is_reconnected s.phase ≡ false
  pub not_reloaded : s.reloaded ≡ false

is_reconnected-flow :
    (s : Section) → is_reconnected s.phase ≡ false → is_reconnected (flow s) ≡ false
unfolding flow
is_reconnected-flow s h = ground (arith, h, s.phase)

settle-IsWaiting :
    (c : Call) (now : ℕ) (r : Reply) (s : Section)
    → confirms_call (some c) r ≡ false
    → IsWaiting s
    → IsWaiting (settle c now r s)
unfolding settle
settle-IsWaiting Call.follow now (Reply.status d) s h v = ground (arith, v, d.apply)
settle-IsWaiting Call.follow now (Reply.health c) s h v = v
settle-IsWaiting Call.follow now (Reply.failure e) s h v = ground (arith, v)
settle-IsWaiting (Call.health_when_done want) now (Reply.status d) s h v = v
settle-IsWaiting (Call.health_when_done want) now (Reply.health c) s h v = ground (arith, v)
settle-IsWaiting (Call.health_when_done want) now (Reply.failure e) s h v = ground (arith, v)
settle-IsWaiting (Call.probe want) now (Reply.status d) s h v = v
settle-IsWaiting (Call.probe want) now (Reply.health c) s h v = ground (arith, v)
settle-IsWaiting (Call.probe want) now (Reply.failure e) s h v = ground (arith, v)
settle-IsWaiting Call.status_after_probe now (Reply.status d) s h v =
    ground (arith, v, state_of d.apply)
settle-IsWaiting Call.status_after_probe now (Reply.health c) s h v = v
settle-IsWaiting Call.status_after_probe now (Reply.failure e) s h v = v
settle-IsWaiting Call.apply_update now (Reply.status d) s h v = ground (arith, v)
settle-IsWaiting Call.apply_update now (Reply.health c) s h v = v
settle-IsWaiting Call.apply_update now (Reply.failure e) s h v = ground (arith, v)
settle-IsWaiting Call.check_now now (Reply.status d) s h v = ground (arith, v)
settle-IsWaiting Call.check_now now (Reply.health c) s h v = v
settle-IsWaiting Call.check_now now (Reply.failure e) s h v = ground (arith, v)

act-IsWaiting : (e : Event) (s : Section) → confirms e s ≡ false → IsWaiting s → IsWaiting (act e s)
unfolding act tick
act-IsWaiting (Event.store d) s h v = ground (arith, v)
act-IsWaiting Event.open_confirm s h v = ground (arith, v)
act-IsWaiting Event.cancel_confirm s h v = ground (arith, v)
act-IsWaiting Event.start_update s h v = ground (arith, v)
act-IsWaiting Event.check s h v = ground (arith, v)
act-IsWaiting Event.poll s h v = ground (arith, v, flow s)
act-IsWaiting Event.second s h v = ground (arith, v)
act-IsWaiting (Event.reply i now r) s h v = elim (Option-cases (find_call i s.calls)) [
  | inl e ↦ rw e v
  | inr (c, e) ↦ rw e (
      settle-IsWaiting c now r (record s { calls = without_call i s.calls })
        (ap (λ o. confirms_call o r) (sym e) ∙ h) (ground (arith, v)))
]

step-IsWaiting :
    (e : Event) (s : Section) → confirms e s ≡ false → IsWaiting s → IsWaiting (step e s)
unfolding step reload_effect
step-IsWaiting e s h v =
    let w = act-IsWaiting e s h v in let f = is_reconnected-flow (act e s) w.not_counting in rw f w

pub run-IsWaiting :
    (es : List Event) (s : Section) → confirmed es s ≡ false → IsWaiting s → IsWaiting (run es s)
unfolding run confirmed
run-IsWaiting [] s h v = v
run-IsWaiting (e ∷ es) s h v =
    run-IsWaiting es (step e s) (ground arith) (step-IsWaiting e s (ground arith) v)
