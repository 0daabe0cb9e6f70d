-- ===== src/Extension/Background/Handle/Laws.antt =====
-- A snapshot reports the state that it leaves behind.
use stock_dashboard.Prelude.{
  ◌≤◌, ◌≡◌, refl, ap, Bool, true, false, Option, none, some, List, arith, if◌then◌else◌, length,
}
use stock_dashboard.Extension.Api.{Status, permission_denied, network, http, ApiError, Reply, ok}
use stock_dashboard.Extension.Background.{
  AuthState, Local, Score, boom_scores, failure, reflect_error,
}
use stock_dashboard.Extension.Background.Handle.{
  Server, Answer, snapshot_of, denies, denial, error_of, first_of_two, surface, auth_after,
  state_of, take_snapshot,
}

-- The auth state in the answer to a snapshot.
abbrev pub reported : Reply Answer → Option AuthState
reported (ok (snapshot_of x)) = some x.auth_state
reported _ = none

-- An error with a status that denies.
IsDenial : Option ApiError → Type 0
IsDenial none = Unit {0}
IsDenial (some e) = denies e.status ≡ true

denial-IsDenial : (o : Option ApiError) → IsDenial (denial o)
unfolding IsDenial
denial-IsDenial none = tt
denial-IsDenial (some e) = go (denies e.status) refl
  where
    go : (b : Bool) → denies e.status ≡ b → IsDenial (if b then some e else none)
    go true h = h
    go false h = tt

first_of_two-IsDenial :
    (a b : Option ApiError) → IsDenial a → IsDenial b → IsDenial (first_of_two a b)
unfolding IsDenial
first_of_two-IsDenial none b h k = k
first_of_two-IsDenial (some e) b h k = h

surfaced :
    (e : ApiError) (t : Status) (s : Local)
    → denies t ≡ true
    → (state_of t ≡ (failure e t s).0.auth_state) × (length (failure e t s).1 ≤ 1)
surfaced e permission_denied s h = (refl, omega arith)
surfaced e network s h = absurd (cc)
surfaced e (http status) s h = ground arith

surface_agrees :
    (o : Option ApiError) (s : Local)
    → IsDenial o
    → (auth_after o s ≡ (surface o s).0.auth_state) × (length (surface o s).1 ≤ 1)
unfolding IsDenial reflect_error
surface_agrees none s h = (refl, omega arith)
surface_agrees (some e) s h = surfaced e e.status s h

-- Whatever the three requests came to, the state that a snapshot reports is the one that it leaves
-- stored, and it changes the badge at most once.
pub take_snapshot_agrees :
    (server : Server) (s : Local)
    → (reported (take_snapshot server s).2 ≡ some (take_snapshot server s).0.auth_state)
      × (length (take_snapshot server s).1 ≤ 1)
unfolding take_snapshot
take_snapshot_agrees server s = (ap (λ x. some x) agrees.0, agrees.1)
  where
    cached : Local × Reply (List Score)
    cached = boom_scores server.now server.boom s

    denied : Option ApiError
    denied =
        first_of_two (denial (error_of server.quotes))
          (first_of_two (denial (error_of cached.1)) (denial (error_of server.page)))

    agrees :
        (auth_after denied cached.0 ≡ (surface denied cached.0).0.auth_state)
        × (length (surface denied cached.0).1 ≤ 1)
    agrees = surface_agrees denied cached.0 (
        first_of_two-IsDenial (denial (error_of server.quotes)) _
          (denial-IsDenial (error_of server.quotes))
          (first_of_two-IsDenial (denial (error_of cached.1)) (denial (error_of server.page))
            (denial-IsDenial (error_of cached.1)) (denial-IsDenial (error_of server.page))))
