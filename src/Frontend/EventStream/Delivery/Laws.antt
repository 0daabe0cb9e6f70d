-- ===== src/Frontend/EventStream/Delivery/Laws.antt =====
-- A status listener always knows the current state.
use stock_dashboard.Prelude.{
  ℕ, ◌+◌, String, ◌≡◌, refl, sym, ap, ◌∙◌, inl, inr, Bool, true, false, not, ◌&&◌, ◌||◌, Option,
  none, some, List, [], ◌∷◌, ◌++◌, arith, ◌==◌, if◌then◌else◌, Bool-cases, filter, any, contains,
}
use stock_dashboard.Frontend.EventStream.{
  Stream, Event, subscribe, unsubscribe, on_status, off_status, hello, error, timer, visibility,
  initial, open_stream, ensure_open, close, close_if_idle, attach, on_error, step, run, wanted,
  add_listener, drop_listener, add_status, drop_status, tell_one, tell, same_bool, set_connected,
}

-- What a listener was told last.
abbrev pub last_told : ℕ → List (ℕ × Bool) → Option Bool
last_told n [] = none
last_told n (x ∷ xs) = if n == x.0 then some x.1 else last_told n xs

abbrev pub listens : ℕ → List ℕ → Bool
listens n ns = any (λ m. n == m) ns

-- Every status listener was told last whether the stream is connected now.
pub record IsInformed (s : Stream) : Type 0 where
  pub knows : (n : ℕ) → listens n s.status_listeners ≡ true → last_told n s.told ≡ some s.connected

tell_keeps :
    (n : ℕ) (b : Bool) (ns : List ℕ) (log : List (ℕ × Bool))
    → last_told n log ≡ some b
    → last_told n (tell b ns log) ≡ some b
tell_keeps n b [] log h = h
tell_keeps n b (m ∷ ms) log h = tell_keeps n b ms ((m, b) ∷ log) (ground (arith, h))

last_told-tell :
    (n : ℕ) (b : Bool) (ns : List ℕ) (log : List (ℕ × Bool))
    → listens n ns ≡ true
    → last_told n (tell b ns log) ≡ some b
last_told-tell n b [] log h = absurd (cc)
last_told-tell n b (m ∷ ms) log h = elim (Bool-cases (n == m)) [
  | inl e ↦ tell_keeps n b ms ((m, b) ∷ log) (ground (arith, e))
  | inr e ↦ last_told-tell n b ms ((m, b) ∷ log) (ground (arith, h, e))
]

if-IsInformed :
    (b : Bool) {s t : Stream} → IsInformed s → IsInformed t → IsInformed (if b then s else t)
if-IsInformed true h k = h
if-IsInformed false h k = k

same_bool_eq : (b c : Bool) → same_bool b c ≡ true → b ≡ c
same_bool_eq true c h = ground arith
same_bool_eq false c h = ground arith

set_connected-IsInformed : (b : Bool) (s : Stream) → IsInformed s → IsInformed (set_connected b s)
unfolding set_connected
set_connected-IsInformed b s v =
    if-IsInformed (same_bool s.connected b) v
      (record { knows = λ n h. last_told-tell n b s.status_listeners s.told h })

-- The fields that are read are the same.
alike :
    (s t : Stream)
    → t.status_listeners ≡ s.status_listeners
    → t.told ≡ s.told
    → t.connected ≡ s.connected
    → IsInformed s
    → IsInformed t
alike s t l told c v = record {
  knows = λ n h. rw (told, c) (v.knows n (ap (listens n) (sym l) ∙ h));
}

ensure_open-IsInformed : (s : Stream) → IsInformed s → IsInformed (ensure_open s)
unfolding ensure_open open_stream
ensure_open-IsInformed s v =
    if-IsInformed (not s.is_open && not s.has_timer && not s.is_hidden)
      (alike s (open_stream s) refl refl refl v) v

attach-IsInformed : (kind : String) (s : Stream) → IsInformed s → IsInformed (attach kind s)
unfolding attach
attach-IsInformed kind s v =
    if-IsInformed (not s.is_open || contains kind s.attached) v
      (alike s (record s { attached = s.attached ++ kind ∷ [] }) refl refl refl v)

close-IsInformed : (s : Stream) → IsInformed s → IsInformed (close s)
unfolding close
close-IsInformed s v =
    let shut = record s { has_timer = false; is_open = false } in
    set_connected-IsInformed false shut (alike s shut refl refl refl v)

close_if_idle-IsInformed : (s : Stream) → IsInformed s → IsInformed (close_if_idle s)
unfolding close_if_idle
close_if_idle-IsInformed s v = if-IsInformed (not (wanted s)) (close-IsInformed s v) v

on_error-IsInformed : (s : Stream) → IsInformed s → IsInformed (on_error s)
unfolding on_error
on_error-IsInformed s v =
    let shut = record s { is_open = false } in
    let closed = set_connected false shut in
    let told : IsInformed closed =
      set_connected-IsInformed false shut (alike s shut refl refl refl v) in
    if-IsInformed (not s.is_open) v (
      if-IsInformed (not (wanted closed) || closed.is_hidden) told (
        alike closed (record closed { has_timer = true; retry = closed.retry + 1 }) refl refl refl
          told))

listens-append : (n m : ℕ) (ns : List ℕ) → listens n (ns ++ m ∷ []) ≡ (listens n ns || n == m)
listens-append n m [] = ground arith
listens-append n m (k ∷ ks) = ground (arith, listens-append n m ks)

listens-filter :
    (n m : ℕ) (ns : List ℕ) → listens n (filter (λ k. not (m == k)) ns) ≡ true → listens n ns ≡ true
listens-filter n m [] h = h
listens-filter n m (k ∷ ks) h = ground (arith, h, listens-filter n m ks)

either-listens :
    (n m : ℕ) (ns : List ℕ)
    → (n == m) ≡ false
    → (b : Bool) → listens n (if b then ns else ns ++ m ∷ []) ≡ true
    → listens n ns ≡ true
either-listens n m ns e true h = h
either-listens n m ns e false h = ground (arith, h, e, listens-append n m ns)

-- A new status listener is told at once.
told_one-IsInformed :
    (m : ℕ) (s t : Stream)
    → IsInformed s
    → t.status_listeners ≡ (add_status m s).status_listeners
    → t.told ≡ s.told
    → t.connected ≡ s.connected
    → IsInformed (tell_one m t)
told_one-IsInformed m s t v l told c = record {
  knows = λ n h. elim (Bool-cases (n == m)) [
    | inl e ↦ rw e refl
    | inr e ↦
        rw (e, told, c)
          (v.knows n (
            either-listens n m s.status_listeners e (any (λ k. m == k) s.status_listeners)
              (ap (listens n) (sym l) ∙ h)))
  ];
}

step_on_status : (m : ℕ) (s : Stream) → IsInformed s → IsInformed (step (on_status m) s)
unfolding step ensure_open open_stream
step_on_status m s v = go (not s.is_open && not s.has_timer && not s.is_hidden)
  where
    added : Stream
    added = add_status m s

    go : (b : Bool) → IsInformed (tell_one m (if b then open_stream added else added))
    go true = told_one-IsInformed m s (open_stream added) v refl refl refl
    go false = told_one-IsInformed m s added v refl refl refl

step-IsInformed : (e : Event) (s : Stream) → IsInformed s → IsInformed (step e s)
unfolding step open_stream
step-IsInformed (subscribe l) s v =
    attach-IsInformed l.kind (ensure_open (add_listener l s))
      (ensure_open-IsInformed (add_listener l s) (alike s (add_listener l s) refl refl refl v))
step-IsInformed (unsubscribe l) s v =
    close_if_idle-IsInformed (drop_listener l s) (alike s (drop_listener l s) refl refl refl v)
step-IsInformed (on_status m) s v = step_on_status m s v
step-IsInformed (off_status m) s v =
    close_if_idle-IsInformed (drop_status m s)
      (record { knows = λ n h. v.knows n (listens-filter n m s.status_listeners h) })
step-IsInformed hello s v =
    let fresh = record s { retry = 0 } in
    if-IsInformed s.is_open (set_connected-IsInformed true fresh (alike s fresh refl refl refl v)) v
step-IsInformed error s v = on_error-IsInformed s v
step-IsInformed timer s v = if-IsInformed s.has_timer (alike s (open_stream s) refl refl refl v) v
step-IsInformed (visibility hidden) s v = if-IsInformed hidden (close-IsInformed now seen) (
    if-IsInformed (wanted now) (ensure_open-IsInformed fresh (alike s fresh refl refl refl v)) seen)
  where
    now : Stream
    now = record s { is_hidden = hidden }

    fresh : Stream
    fresh = record now { retry = 0 }

    seen : IsInformed now
    seen = alike s now refl refl refl v

-- However the stream goes, every status listener was told last whether it is connected now.
pub run-initial-IsInformed :
    (es : List Event) (hidden : Bool) → IsInformed (run es (initial hidden))
unfolding run
run-initial-IsInformed es hidden = go es (initial hidden) (record { knows = λ n h. absurd (cc) })
  where
    go : (es : List Event) (s : Stream) → IsInformed s → IsInformed (run es s)
    go [] s v = v
    go (e ∷ es) s v = go es (step e s) (step-IsInformed e s v)
