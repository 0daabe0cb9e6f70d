-- ===== src/Frontend/EventStream/Laws.antt =====
-- The stream is open, or waits to reconnect, exactly while something listens in a visible tab.
use stock_dashboard.Prelude.{
  ℕ, String, ◌≡◌, refl, ap, ◌∙◌, ◌⊎◌, inl, inr, Bool, true, false, not, ◌&&◌, ◌||◌, List, [], ◌∷◌,
  ◌++◌, arith, ◌==◌, if◌then◌else◌, str_eq_refl, Bool-cases, any, contains, contains-append,
}
use stock_dashboard.Frontend.EventStream.{
  Listener, Stream, Event, subscribe, unsubscribe, on_status, off_status, hello, error, timer,
  visibility, initial, is_empty, add_status, tell_one, set_connected, same_bool, wanted, is_same,
  add_listener, step, run, ensure_open, attach,
}

-- Open and waiting exclude one another; one of them holds exactly where the stream is wanted in a
-- visible tab; it is connected only where it is open; and an open stream has every kind attached.
pub record IsValid (s : Stream) : Type 0 where
  pub exclusive : (s.is_open && s.has_timer) ≡ false
  pub alive : (s.is_open || s.has_timer) ≡ (wanted s && not s.is_hidden)
  pub honest : s.connected ≡ true → s.is_open ≡ true
  pub attached : s.is_open ≡ true → s.attached ≡ s.kinds

is_empty-append_one : {A : Type 0} (xs : List A) (x : A) → is_empty (xs ++ x ∷ []) ≡ false
is_empty-append_one [] x = refl
is_empty-append_one (y ∷ xs) x = refl

any-nonempty : {A : Type 0} (p : A → Bool) (xs : List A) → any p xs ≡ true → is_empty xs ≡ false
any-nonempty p [] h = cc
any-nonempty p (x ∷ xs) h = refl

ensure_open-IsValid :
    (s : Stream)
    → (s.is_open && s.has_timer) ≡ false
    → wanted s ≡ true
    → (s.is_hidden ≡ true → (s.is_open || s.has_timer) ≡ false)
    → (s.connected ≡ true → s.is_open ≡ true)
    → (s.is_open ≡ true → s.attached ≡ s.kinds)
    → IsValid (ensure_open s)
unfolding ensure_open wanted
ensure_open-IsValid s x w h c a = ground arith

-- A stream that is about to open, or that is open and attaches one more kind.
subscribe-IsValid :
    (kind : String) (s : Stream)
    → (s.is_open && s.has_timer) ≡ false
    → wanted s ≡ true
    → (s.is_hidden ≡ true → (s.is_open || s.has_timer) ≡ false)
    → (s.connected ≡ true → s.is_open ≡ true)
    → contains kind s.kinds ≡ true
    → (s.is_open ≡ true
        → (s.attached ≡ s.kinds)
          ⊎ ((s.attached ++ kind ∷ [] ≡ s.kinds) × (contains kind s.attached ≡ false)))
    → IsValid (attach kind (ensure_open s))
unfolding ensure_open attach wanted
subscribe-IsValid kind s x w h c m a = ground arith

contains-append_one : (k : String) (xs : List String) → contains k (xs ++ k ∷ []) ≡ true
contains-append_one k xs = ground (arith, contains-append k xs (k ∷ []), str_eq_refl k)

add-nonempty :
    (l : Listener) (xs : List Listener)
    → is_empty (if any (is_same l) xs then xs else xs ++ l ∷ []) ≡ false
add-nonempty l xs = ground (arith, is_empty-append_one xs l, any-nonempty (is_same l) xs)

step_subscribe :
    (l : Listener) (s : Stream)
    → IsValid s
    → IsValid (attach l.kind (ensure_open (add_listener l s)))
unfolding wanted
step_subscribe l s v =
    subscribe-IsValid l.kind (add_listener l s) v.exclusive
      (ground (arith, add-nonempty l s.listeners)) (λ h. ground arith) v.honest
      (ground (arith, contains-append_one l.kind s.kinds))
      (λ o. kinds (contains l.kind s.kinds) refl (v.attached o))
  where
    kinds :
        (b : Bool)
        → contains l.kind s.kinds ≡ b
        → s.attached ≡ s.kinds
        → (s.attached ≡ (if b then s.kinds else s.kinds ++ l.kind ∷ []))
          ⊎ ((s.attached ++ l.kind ∷ [] ≡ (if b then s.kinds else s.kinds ++ l.kind ∷ []))
              × (contains l.kind s.attached ≡ false))
    kinds true e a = inl a
    kinds false e a = inr (ap (λ xs. xs ++ l.kind ∷ []) a, ap (contains l.kind) a ∙ e)

status-nonempty :
    (n : ℕ) (xs : List ℕ) → is_empty (if any (λ m. n == m) xs then xs else xs ++ n ∷ []) ≡ false
status-nonempty n xs = ground (arith, is_empty-append_one xs n, any-nonempty (λ (m : ℕ). n == m) xs)

tell_one-IsValid : (n : ℕ) (s : Stream) → IsValid s → IsValid (tell_one n s)
unfolding wanted
tell_one-IsValid n s v = record {
  exclusive = v.exclusive;
  alive = v.alive;
  honest = v.honest;
  attached = v.attached;
}

step_on_status : (n : ℕ) (s : Stream) → IsValid s → IsValid (step (on_status n) s)
unfolding step
step_on_status n s v = tell_one-IsValid n (ensure_open (add_status n s)) (
    ensure_open-IsValid (add_status n s) v.exclusive
      (ground (arith, status-nonempty n s.status_listeners)) (λ h. ground arith) v.honest
      v.attached)

set_connected-IsValid :
    (b : Bool) (s : Stream)
    → (b ≡ true → s.is_open ≡ true)
    → (s.is_open && s.has_timer) ≡ false
    → (s.is_open || s.has_timer) ≡ (wanted s && not s.is_hidden)
    → (s.is_open ≡ true → s.attached ≡ s.kinds)
    → IsValid (set_connected b s)
unfolding set_connected wanted
set_connected-IsValid b s h x w a = elim (Bool-cases (same_bool s.connected b)) [
  | inl e ↦ rw e (record { exclusive = x; alive = w; honest = λ c. ground arith; attached = a })
  | inr e ↦ rw e (record { exclusive = x; alive = w; honest = h; attached = a })
]

step-IsValid : (e : Event) (s : Stream) → IsValid s → IsValid (step e s)
unfolding step
step-IsValid (subscribe l) s v = step_subscribe l s v
step-IsValid (unsubscribe l) s v = ground arith
step-IsValid (on_status n) s v = step_on_status n s v
step-IsValid (off_status n) s v = ground arith
step-IsValid hello s v = ground arith
step-IsValid error s v = ground arith
step-IsValid timer s v = ground arith
step-IsValid (visibility hidden) s v = ground arith

run-IsValid : (es : List Event) (s : Stream) → IsValid s → IsValid (run es s)
unfolding run
run-IsValid [] s v = v
run-IsValid (e ∷ es) s v = run-IsValid es (step e s) (step-IsValid e s v)

initial-IsValid : (hidden : Bool) → IsValid (initial hidden)
unfolding wanted
initial-IsValid hidden = record {
  exclusive = refl;
  alive = refl;
  honest = λ e. cc;
  attached = λ e. refl;
}

-- After any events the stream is open or about to reconnect exactly while something listens in a
-- visible tab, never both at once; it counts as connected only while it is open; and every kind
-- that was ever subscribed to is attached to the open stream.
pub run-initial-IsValid : (hidden : Bool) (es : List Event) → IsValid (run es (initial hidden))
run-initial-IsValid hidden es = run-IsValid es (initial hidden) (initial-IsValid hidden)
