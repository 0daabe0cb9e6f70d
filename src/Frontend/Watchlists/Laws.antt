-- ===== src/Frontend/Watchlists/Laws.antt =====
-- The items shown are those of the active list, as long as no fetch fails and no answer comes late.
use stock_dashboard.Prelude.{
  ℕ, ◌+◌, ◌≡◌, refl, ap, ◌∙◌, Bool, true, false, Option, none, some, List, [], ◌∷◌, arith, ◌==◌,
  if◌then◌else◌,
}
use mathlib.Core.Bool.{true≢false}
use stock_dashboard.Frontend.Watchlists.{
  Lists, Event, mounted, fetched, selected, mutated, created, renamed, deleted, same, is_alive,
  first_id, last_id, or_first, initial, effect, set_active, put, step, run,
}

module _ {L I : Type 0} (id_of : L → ℕ) (belongs : ℕ → List I → Type 0) where
  -- With no fetch under way the items are those of the active list, if there is one; a fetch under
  -- way is for the active list.
  abbrev pub Shows : Option (ℕ × ℕ) → Option ℕ → List I → Type 0
  Shows none none items = Unit {0}
  Shows none (some id) items = belongs id items
  Shows (some f) active items = active ≡ some f.1

  abbrev pub IsShown : Lists L I → Type 0
  IsShown s = Shows s.fetching s.active s.items

  -- The server answers the live fetch with the items of the list that it was asked for, that fetch
  -- does not fail, and a mutation's answer comes while its list is active.
  abbrev pub IsTimely : Event L I → Lists L I → Type 0
  IsTimely (fetched n none) s = is_alive n s.fetching ≡ false
  IsTimely (fetched n (some items)) s = (id : ℕ) → s.fetching ≡ some (n, id) → belongs id items
  IsTimely (mutated sent_for items) s =
      (sent_for ≡ s.active) × ((id : ℕ) → sent_for ≡ some id → belongs id items)
  IsTimely e s = Unit {0}

  abbrev pub IsTimelyRun : List (Event L I) → Lists L I → Type 0
  IsTimelyRun [] s = Unit {0}
  IsTimelyRun (e ∷ es) s = IsTimely e s × IsTimelyRun es (step id_of e s)

  set_active-IsShown : (id : Option ℕ) (s : Lists L I) → IsShown s → IsShown (set_active id s)
  unfolding set_active
  set_active-IsShown id s h = go (same s.active id) id
    where
      go :
          (b : Bool) (id : Option ℕ)
          → IsShown (if b then s else effect id (record s { active = id }))
      go true id = h
      go false none = tt
      go false (some id) = refl

  Shows-all :
      (f : Option (ℕ × ℕ)) (active : Option ℕ) (old items : List I)
      → ((id : ℕ) → active ≡ some id → belongs id items)
      → Shows f active old
      → Shows f active items
  Shows-all none none old items k h = tt
  Shows-all none (some id) old items k h = k id refl
  Shows-all (some f) active old items k h = h

  step-IsShown :
      (e : Event L I) (s : Lists L I) → IsTimely e s → IsShown s → IsShown (step id_of e s)
  unfolding step
  step-IsShown (mounted none) s t h = h
  step-IsShown (mounted (some ls)) s t h =
      set_active-IsShown (or_first id_of s.active ls) (record s { lists = ls; loading = false }) h
  step-IsShown (fetched n none) s t h = go (is_alive n s.fetching) t
    where
      go : (b : Bool) → b ≡ false → IsShown (if b then put none s else s)
      go true q = absurd (true≢false q)
      go false q = h
  step-IsShown (fetched n (some items)) s t h = go s.fetching refl h
    where
      ended :
          (f : ℕ × ℕ)
          → s.fetching ≡ some f
          → s.active ≡ some f.1
          → (f.0 == n) ≡ true
          → IsShown (put (some items) s)
      ended f q a e = rw a (t f.1 (q ∙ ap (λ m. some (m, f.1)) (ground (arith, e))))

      chosen :
          (f : ℕ × ℕ) (b : Bool)
          → (f.0 == n) ≡ b
          → s.fetching ≡ some f
          → s.active ≡ some f.1
          → IsShown s
          → IsShown (if b then put (some items) s else s)
      chosen f true e q a k = ended f q a e
      chosen f false e q a k = k

      go :
          (o : Option (ℕ × ℕ))
          → s.fetching ≡ o
          → Shows o s.active s.items
          → IsShown (if is_alive n o then put (some items) s else s)
      go none q k = h
      go (some f) q k = chosen f (f.0 == n) refl q k h
  step-IsShown (selected id) s t h = set_active-IsShown id s h
  step-IsShown (mutated sent_for items) s t h =
      Shows-all s.fetching s.active s.items items (λ id q. t.1 id (t.0 ∙ q)) h
  step-IsShown (created ls) s t h = go (last_id id_of ls)
    where
      go :
          (o : Option ℕ)
          → IsShown (elim o [
            | none ↦ record s { lists = ls }
            | some id ↦ set_active (some id) (record s { lists = ls })
          ])
      go none = h
      go (some id) = set_active-IsShown (some id) (record s { lists = ls }) h
  step-IsShown (renamed ls) s t h = h
  step-IsShown (deleted id ls) s t h =
      set_active-IsShown (if same s.active (some id) then first_id id_of ls else s.active)
        (record s { lists = ls }) h

  -- Where the server answers for the list it is asked about, over any steps in which no live fetch
  -- fails and no mutation is answered after its list has been left, the items shown once nothing is
  -- being fetched belong to the active list.
  pub run-IsShown :
      (es : List (Event L I)) → IsTimelyRun es initial → IsShown (run id_of es initial)
  unfolding run
  run-IsShown es t = go es initial t tt
    where
      go :
          (es : List (Event L I)) (s : Lists L I)
          → IsTimelyRun es s
          → IsShown s
          → IsShown (run id_of es s)
      go [] s t h = h
      go (e ∷ es) s t h = go es (step id_of e s) t.1 (step-IsShown e s t.0 h)

module _ {L I : Type 0} (id_of : L → ℕ) where
  set_active-effect :
      (id : Option ℕ) (s : Lists L I)
      → same s.active id ≡ false
      → set_active id s ≡ effect id (record s { active = id })
  unfolding set_active
  set_active-effect id s q = ap (λ b. if b then s else effect id (record s { active = id })) q

  fetched-shown :
      (items : List I) (n id : ℕ) (s : Lists L I)
      → s.fetching ≡ some (n, id)
      → step id_of (fetched n (some items)) s ≡ put (some items) s
  unfolding step
  fetched-shown items n id s q =
      ap (λ f. if is_alive n f then put (some items) s else s) q
      ∙ ap (λ b. if b then put (some items) s else s) {x = n == n} {y = true} (ground arith)

  -- The answer to a mutation of a list that has been left since is shown under the list that is
  -- active, when the items of that one have come already, and no fetch is under way to correct it.
  pub mutated_late :
      (s : Lists L I) (old new : ℕ) (theirs late : List I)
      → s.active ≡ some old
      → (old == new) ≡ false
      → run id_of
          (selected (some new) ∷ fetched s.fetches (some theirs) ∷ mutated (some old) late ∷ [])
          s
        ≡ record s { active = some new; items = late; fetching = none; fetches = s.fetches + 1 }
  unfolding run
  mutated_late s old new theirs late a d =
      ap
        (λ t. step id_of (mutated (some old) late) (step id_of (fetched s.fetches (some theirs)) t))
        (set_active-effect (some new) s (ap (λ o. same o (some new)) a ∙ d))
      ∙ ap (step id_of (mutated (some old) late)) (
          fetched-shown theirs s.fetches new (effect (some new) (record s { active = some new }))
            refl)
