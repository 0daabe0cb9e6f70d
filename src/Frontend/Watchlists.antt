-- ===== src/Frontend/Watchlists.antt =====
-- frontend/src/hooks/useWatchlists.js: the named lists, the active one and its items. A change of
-- `activeId` and the effect that runs after it are one step. L is a list's row, I an item; a call of
-- the API that fails throws before any state is set, except where the source catches it.
pub mod Laws
use stock_dashboard.Prelude.{
  ℕ, ◌+◌, Bool, true, false, Option, none, some, List, [], ◌∷◌, ◌==◌, if◌then◌else◌,
}

pub record Lists (L I : Type 0) : Type 0 where
  pub lists : List L
  pub active : Option ℕ
  pub items : List I
  pub loading : Bool
  -- the call of `getWatchlist` whose effect is `alive`, with its list; the calls are numbered
  pub fetching : Option (ℕ × ℕ)
  pub fetches : ℕ

pub data Event (L I : Type 0) : Type 0 where
  -- `getWatchlists` on mount has settled; none if it failed
  mounted : Option (List L) → Event L I
  -- the call of `getWatchlist` with the given number has settled
  fetched : ℕ → Option (List I) → Event L I
  selected : Option ℕ → Event L I
  -- `addWatch`, `removeWatch` or `updateWatch`, sent while the given list was active, succeeded
  mutated : Option ℕ → List I → Event L I
  -- `createWatchlist`, `renameWatchlist` and `deleteWatchlist` succeeded
  created renamed : List L → Event L I
  deleted : ℕ → List L → Event L I

abbrev pub same : Option ℕ → Option ℕ → Bool
same none none = true
same none (some b) = false
same (some a) none = false
same (some a) (some b) = a == b

abbrev pub is_alive : ℕ → Option (ℕ × ℕ) → Bool
is_alive n none = false
is_alive n (some f) = f.0 == n

module _ {L : Type 0} (id_of : L → ℕ) where
  abbrev pub first_id : List L → Option ℕ
  first_id [] = none
  first_id (l ∷ ls) = some (id_of l)

  abbrev pub last_id : List L → Option ℕ
  last_id [] = none
  last_id (l ∷ []) = some (id_of l)
  last_id (l ∷ m ∷ ls) = last_id (m ∷ ls)

  -- `cur ?? ls[0]?.id ?? null`
  abbrev pub or_first : Option ℕ → List L → Option ℕ
  or_first none ls = first_id ls
  or_first (some id) ls = some id

module _ {L I : Type 0} where
  abbrev pub initial : Lists L I
  initial = record {
    lists = [];
    active = none;
    items = [];
    loading = true;
    fetching = none;
    fetches = 0;
  }

  -- `setActiveId`; when the id changes, the effect's cleanup and the effect.
  abbrev pub effect : Option ℕ → Lists L I → Lists L I
  effect none s = record s { items = []; fetching = none }
  effect (some id) s = record s { fetching = some (s.fetches, id); fetches = s.fetches + 1 }

  unfoldable pub set_active : Option ℕ → Lists L I → Lists L I
  set_active id s = if same s.active id then s else effect id (record s { active = id })

  abbrev pub put : Option (List I) → Lists L I → Lists L I
  put none s = record s { fetching = none }
  put (some items) s = record s { items = items; fetching = none }

module _ {L I : Type 0} (id_of : L → ℕ) where
  unfoldable pub step : Event L I → Lists L I → Lists L I
  unfolding set_active
  step (mounted none) s = record s { loading = false }
  step (mounted (some ls)) s =
      set_active (or_first id_of s.active ls) (record s { lists = ls; loading = false })
  step (fetched n answer) s = if is_alive n s.fetching then put answer s else s
  step (selected id) s = set_active id s
  step (mutated sent_for items) s = record s { items = items }
  step (created ls) s = elim (last_id id_of ls) [
    | none ↦ record s { lists = ls }
    | some id ↦ set_active (some id) (record s { lists = ls })
  ]
  step (renamed ls) s = record s { lists = ls }
  step (deleted id ls) s =
      set_active (if same s.active (some id) then first_id id_of ls else s.active)
        (record s { lists = ls })

  unfoldable pub run : List (Event L I) → Lists L I → Lists L I
  unfolding step
  run [] s = s
  run (e ∷ es) s = run es (step e s)
