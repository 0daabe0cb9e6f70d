-- ===== src/Frontend/LocalOrder.antt =====
-- frontend/src/hooks/useLocalOrder.js: a user's order of a list, merged with what the server sends.
pub mod Saved
pub mod Laws
use stock_dashboard.Prelude.{
  ℕ, zero, suc, ◌-◌, min, String, Option, none, some, List, [], ◌∷◌, ◌++◌, map, ◌==◌, if◌then◌else◌,
  str_eq, length, count,
}
use stock_dashboard.Prelude.Int.{ℤ, pos, ◌+ℤ◌, pos_part}

-- A row: its stable id, from `getId`, and its contents.
pub record Item (A : Type 0) : Type 0 where
  pub id : String
  pub value : A

module _ {A : Type 0} where
  abbrev pub ids : List (Item A) → List String
  ids items = map (λ x. x.id) items

  -- A Map by id: a later item with the same id takes the place of the earlier one.
  abbrev pub map_set : Item A → List (Item A) → List (Item A)
  map_set x [] = x ∷ []
  map_set x (y ∷ ys) = if str_eq y.id x.id then x ∷ ys else y ∷ map_set x ys

  unfoldable pub by_id : List (Item A) → List (Item A) → List (Item A)
  by_id acc [] = acc
  by_id acc (x ∷ xs) = by_id (map_set x acc) xs

  abbrev pub map_get : String → List (Item A) → Option (Item A)
  map_get id [] = none
  map_get id (x ∷ xs) = if str_eq x.id id then some x else map_get id xs

  abbrev pub map_delete : String → List (Item A) → List (Item A)
  map_delete id [] = []
  map_delete id (x ∷ xs) = if str_eq x.id id then xs else x ∷ map_delete id xs

  -- The loop over the saved order: `rest` is what the map still holds.
  unfoldable pub place : List String → List (Item A) → List (Item A) → List (Item A)
  place [] rest known = rest ++ known
  place (id ∷ order) rest known = elim (map_get id rest) [
    | none ↦ place order rest known
    | some x ↦ place order (map_delete id rest) (known ++ x ∷ [])
  ]

  unfoldable pub ordered : List String → List (Item A) → List (Item A)
  unfolding place by_id
  ordered [] items = items
  ordered (id ∷ order) items = place (id ∷ order) (by_id [] items) []

abbrev pub index_of : String → List String → Option ℕ
index_of id [] = none
index_of id (x ∷ xs) =
    if str_eq x id then some 0 else elim (index_of id xs) [ none ↦ none | some i ↦ some (suc i) ]

-- `ids.splice(i, 1)` and `ids.splice(i, 0, x)`.
abbrev pub remove_at : ℕ → List String → List String
remove_at i [] = []
remove_at zero (x ∷ xs) = xs
remove_at (suc i) (x ∷ xs) = x ∷ remove_at i xs

abbrev pub insert_at : ℕ → String → List String → List String
insert_at zero y xs = y ∷ xs
insert_at (suc i) y [] = y ∷ []
insert_at (suc i) y (x ∷ xs) = x ∷ insert_at i y xs

-- Clamped to the list.
abbrev pub target : ℕ → ℕ → ℤ → ℕ
target count from delta = min (count - 1) (pos_part (pos from +ℤ delta))

-- `moveBy` on the ids: the new arrangement, which is then saved, or nothing.
unfoldable pub move_by : String → ℤ → List String → Option (List String)
move_by id delta ids = elim (index_of id ids) [
  | none ↦ none
  | some from ↦
      if target (length ids) from delta == from
      then none
      else some (insert_at (target (length ids) from delta) id (remove_at from ids))
]
