-- ===== src/Frontend/LocalOrder/Saved.antt =====
-- The saved side of frontend/src/hooks/useLocalOrder.js: reading, writing and forgetting an order.
pub mod Laws
mod Tests
use stock_dashboard.Prelude.{
  String, Bool, true, false, Option, none, some, List, [], ◌∷◌, if◌then◌else◌, str_eq, Object,
  entry, spread,
}
use stock_dashboard.Prelude.Int.{ℤ}
use stock_dashboard.Frontend.LocalOrder.{Item, ids, ordered, move_by}

-- `localStorage`, whose reads and writes may throw.
pub record Storage : Type 0 where
  pub entries : Object String
  pub can_read : Bool
  pub can_write : Bool

-- `JSON.parse`: none when it throws, then none when it gives no array, and then the elements, none
-- for one that is not a string. `JSON.stringify` of an array of strings.
pub record Json : Type 0 where
  pub parse : String → Option (Option (List (Option String)))
  pub stringify : List String → String

-- The hook's state, and its `key`.
pub record LocalOrder : Type 0 where
  pub key : Option String
  pub order : List String
  pub storage : Storage

abbrev pub strings : List (Option String) → List String
strings [] = []
strings (none ∷ xs) = strings xs
strings (some s ∷ xs) = s ∷ strings xs

abbrev pub strings_of : Option (Option (List (Option String))) → List String
strings_of none = []
strings_of (some none) = []
strings_of (some (some xs)) = strings xs

-- A key that counts as true.
abbrev pub set_key : Option String → Option String
set_key none = none
set_key (some key) = if str_eq key "" then none else some key

abbrev pub without : String → Object String → Object String
without key entries k = if str_eq key k then none else entries k

module _ (json : Json) where
  abbrev pub read_raw : Option String → List String
  read_raw none = []
  read_raw (some raw) = if str_eq raw "" then [] else strings_of (json.parse raw)

  unfoldable pub read_order : Option String → Storage → List String
  read_order key storage = elim (set_key key) [
    | none ↦ []
    | some k ↦ if storage.can_read then read_raw (storage.entries k) else []
  ]

  -- `setItem`, where it does not throw.
  abbrev pub set_item : Option String → List String → Storage → Storage
  set_item none next storage = storage
  set_item (some k) next storage =
      if storage.can_write
      then record storage { entries = spread storage.entries (entry k (json.stringify next)) }
      else storage

  unfoldable pub persist : List String → LocalOrder → LocalOrder
  persist next s = record s { order = next; storage = set_item (set_key s.key) next s.storage }

  abbrev pub remove_item : Option String → Storage → Storage
  remove_item none storage = storage
  remove_item (some k) storage =
      if storage.can_write then record storage { entries = without k storage.entries } else storage

  unfoldable pub reset : LocalOrder → LocalOrder
  reset s = record s { order = []; storage = remove_item (set_key s.key) s.storage }

  -- The first render, and one with another key: `useState(() => readOrder(key))` and the comparison
  -- with `loadedKey`.
  unfoldable pub mount : Option String → Storage → LocalOrder
  unfolding read_order
  mount key storage = record { key = key; order = read_order key storage; storage = storage }

  abbrev pub same_key : Option String → Option String → Bool
  same_key none none = true
  same_key none (some b) = false
  same_key (some a) none = false
  same_key (some a) (some b) = str_eq a b

  unfoldable pub rerender : Option String → LocalOrder → LocalOrder
  unfolding mount
  rerender key s = if same_key key s.key then s else mount key s.storage

  module _ {A : Type 0} where
    unfoldable pub set_ordered_items : List (Item A) → LocalOrder → LocalOrder
    unfolding persist
    set_ordered_items next s = persist (ids next) s

    -- `moveBy`: the ids that are shown, of which one is moved, and what it returns.
    unfoldable pub move_shown :
        String → ℤ → List (Item A) → LocalOrder → LocalOrder × Option (List String)
    unfolding persist
    move_shown id delta items s = elim (move_by id delta (ids (ordered s.order items))) [
      | none ↦ (s, none)
      | some moved ↦ (persist moved s, some moved)
    ]
