-- ===== src/Frontend/SortableRows.antt =====
-- frontend/src/hooks/useSortableRows.js: the sort of a table by one of its columns, and the clicks
-- on its headers. A number is a whole one, counted in the unit of its last place.
pub mod Stable
pub mod Laws
use stock_dashboard.Prelude.{
  ℕ, ◌+◌, String, Bool, true, false, not, ◌&&◌, Option, none, some, List, [], ◌∷◌, map, ltb,
  if◌then◌else◌, str_eq,
}
use stock_dashboard.Prelude.Int.{ℤ, pos, negsuc, ◌-ℤ◌, sub_ℕ, pos_part, neg_part, eq_ℤ}

-- What an accessor gives: null or undefined, a number, or a string.
pub data Cell : Type 0 where
  null : Cell
  number : ℤ → Cell
  text : String → Cell

abbrev pub is_blank : Cell → Bool
is_blank null = true
is_blank (number n) = false
is_blank (text s) = str_eq s ""

pub data Dir : Type 0 where
  asc desc : Dir

pub record Sort : Type 0 where
  pub key : String
  pub dir : Dir

-- `cmp * dir`
abbrev pub times_dir : Dir → ℤ → ℤ
times_dir asc c = c
times_dir desc c = sub_ℕ (neg_part c) (pos_part c)

-- `Array.prototype.sort`, which is stable: a comparator's positive answer puts the first behind.
abbrev pub is_positive : ℤ → Bool
is_positive c = ltb 0 (pos_part c)

module _ {A : Type 0} where
  abbrev pub insert : (A → A → ℤ) → A → List A → List A
  insert cmp x [] = x ∷ []
  insert cmp x (y ∷ ys) = if is_positive (cmp x y) then y ∷ insert cmp x ys else x ∷ y ∷ ys

  abbrev pub sort : (A → A → ℤ) → List A → List A
  sort cmp [] = []
  sort cmp (x ∷ xs) = insert cmp x (sort cmp xs)

-- `[row, i]`
pub record Entry (R : Type 0) : Type 0 where
  pub row : R
  pub index : ℕ

module _ {R : Type 0} where
  abbrev pub decorate : ℕ → List R → List (Entry R)
  decorate i [] = []
  decorate i (r ∷ rs) = record { row = r; index = i } ∷ decorate (i + 1) rs

-- `localeCompare` with the options, and `String` of a number.
module _ (collate : String → String → ℤ) (string_of : ℤ → String) where
  abbrev pub string : Cell → String
  string null = "null"
  string (number n) = string_of n
  string (text s) = s

  abbrev pub compare : Cell → Cell → ℤ
  compare (number m) (number n) = m -ℤ n
  compare a b = collate (string a) (string b)

  module _ {R : Type 0} where
    abbrev pub comparator : (R → Cell) → Dir → Entry R → Entry R → ℤ
    comparator accessor dir a b =
        let av = accessor a.row in
        let bv = accessor b.row in
        let cmp = compare av bv in
        if is_blank av && is_blank bv
        then sub_ℕ a.index b.index
        else if is_blank av
        then pos 1
        else if is_blank bv
        then negsuc 0
        else if not (eq_ℤ cmp (pos 0))
        then times_dir dir cmp
        else sub_ℕ a.index b.index

    unfoldable pub sort_by : (R → Cell) → Dir → List R → List R
    sort_by accessor dir rows = map (λ e. e.row) (sort (comparator accessor dir) (decorate 0 rows))

    abbrev pub sorted : (String → Option (R → Cell)) → Option Sort → List R → List R
    sorted columns none rows = rows
    sorted columns (some s) rows = elim (columns s.key) [
      | none ↦ rows
      | some accessor ↦ sort_by accessor s.dir rows
    ]

abbrev pub is_asc : Dir → Bool
is_asc asc = true
is_asc desc = false

unfoldable pub toggle : String → Option Sort → Option Sort
toggle key none = some (record { key = key; dir = asc })
toggle key (some s) =
    if str_eq s.key key && is_asc s.dir
    then some (record { key = key; dir = desc })
    else some (record { key = key; dir = asc })

-- `sortProps(key)`, less `onSort`, which is `toggle`.
pub record SortProps : Type 0 where
  pub active : Bool
  pub dir : Option Dir
  pub aria_sort : String

abbrev pub sort_props : String → Option Sort → SortProps
sort_props key none = record { active = false; dir = none; aria_sort = "none" }
sort_props key (some s) =
    if str_eq s.key key
    then record {
      active = true;
      dir = some s.dir;
      aria_sort = if is_asc s.dir then "ascending" else "descending";
    }
    else record { active = false; dir = none; aria_sort = "none" }
