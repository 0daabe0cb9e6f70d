-- ===== src/Frontend/LocalOrder/Saved/Laws.antt =====
-- An arrangement that was made is the one that is shown, now and after a reload.
use stock_dashboard.Prelude.{String, ◌≡◌, Bool, false, some, List, map, str_eq}
use stock_dashboard.Frontend.LocalOrder.{Item, map_get}
use stock_dashboard.Frontend.LocalOrder.Saved.{Json, LocalOrder}

module _ {A : Type 0} where
  -- The same rows, each under its id, in whatever order.
  abbrev pub IsSame : List (Item A) → List (Item A) → Type 0
  IsSame rest next = (k : String) → map_get k rest ≡ map_get k next

-- `JSON.parse` gives back the strings that `JSON.stringify` wrote, which are no empty text.
pub record IsJson (json : Json) : Type 0 where
  pub parse_stringify :
      (xs : List String) → json.parse (json.stringify xs) ≡ some (some (map some xs))
  pub not_empty : (xs : List String) → str_eq (json.stringify xs) "" ≡ false
