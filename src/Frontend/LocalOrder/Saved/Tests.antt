-- ===== src/Frontend/LocalOrder/Saved/Tests.antt =====
-- A text form of lists of strings that keeps the laws, and an arrangement that is saved in it.
use stock_dashboard.Prelude.{
  ℕ, String, Bool, true, false, Option, none, some, List, [], ◌∷◌, map, ◌==◌, if◌then◌else◌,
  no_keys,
}
use Prim.Native.Char.{code}
use stock_dashboard.Frontend.LocalOrder.{Item}
use stock_dashboard.Frontend.LocalOrder.Saved.{Json, LocalOrder}

-- A string begins after a '2', and each of its characters stands after a '1'.
abbrev text_onto : String → String → String
text_onto String.[] tail = tail
text_onto (String.◌∷◌ c cs) tail = String.◌∷◌ "1" (String.◌∷◌ c (text_onto cs tail))

abbrev written : List String → String
written [] = ""
written (s ∷ ss) = String.◌∷◌ "2" (text_onto s (written ss))

abbrev read : String → String × List String
read String.[] = ("", [])
read (String.◌∷◌ c String.[]) = if code c == b'2' then ("", "" ∷ []) else ("", [])
read (String.◌∷◌ c (String.◌∷◌ d s)) =
    let all = read (String.◌∷◌ d s) in
    let rest = read s in
    if code c == b'2' then ("", all.0 ∷ all.1) else (String.◌∷◌ d rest.0, rest.1)

abbrev parse : String → Option (Option (List (Option String)))
parse String.[] = none
parse (String.◌∷◌ c s) = some (some (map some (read s).1))

abbrev json : Json
json = record { parse = parse; stringify = λ xs. String.◌∷◌ "[" (written xs) }

abbrev is_blank : String → Bool
is_blank String.[] = true
is_blank (String.◌∷◌ c s) = false

abbrev row : String → Item ℕ
row id = record { id = id; value = 0 }

abbrev server : List (Item ℕ)
server = row "TSLA" ∷ row "AAPL" ∷ []

abbrev arranged : List (Item ℕ)
arranged = row "AAPL" ∷ row "TSLA" ∷ []

abbrev list_three : LocalOrder
list_three = record {
  key = some "watchlistOrder:v1:3";
  order = [];
  storage = record { entries = no_keys; can_read = true; can_write = true };
}
