-- ===== src/Extension/Annotate.antt =====
-- extension/src/content/annotate.js: inserting badges after the mentions in the text nodes of a page.
pub mod Laws
use stock_dashboard.Prelude.{
  ℕ, ◌+◌, Bool, not, ◌||◌, List, [], ◌∷◌, ◌++◌, leb, if◌then◌else◌, length, any,
}
use stock_dashboard.Desktop.Window.{same_codes}
use stock_dashboard.Extension.Detect.{Mention, Matcher, scan_text}

abbrev pub pass_limit : ℕ
pass_limit = 250

abbrev pub page_limit : ℕ
page_limit = 800

-- A text node that was collected, and whether it is still in the page.
pub record Node : Type 0 where
  pub text : List ℕ
  pub is_connected : Bool

-- A pass: the badges that it inserted, the page's budget, and the tickers, in order.
pub record Pass : Type 0 where
  pub inserted : ℕ
  pub used : ℕ
  pub tickers : List (List ℕ)

abbrev pub is_spent : Pass → Bool
is_spent s = leb pass_limit s.inserted || leb page_limit s.used

abbrev pub add_ticker : List ℕ → List (List ℕ) → List (List ℕ)
add_ticker t ts = if any (same_codes t) ts then ts else ts ++ t ∷ []

abbrev pub badge : Mention → Pass → Pass
badge m s = record {
  inserted = s.inserted + 1;
  used = s.used + 1;
  tickers = add_ticker m.ticker s.tickers;
}

-- From the last hit to the first. `setStart` throws for an offset past the end of the node, and
-- `insertNode` splits the node, whose text then ends where the badge was put.
unfoldable pub insert_hits : List Mention → ℕ → Pass → Pass
insert_hits [] size s = s
insert_hits (m ∷ ms) size s =
    let next = (if leb m.end size then m.end else size) in
    let more = insert_hits ms next (if leb m.end size then badge m s else s) in
    if is_spent s then s else more

abbrev pub reverse_onto : {A : Type 0} → List A → List A → List A
reverse_onto [] acc = acc
reverse_onto (x ∷ xs) acc = reverse_onto xs (x ∷ acc)

unfoldable pub annotate_node : Matcher → Node → Pass → Pass
unfolding insert_hits
annotate_node matcher node s =
    if not node.is_connected
    then s
    else insert_hits (reverse_onto (scan_text node.text matcher) []) (length node.text) s

unfoldable pub annotate_nodes : Matcher → List Node → Pass → Pass
unfolding annotate_node
annotate_nodes matcher [] s = s
annotate_nodes matcher (n ∷ ns) s =
    let more = annotate_nodes matcher ns (annotate_node matcher n s) in
    if is_spent s then s else more

-- `annotate(root, matcher, onBadge, budget)`, for the nodes that were collected under the root.
unfoldable pub annotate : Matcher → List Node → ℕ → Pass
unfolding annotate_nodes
annotate matcher nodes used =
    annotate_nodes matcher nodes (record { inserted = 0; used = used; tickers = [] })
