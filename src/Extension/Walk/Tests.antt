-- ===== src/Extension/Walk/Tests.antt =====
-- Runs of extension/src/content/walk.js, and witnesses.
use stock_dashboard.Prelude.{
  ℕ, zero, suc, ◌+◌, ◌≤◌, String, ◌≡◌, refl, true, false, none, some, List, [], ◌∷◌, map, arith,
  length, filter, All,
}
use stock_dashboard.Extension.Detect.{may_contain_ticker}
use stock_dashboard.Extension.Detect.Guard.{scan_all}
use stock_dashboard.Extension.Annotate.{annotate}
use stock_dashboard.Extension.Walk.{
  Element, TextNode, is_skippable, accept_node, collect_text_nodes, default_limit, annotate_root,
}
use stock_dashboard.Extension.Walk.Annotated.{kept, left_out, annotate_root_lem}

abbrev element : ℕ → String → Element
element id tag = record {
  id = id;
  tag_name = tag;
  is_content_editable = false;
  has_skip = false;
  has_done = false;
  aria_hidden = false;
}

-- "$TSLA" under the given ancestors.
abbrev mention : List Element → TextNode
mention ancestors = record {
  value = record { text = b'$' ∷ b'T' ∷ b'S' ∷ b'L' ∷ b'A' ∷ []; is_connected = true };
  ancestors = ancestors;
}

abbrev body : Element
body = element 0 "BODY"

-- A paragraph, a code sample, and an inline drawing, whose tag the browser spells "svg".
abbrev page : List TextNode
page =
    mention (element 1 "P" ∷ body ∷ [])
    ∷ mention (element 2 "SPAN" ∷ element 3 "PRE" ∷ body ∷ [])
    ∷ mention (element 4 "text" ∷ element 5 "svg" ∷ body ∷ [])
    ∷ []

page_collected : length (collect_text_nodes (some 0) page default_limit) ≡ 2
unfolding collect_text_nodes may_contain_ticker
page_collected = refl

-- The text of an inline drawing is collected: "SVG" stands in the tags, but "svg" is its tag.
svg_is_collected : is_skippable (mention (element 4 "text" ∷ element 5 "svg" ∷ body ∷ [])) 0 ≡ false
unfolding is_skippable
svg_is_collected = refl

abbrev spans : ℕ → List Element → List Element
spans zero els = els
spans (suc n) els = element (n + 10) "SPAN" ∷ spans n els

-- A code sample twelve elements further up is not seen.
deep_pre_is_collected : is_skippable (mention (spans 12 (element 3 "PRE" ∷ body ∷ []))) 0 ≡ false
unfolding is_skippable
deep_pre_is_collected = refl

page_fits : length (filter (accept_node 0) page) ≤ default_limit
unfolding accept_node may_contain_ticker
page_fits = omega arith

annotate_root_lem_example :
    (annotate_root none (some 0) page 0 ≡ annotate none (map (λ n. n.value) (kept 0 page)) 0)
    × All (λ n. scan_all n.value.text none ≡ []) (left_out 0 page)
annotate_root_lem_example = annotate_root_lem none 0 page 0 page_fits
