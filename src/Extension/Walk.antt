-- ===== src/Extension/Walk.antt =====
-- extension/src/content/walk.js: the text nodes of a page that may be annotated. An element is its
-- tag and the marks that the walk reads; a text node comes with its ancestors, the nearest first,
-- and the text nodes under a root come as the browser's TreeWalker visits them.
pub mod Laws
pub mod Annotated
mod Tests
use stock_dashboard.Prelude.{
  ℕ, zero, suc, String, Bool, true, false, not, ◌&&◌, ◌||◌, Option, none, some, List, [], ◌∷◌, ◌++◌,
  map, ltb, ◌==◌, if◌then◌else◌, length, contains,
}
use stock_dashboard.Extension.Detect.{
  is_upper, is_letter, is_word, starts_word, run_of, group_of, suffix_of, backtrack, Capture,
  capture, captured, cashtag_at, bare_at, exec_all, Mention, Matcher, knows, stopwords, is_stopword,
  upper, dotted, overlaps, push, push_cashtags, push_bare, add_bare, insert, sort, two_uppers,
  may_contain_ticker, scan_text,
}
use stock_dashboard.Extension.Annotate.{
  pass_limit, page_limit, Node, Pass, is_spent, add_ticker, badge, insert_hits, reverse_onto,
  annotate_node, annotate_nodes, annotate,
}

abbrev pub max_ancestor_hops : ℕ
max_ancestor_hops = 12

abbrev pub skip_tags : List String
skip_tags =
    "SCRIPT" ∷ "STYLE" ∷ "NOSCRIPT" ∷ "TEXTAREA" ∷ "INPUT" ∷ "SELECT" ∷ "OPTION" ∷ "CODE" ∷ "PRE"
    ∷ "KBD" ∷ "SAMP" ∷ "SVG" ∷ "CANVAS" ∷ "TITLE" ∷ "HEAD" ∷ "SD-BADGE" ∷ []

-- `id` tells the elements of a page apart; the flags are the attributes `data-sd-skip` and
-- `data-sd-done`, and whether `aria-hidden` is "true".
pub record Element : Type 0 where
  pub id : ℕ
  pub tag_name : String
  pub is_content_editable : Bool
  pub has_skip : Bool
  pub has_done : Bool
  pub aria_hidden : Bool

pub record TextNode : Type 0 where
  pub value : Node
  pub ancestors : List Element

unfoldable pub is_excluded : Element → Bool
is_excluded el =
    contains el.tag_name skip_tags
    || el.is_content_editable
    || (el.has_skip || el.has_done)
    || el.aria_hidden

-- The loop with `hops` rounds left.
unfoldable pub skip_loop : ℕ → List Element → ℕ → Bool
unfolding is_excluded
skip_loop zero els root = false
skip_loop (suc hops) [] root = false
skip_loop (suc hops) (el ∷ els) root =
    let rest = skip_loop hops els root in
    if is_excluded el then true else (if el.id == root then false else rest)

unfoldable pub is_skippable : TextNode → ℕ → Bool
unfolding skip_loop
is_skippable node root = skip_loop max_ancestor_hops node.ancestors root

unfoldable pub accept_node : ℕ → TextNode → Bool
unfolding is_skippable
accept_node root node = may_contain_ticker node.value.text && not (is_skippable node root)

-- The nodes that the walker returns, while fewer than `limit` have been taken.
unfoldable pub walk_loop : ℕ → ℕ → List TextNode → List TextNode → List TextNode
unfolding accept_node
walk_loop root limit [] out = out
walk_loop root limit (n ∷ ns) out =
    let rest = walk_loop root limit ns out in
    let more = walk_loop root limit ns (out ++ n ∷ []) in
    if accept_node root n then (if ltb (length out) limit then more else out) else rest

-- A root that is no node of a document is `none`.
unfoldable pub collect_text_nodes : Option ℕ → List TextNode → ℕ → List TextNode
unfolding walk_loop
collect_text_nodes none nodes limit = []
collect_text_nodes (some root) nodes limit = walk_loop root limit nodes []

abbrev pub default_limit : ℕ
default_limit = 2000

-- `annotate(root, matcher, onBadge, budget)` with the walk that it begins with.
unfoldable pub annotate_root : Matcher → Option ℕ → List TextNode → ℕ → Pass
unfolding collect_text_nodes
annotate_root matcher root nodes used =
    annotate matcher (map (λ n. n.value) (collect_text_nodes root nodes default_limit)) used
