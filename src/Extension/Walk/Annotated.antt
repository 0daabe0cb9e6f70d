-- ===== src/Extension/Walk/Annotated.antt =====
-- What the walk and the annotation promise together: the walk leaves out no mention.
use stock_dashboard.Prelude.{
  ℕ, zero, suc, ◌≤◌, ◌≡◌, refl, sym, ap, ◌∙◌, inl, inr, Bool, true, false, not, ◌&&◌, some, List,
  [], ◌∷◌, map, arith, if◌then◌else◌, Bool-cases, length, take, filter, All,
}
use stock_dashboard.Extension.Detect.{Matcher, may_contain_ticker, scan_text}
use stock_dashboard.Extension.Detect.Guard.{scan_all, may_contain-scan_all}
use stock_dashboard.Extension.Annotate.{
  Node, Pass, is_spent, insert_hits, annotate_node, annotate_nodes, annotate,
}
use stock_dashboard.Extension.Walk.{
  TextNode, is_skippable, accept_node, collect_text_nodes, default_limit, annotate_root,
}
use stock_dashboard.Extension.Walk.Laws.{collect_text_nodes_lem}

pub kept : ℕ → List TextNode → List TextNode
kept root nodes = filter (λ n. not (is_skippable n root)) nodes

take_all : {A : Type 0} (k : ℕ) (xs : List A) → length xs ≤ k → take k xs ≡ xs
take_all zero [] h = refl
take_all zero (x ∷ xs) h = absurd (omega arith)
take_all (suc k) [] h = refl
take_all (suc k) (x ∷ xs) h = ap (λ ys. x ∷ ys) (take_all k xs (omega arith))

annotate_spent :
    (matcher : Matcher) (ns : List Node) (s : Pass)
    → is_spent s ≡ true
    → annotate_nodes matcher ns s ≡ s
unfolding annotate_nodes
annotate_spent matcher [] s h = refl
annotate_spent matcher (n ∷ ns) s h = rw h refl

-- A node whose text cannot name a ticker is passed over.
annotate_node_plain :
    (matcher : Matcher) (n : Node) (s : Pass)
    → may_contain_ticker n.text ≡ false
    → annotate_node matcher n s ≡ s
unfolding annotate_node scan_text insert_hits
annotate_node_plain matcher n s h = elim (Bool-cases n.is_connected) [
  | inl there ↦ rw (there, h) refl
  | inr gone ↦ rw gone refl
]

annotate_again :
    (matcher : Matcher) (ns : List Node) (s : Pass)
    → (if is_spent s then s else annotate_nodes matcher ns s) ≡ annotate_nodes matcher ns s
annotate_again matcher ns s = elim (Bool-cases (is_spent s)) [
  | inl spent ↦ rw (spent, annotate_spent matcher ns s spent) refl
  | inr left ↦ rw left refl
]

annotate_accepted :
    (matcher : Matcher) (root : ℕ) (ns : List TextNode) (s : Pass)
    → annotate_nodes matcher (map (λ n. n.value) (filter (accept_node root) ns)) s
      ≡ annotate_nodes matcher (map (λ n. n.value) (kept root ns)) s
unfolding annotate_nodes accept_node kept
annotate_accepted matcher root [] s = refl
annotate_accepted matcher root (n ∷ ns) s = elim (Bool-cases (is_skippable n root)) [
  | inl out ↦ elim (Bool-cases (may_contain_ticker n.value.text)) [
    | inl may ↦ rw (may, out) (annotate_accepted matcher root ns s)
    | inr plain ↦ rw (plain, out) (annotate_accepted matcher root ns s)
  ]
  | inr inside ↦ elim (Bool-cases (may_contain_ticker n.value.text)) [
    | inl may ↦
        rw (may, inside)
          (ap (λ p. if is_spent s then s else p)
            (annotate_accepted matcher root ns (annotate_node matcher n.value s)))
    | inr plain ↦
        rw (plain, inside, annotate_node_plain matcher n.value s plain)
          (annotate_accepted matcher root ns s
            ∙ sym (annotate_again matcher (map (λ m. m.value) (kept root ns)) s))
  ]
]

-- What the walk leaves out although it is not skipped.
pub left_out : ℕ → List TextNode → List TextNode
left_out root nodes = filter (λ n. not (is_skippable n root) && not (accept_node root n)) nodes

rejected_plain :
    (root : ℕ) (n : TextNode)
    → (not (is_skippable n root) && not (accept_node root n)) ≡ true
    → may_contain_ticker n.value.text ≡ false
unfolding accept_node
rejected_plain root n h = ground (arith, h)

left_out-plain :
    (matcher : Matcher) (root : ℕ) (ns : List TextNode)
    → All (λ n. scan_all n.value.text matcher ≡ []) (left_out root ns)
unfolding left_out
left_out-plain matcher root [] = tt
left_out-plain matcher root (n ∷ ns) =
    go (not (is_skippable n root) && not (accept_node root n)) refl (left_out-plain matcher root ns)
  where
    go :
        (b : Bool)
        → (not (is_skippable n root) && not (accept_node root n)) ≡ b
        → All (λ m. scan_all m.value.text matcher ≡ []) (left_out root ns)
        → All
            (λ m. scan_all m.value.text matcher ≡ [])
            (if b then n ∷ left_out root ns else left_out root ns)
    go true e rest = (may_contain-scan_all n.value.text matcher (rejected_plain root n e), rest)
    go false e rest = rest

-- Where the walk does not reach its limit, annotating the nodes that it collects is annotating every
-- text node of the root that is not skipped; and in those that it leaves out both passes of a scan,
-- without the quick test before them, find no mention.
pub annotate_root_lem :
    (matcher : Matcher) (root : ℕ) (nodes : List TextNode) (used : ℕ)
    → length (filter (accept_node root) nodes) ≤ default_limit
    → (annotate_root matcher (some root) nodes used
        ≡ annotate matcher (map (λ n. n.value) (kept root nodes)) used)
      × All (λ n. scan_all n.value.text matcher ≡ []) (left_out root nodes)
unfolding annotate_root annotate
annotate_root_lem matcher root nodes used h =
    let start : Pass = record { inserted = 0; used = used; tickers = [] } in
    let all : collect_text_nodes (some root) nodes default_limit ≡ filter (accept_node root) nodes =
      collect_text_nodes_lem root nodes default_limit
      ∙ take_all default_limit (filter (accept_node root) nodes) h in
    (
      ap (λ ns. annotate_nodes matcher (map (λ n. n.value) ns) start) all
          ∙ annotate_accepted matcher root nodes start,
      left_out-plain matcher root nodes,
    )
