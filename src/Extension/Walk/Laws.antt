-- ===== src/Extension/Walk/Laws.antt =====
-- What walk.js promises: which text nodes are collected.
use mathlib.Core.List.{append-nil, append_assoc}
use stock_dashboard.Prelude.{
  ℕ, zero, suc, ◌-◌, ◌≡◌, refl, sym, ap, ◌∙◌, inl, inr, Bool, true, false, some, List, [], ◌∷◌,
  ◌++◌, arith, ltb, ◌==◌, if◌then◌else◌, Bool-cases, length, take, filter, any, length-append,
}
use stock_dashboard.Extension.Walk.{
  max_ancestor_hops, Element, TextNode, is_excluded, skip_loop, is_skippable, accept_node,
  walk_loop, collect_text_nodes,
}

-- The ancestors up to the root, which is the last of them.
unfoldable pub up_to : ℕ → List Element → List Element
up_to root [] = []
up_to root (el ∷ els) = if el.id == root then el ∷ [] else el ∷ up_to root els

any-take-nil : (p : Element → Bool) (hops : ℕ) → any p (take hops []) ≡ false
any-take-nil p zero = refl
any-take-nil p (suc hops) = refl

-- One round, for any test of the element.
skip_round :
    (p : Element → Bool) (el : Element) (stop : Bool) (hops : ℕ) (els : List Element) {rest : Bool}
    → rest ≡ any p (take hops els)
    → (if p el then true else (if stop then false else rest))
      ≡ any p (take (suc hops) (if stop then el ∷ [] else el ∷ els))
skip_round p el true hops els h = ground (arith, any-take-nil p hops)
skip_round p el false hops els h = ground (arith, h)

skip_loop_lem :
    (hops : ℕ) (els : List Element) (root : ℕ)
    → skip_loop hops els root ≡ any is_excluded (take hops (up_to root els))
unfolding skip_loop up_to
skip_loop_lem zero els root = refl
skip_loop_lem (suc hops) [] root = refl
skip_loop_lem (suc hops) (el ∷ els) root =
    skip_round is_excluded el (el.id == root) hops (up_to root els) (skip_loop_lem hops els root)

-- Whether a text node is skipped: one of its nearest twelve ancestors, within the root, is excluded.
pub is_skippable_lem :
    (node : TextNode) (root : ℕ)
    → is_skippable node root ≡ any is_excluded (take max_ancestor_hops (up_to root node.ancestors))
unfolding is_skippable
is_skippable_lem node root = skip_loop_lem max_ancestor_hops node.ancestors root

take-nil : {A : Type 0} (k : ℕ) → take {A = A} k [] ≡ []
take-nil zero = refl
take-nil (suc k) = refl

-- One round of the walk.
walk_round :
    (accepted : Bool) (n : TextNode) (out : List TextNode) (limit : ℕ) (ns : List TextNode)
    {rest more : List TextNode}
    → rest ≡ out ++ take (limit - length out) ns
    → more ≡ out ++ n ∷ [] ++ take (limit - length (out ++ n ∷ [])) ns
    → (if accepted then (if ltb (length out) limit then more else out) else rest)
      ≡ out ++ take (limit - length out) (if accepted then n ∷ ns else ns)
walk_round false n out limit ns hr hm = hr
walk_round true n out limit ns hr hm = elim (Bool-cases (ltb (length out) limit)) [
  | inl room ↦
      let size = length-append out (n ∷ []) in
      let k : limit - length out ≡ suc (limit - length (out ++ n ∷ [])) = ground arith in
      rw (room, k) (hm ∙ append_assoc out (n ∷ []) (take (limit - length (out ++ n ∷ [])) ns))
  | inr full ↦
      let none_left : limit - length out ≡ 0 = ground arith in
      rw (full, none_left) (sym (append-nil out))
]

walk_loop_lem :
    (root limit : ℕ) (ns out : List TextNode)
    → walk_loop root limit ns out ≡ out ++ take (limit - length out) (filter (accept_node root) ns)
unfolding walk_loop
walk_loop_lem root limit [] out =
    sym (append-nil out) ∙ ap (λ ys. out ++ ys) (sym (take-nil (limit - length out)))
walk_loop_lem root limit (n ∷ ns) out =
    walk_round (accept_node root n) n out limit (filter (accept_node root) ns)
      (walk_loop_lem root limit ns out) (walk_loop_lem root limit ns (out ++ n ∷ []))

-- The nodes collected are the first `limit` that are accepted, in the order of the page.
pub collect_text_nodes_lem :
    (root : ℕ) (nodes : List TextNode) (limit : ℕ)
    → collect_text_nodes (some root) nodes limit ≡ take limit (filter (accept_node root) nodes)
unfolding collect_text_nodes
collect_text_nodes_lem root nodes limit =
    let same : limit - 0 ≡ limit = omega arith in
    walk_loop_lem root limit nodes [] ∙ ap (λ k. take k (filter (accept_node root) nodes)) same
