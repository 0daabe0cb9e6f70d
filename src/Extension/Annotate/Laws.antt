-- ===== src/Extension/Annotate/Laws.antt =====
-- A pass keeps its budgets, and no badge is lost to a stale offset.
use stock_dashboard.Prelude.{
  ℕ, ◌+◌, ◌≤◌, ◌<◌, max, ◌≡◌, refl, ◌∙◌, Bool, true, false, not, List, [], ◌∷◌, arith, leb,
  if◌then◌else◌, length, All,
}
use stock_dashboard.Extension.Detect.{Mention, Matcher, scan_text}
use stock_dashboard.Extension.Detect.Laws.{
  AreInOrder, IsInside, scan_text-AreInOrder, scan_text-IsInside,
}
use stock_dashboard.Extension.Annotate.{
  Node, Pass, pass_limit, page_limit, is_spent, badge, insert_hits, reverse_onto, annotate_node,
  annotate_nodes, annotate,
}

-- What a pass has inserted is what it took of the page's budget, and neither limit is passed.
pub record IsWithin (used : ℕ) (s : Pass) : Type 0 where
  pub counted : s.used ≡ used + s.inserted
  pub of_pass : s.inserted ≤ pass_limit
  pub of_page : s.used ≤ max used page_limit

room : (s : Pass) → is_spent s ≡ false → (s.inserted < pass_limit) × (s.used < page_limit)
room s e = ground arith

badge-IsWithin :
    (m : Mention) (used : ℕ) (s : Pass)
    → is_spent s ≡ false
    → IsWithin used s
    → IsWithin used (badge m s)
badge-IsWithin m used s e w = record {
  counted = omega (arith, w.counted);
  of_pass = omega (arith, (room s e).0);
  of_page = omega (arith, (room s e).1);
}

insert_hits-IsWithin :
    (ms : List Mention) (size used : ℕ) (s : Pass)
    → IsWithin used s
    → IsWithin used (insert_hits ms size s)
unfolding insert_hits
insert_hits-IsWithin [] size used s w = w
insert_hits-IsWithin (m ∷ ms) size used s w =
    go (λ n t. insert_hits-IsWithin ms n used t) (is_spent s) refl (leb m.end size)
  where
    go :
        ((n : ℕ) (t : Pass) → IsWithin used t → IsWithin used (insert_hits ms n t))
        → (b : Bool) → is_spent s ≡ b
        → (fits : Bool)
        → IsWithin used (
            if b
            then s
            else insert_hits ms (if fits then m.end else size) (if fits then badge m s else s))
    go rest true e fits = w
    go rest false e true = rest m.end (badge m s) (badge-IsWithin m used s e w)
    go rest false e false = rest size s w

annotate_node-IsWithin :
    (matcher : Matcher) (n : Node) (used : ℕ) (s : Pass)
    → IsWithin used s
    → IsWithin used (annotate_node matcher n s)
unfolding annotate_node
annotate_node-IsWithin matcher n used s w = go (not n.is_connected)
  where
    hits : List Mention
    hits = reverse_onto (scan_text n.text matcher) []

    go : (b : Bool) → IsWithin used (if b then s else insert_hits hits (length n.text) s)
    go true = w
    go false = insert_hits-IsWithin hits (length n.text) used s w

annotate_nodes-IsWithin :
    (matcher : Matcher) (ns : List Node) (used : ℕ) (s : Pass)
    → IsWithin used s
    → IsWithin used (annotate_nodes matcher ns s)
unfolding annotate_nodes
annotate_nodes-IsWithin matcher [] used s w = w
annotate_nodes-IsWithin matcher (n ∷ ns) used s w = go (is_spent s) (
    annotate_nodes-IsWithin matcher ns used (annotate_node matcher n s)
      (annotate_node-IsWithin matcher n used s w))
  where
    go :
        (b : Bool)
        → IsWithin used (annotate_nodes matcher ns (annotate_node matcher n s))
        → IsWithin used (if b then s else annotate_nodes matcher ns (annotate_node matcher n s))
    go true rest = w
    go false rest = rest

-- Offsets that go down, from one that lies in the node.
abbrev Fits : ℕ → List Mention → Type 0
Fits size [] = Unit
Fits size (m ∷ ms) = (m.end ≤ size) × Fits m.end ms

Fits-le : (a b : ℕ) (ms : List Mention) → a ≤ b → Fits a ms → Fits b ms
Fits-le a b [] le f = tt
Fits-le a b (m ∷ ms) le f = (omega (arith, f.0), f.1)

reverse_onto-Fits :
    (xs acc : List Mention) (size low : ℕ)
    → AreInOrder xs
    → All (IsInside size) xs
    → All (λ m. low ≤ m.start) xs
    → Fits low acc
    → low ≤ size
    → Fits size (reverse_onto xs acc)
reverse_onto-Fits [] acc size low o i l f le = Fits-le low size acc le f
reverse_onto-Fits (x ∷ xs) acc size low o i l f le =
    reverse_onto-Fits xs (x ∷ acc) size x.end o.1 i.1 o.0
      (omega arith, Fits-le low x.end acc (omega (arith, l.0, i.0.0)) f) i.0.1

length-reverse_onto :
    (xs acc : List Mention) → length (reverse_onto xs acc) ≡ length xs + length acc
length-reverse_onto [] acc = omega arith
length-reverse_onto (x ∷ xs) acc = omega (arith, length-reverse_onto xs (x ∷ acc))

insert_hits-all :
    (ms : List Mention) (size : ℕ) (s : Pass)
    → Fits size ms
    → s.inserted + length ms ≤ pass_limit
    → s.used + length ms ≤ page_limit
    → (insert_hits ms size s).inserted ≡ s.inserted + length ms
unfolding insert_hits
insert_hits-all [] size s f p q = omega arith
insert_hits-all (m ∷ ms) size s f p q =
    go (is_spent s) (leb m.end size) (ground arith) (ground arith)
    ∙ omega (arith, insert_hits-all ms m.end (badge m s) f.1 (omega arith) (omega arith))
  where
    go :
        (b fits : Bool)
        → b ≡ false
        → fits ≡ true
        → (if b
            then s
            else insert_hits ms
                (if fits then m.end else size)
                (if fits then badge m s else s)).inserted
          ≡ (insert_hits ms m.end (badge m s)).inserted
    go b fits e h = rw (e, h) refl

-- Whatever is on the page, a pass inserts at most 250 badges, each taken from the page's budget of
-- 800, which it does not pass.
pub annotate-IsWithin :
    (matcher : Matcher) (nodes : List Node) (used : ℕ) → IsWithin used (annotate matcher nodes used)
unfolding annotate
annotate-IsWithin matcher nodes used =
    annotate_nodes-IsWithin matcher nodes used (record { inserted = 0; used = used; tickers = [] })
      (record { counted = omega arith; of_pass = omega arith; of_page = omega arith })

-- Inserting from the last mention to the first keeps every offset valid: while the budgets last, a
-- node that is in the page gets a badge for each of its mentions.
pub annotate_node-all :
    (matcher : Matcher) (n : Node) (s : Pass)
    → n.is_connected ≡ true
    → s.inserted + length (scan_text n.text matcher) ≤ pass_limit
    → s.used + length (scan_text n.text matcher) ≤ page_limit
    → (annotate_node matcher n s).inserted ≡ s.inserted + length (scan_text n.text matcher)
unfolding annotate_node
annotate_node-all matcher n s h p q = rw h (
    insert_hits-all (reverse_onto hits []) (length n.text) s
      (reverse_onto-Fits hits [] (length n.text) 0 (scan_text-AreInOrder n.text matcher)
        (scan_text-IsInside n.text matcher) (from_zero hits) tt (omega arith))
      (omega (arith, length-reverse_onto hits [])) (omega (arith, length-reverse_onto hits []))
    ∙ omega (arith, length-reverse_onto hits []))
  where
    hits : List Mention
    hits = scan_text n.text matcher

    from_zero : (ms : List Mention) → All (λ m. 0 ≤ m.start) ms
    from_zero [] = tt
    from_zero (m ∷ ms) = (omega arith, from_zero ms)
