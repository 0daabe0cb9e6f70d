-- ===== src/Extension/Detect/Laws.antt =====
-- The mentions found are apart, in order and trusted.
use stock_dashboard.Prelude.{
  ℕ, ◌+◌, ◌≤◌, ◌<◌, ◌≡◌, refl, ◌⊎◌, inl, inr, Bool, true, false, not, ◌||◌, none, some, List, [],
  ◌∷◌, ◌++◌, arith, leb, if◌then◌else◌, length, any, All,
}
use stock_dashboard.Extension.Detect.{
  Capture, Mention, Matcher, knows, is_stopword, dotted, overlaps, push, push_cashtags, push_bare,
  add_bare, insert, sort, scan_text, exec_all, bare_at, cashtag_at, may_contain_ticker,
}
use stock_dashboard.Extension.Detect.Captures.{IsCapture, captures, cashtag-Takes, bare-Takes}

-- Two mentions share no character.
abbrev AreApart : Mention → Mention → Type 0
AreApart m n = (m.end ≤ n.start) ⊎ (n.end ≤ m.start)

abbrev ArePairwiseApart : List Mention → Type 0
ArePairwiseApart [] = Unit
ArePairwiseApart (m ∷ ms) = All (AreApart m) ms × ArePairwiseApart ms

-- Each ends before the next begins.
abbrev pub AreInOrder : List Mention → Type 0
AreInOrder [] = Unit
AreInOrder (m ∷ ms) = All (λ n. m.end ≤ n.start) ms × AreInOrder ms

abbrev AreSorted : List Mention → Type 0
AreSorted [] = Unit
AreSorted (m ∷ ms) = All (λ n. m.start ≤ n.start) ms × AreSorted ms

-- It takes at least a character.
abbrev pub IsLong : Mention → Type 0
IsLong m = m.start < m.end

-- A cashtag, or a bare word that the matcher knows.
abbrev pub IsTrusted : Matcher → Mention → Type 0
IsTrusted matcher m = (m.cashtag ≡ true) ⊎ (knows matcher m.ticker ≡ true)

module _ (P : Mention → Type 0) where
  All-if : (b : Bool) (ms ns : List Mention) → All P ms → All P ns → All P (if b then ms else ns)
  All-if true ms ns h k = h
  All-if false ms ns h k = k

  All-append : (m : Mention) (ms : List Mention) → All P ms → P m → All P (ms ++ m ∷ [])
  All-append m [] h p = (p, tt)
  All-append m (n ∷ ns) h p = (h.0, All-append m ns h.1 p)

  All-insert : (m : Mention) (ms : List Mention) → All P ms → P m → All P (insert m ms)
  All-insert m [] h p = (p, tt)
  All-insert m (n ∷ ns) h p =
      All-if (leb m.start n.start) (m ∷ n ∷ ns) (n ∷ insert m ns) (p, h)
        (h.0, All-insert m ns h.1 p)

  All-push : (m : Mention) (out : List Mention) → All P out → P m → All P (push m out)
  All-push m out h p = All-if (any (overlaps m) out) out (out ++ m ∷ []) h (All-append m out h p)

  All-sort : (ms : List Mention) → All P ms → All P (sort ms)
  All-sort [] h = tt
  All-sort (m ∷ ms) h = All-insert m (sort ms) (All-sort ms h.1) h.0

-- A mention that overlaps none of a list is apart from each.
apart_from_All :
    (m : Mention) (out : List Mention) → any (overlaps m) out ≡ false → All (λ n. AreApart n m) out
apart_from_All m [] h = tt
apart_from_All m (n ∷ ns) h = ground (arith, apart_from_All m ns)

append_apart :
    (m : Mention) (out : List Mention)
    → ArePairwiseApart out
    → All (λ n. AreApart n m) out
    → ArePairwiseApart (out ++ m ∷ [])
append_apart m [] h k = (tt, tt)
append_apart m (n ∷ ns) h k = (All-append (AreApart n) m ns h.0 k.0, append_apart m ns h.1 k.1)

push_apart :
    (m : Mention) (out : List Mention) → ArePairwiseApart out → ArePairwiseApart (push m out)
push_apart m out h = go (any (overlaps m) out) refl
  where
    go : (b : Bool) → any (overlaps m) out ≡ b → ArePairwiseApart (if b then out else out ++ m ∷ [])
    go true e = h
    go false e = append_apart m out h (apart_from_All m out e)

All-later :
    (i j : ℕ) (ms : List Mention) → i ≤ j → All (λ m. j ≤ m.start) ms → All (λ m. i ≤ m.start) ms
All-later i j [] le h = tt
All-later i j (m ∷ ms) le h = (omega (arith, h.0), All-later i j ms le h.1)

insert_sorted : (m : Mention) (ms : List Mention) → AreSorted ms → AreSorted (insert m ms)
insert_sorted m [] h = (tt, tt)
insert_sorted m (n ∷ ns) h = go (leb m.start n.start) refl (insert_sorted m ns h.1)
  where
    go :
        (b : Bool)
        → leb m.start n.start ≡ b
        → AreSorted (insert m ns)
        → AreSorted (if b then m ∷ n ∷ ns else n ∷ insert m ns)
    go true e tail = ((ground arith, All-later m.start n.start ns (ground arith) h.0), h)
    go false e tail = (All-insert (λ x. n.start ≤ x.start) m ns h.0 (ground arith), tail)

insert_apart :
    (m : Mention) (ms : List Mention)
    → ArePairwiseApart ms
    → All (AreApart m) ms
    → ArePairwiseApart (insert m ms)
insert_apart m [] h k = (tt, tt)
insert_apart m (n ∷ ns) h k = go (leb m.start n.start) (insert_apart m ns h.1 k.1)
  where
    swap : AreApart m n → AreApart n m
    swap (inl le) = inr le
    swap (inr le) = inl le

    go :
        (b : Bool)
        → ArePairwiseApart (insert m ns)
        → ArePairwiseApart (if b then m ∷ n ∷ ns else n ∷ insert m ns)
    go true tail = (k, h)
    go false tail = (All-insert (AreApart n) m ns h.0 (swap k.0), tail)

sort_sorted : (ms : List Mention) → AreSorted (sort ms)
sort_sorted [] = tt
sort_sorted (m ∷ ms) = insert_sorted m (sort ms) (sort_sorted ms)

sort_apart : (ms : List Mention) → ArePairwiseApart ms → ArePairwiseApart (sort ms)
sort_apart [] h = tt
sort_apart (m ∷ ms) h = insert_apart m (sort ms) (sort_apart ms h.1) (All-sort (AreApart m) ms h.0)

after :
    (m : Mention) (ms : List Mention)
    → All (λ n. m.start ≤ n.start) ms
    → All (AreApart m) ms
    → All IsLong ms
    → All (λ n. m.end ≤ n.start) ms
after m [] later apart long = tt
after m (n ∷ ns) later apart long =
    (ground (arith, later.0, long.0, apart.0), after m ns later.1 apart.1 long.1)

in_order : (ms : List Mention) → AreSorted ms → ArePairwiseApart ms → All IsLong ms → AreInOrder ms
in_order [] sorted apart long = tt
in_order (m ∷ ms) sorted apart long =
    (after m ms sorted.0 apart.0 long.1, in_order ms sorted.1 apart.1 long.1)

-- A property of the list under construction, kept by the pushes that the loops make.
module _ (matcher : Matcher) (total : ℕ) (Q : List Mention → Type 0)
    (keeps : (m : Mention) (out : List Mention)
      → (IsLong m) × (m.end ≤ total)
      → IsTrusted matcher m
      → Q out
      → Q (push m out)) where
  push_cashtags_keeps :
      (found : List (ℕ × Capture)) (out : List Mention)
      → All (IsCapture total) found
      → Q out
      → Q (push_cashtags found out)
  push_cashtags_keeps [] out h q = q
  push_cashtags_keeps ((i, found) ∷ more) out h q =
      push_cashtags_keeps more _ h.1
        (keeps _ out (omega (arith, h.0), omega (arith, h.0.1)) (inl refl) q)

  push_bare_keeps :
      (found : List (ℕ × Capture)) (out : List Mention)
      → All (IsCapture total) found
      → Q out
      → Q (push_bare matcher found out)
  push_bare_keeps [] out h q = q
  push_bare_keeps ((i, found) ∷ more) out h q =
      push_bare_keeps more _ h.1 (go (is_stopword found.root) (knows matcher (dotted found)) refl)
    where
      m : Mention
      m = record { ticker = dotted found; start = i; end = i + found.size; cashtag = false }

      go :
          (stop known : Bool)
          → knows matcher (dotted found) ≡ known
          → Q (if stop || not known then out else push m out)
      go true known e = q
      go false false e = q
      go false true e = keeps m out (omega (arith, h.0), omega (arith, h.0.1)) (inr e) q

-- All that is kept by the pushes holds of the mentions before they are sorted.
all_mentions :
    (matcher : Matcher) (text : List ℕ) (Q : List Mention → Type 0)
    → ((m : Mention) (out : List Mention)
        → IsLong m × (m.end ≤ length text)
        → IsTrusted matcher m
        → Q out
        → Q (push m out))
    → Q []
    → Q (add_bare matcher text (push_cashtags (exec_all cashtag_at none 0 0 text) []))
unfolding exec_all cashtag_at bare_at is_stopword
all_mentions none text Q keeps q =
    push_cashtags_keeps none (length text) Q keeps (exec_all cashtag_at none 0 0 text) []
      (captures cashtag_at cashtag-Takes none 0 0 text (length text) (omega arith)) q
all_mentions (some known) text Q keeps q =
    push_bare_keeps (some known) (length text) Q keeps (exec_all bare_at none 0 0 text) _
      (captures bare_at bare-Takes none 0 0 text (length text) (omega arith))
      (push_cashtags_keeps (some known) (length text) Q keeps (exec_all cashtag_at none 0 0 text) []
        (captures cashtag_at cashtag-Takes none 0 0 text (length text) (omega arith)) q)

-- The mentions that are found in a text come in the order of the text, and each ends before the
-- next begins.
pub scan_text-AreInOrder : (text : List ℕ) (matcher : Matcher) → AreInOrder (scan_text text matcher)
unfolding scan_text
scan_text-AreInOrder text matcher = go (not (may_contain_ticker text))
  where
    found : List Mention
    found = add_bare matcher text (push_cashtags (exec_all cashtag_at none 0 0 text) [])

    go : (b : Bool) → AreInOrder (if b then [] else sort found)
    go true = tt
    go false =
        in_order (sort found) (sort_sorted found)
          (sort_apart found (
            all_mentions matcher text ArePairwiseApart (λ m out room known q. push_apart m out q)
              tt))
          (All-sort IsLong found (
            all_mentions matcher text (All IsLong)
              (λ m out room known q. All-push IsLong m out q room.0) tt))

-- Every mention that is found is a cashtag or a symbol that the matcher knows, so that without the
-- symbols only cashtags are found.
pub scan_text-IsTrusted :
    (text : List ℕ) (matcher : Matcher) → All (IsTrusted matcher) (scan_text text matcher)
unfolding scan_text
scan_text-IsTrusted text matcher = go (not (may_contain_ticker text))
  where
    found : List Mention
    found = add_bare matcher text (push_cashtags (exec_all cashtag_at none 0 0 text) [])

    go : (b : Bool) → All (IsTrusted matcher) (if b then [] else sort found)
    go true = tt
    go false = All-sort (IsTrusted matcher) found (
        all_mentions matcher text (All (IsTrusted matcher))
          (λ m out long known q. All-push (IsTrusted matcher) m out q known) tt)

abbrev pub IsInside : ℕ → Mention → Type 0
IsInside total m = IsLong m × (m.end ≤ total)

-- Every mention takes at least a character, and ends in the text.
pub scan_text-IsInside :
    (text : List ℕ) (matcher : Matcher) → All (IsInside (length text)) (scan_text text matcher)
unfolding scan_text
scan_text-IsInside text matcher = go (not (may_contain_ticker text))
  where
    found : List Mention
    found = add_bare matcher text (push_cashtags (exec_all cashtag_at none 0 0 text) [])

    go : (b : Bool) → All (IsInside (length text)) (if b then [] else sort found)
    go true = tt
    go false = All-sort (IsInside (length text)) found (
        all_mentions matcher text (All (IsInside (length text)))
          (λ m out room known q. All-push (IsInside (length text)) m out q room) tt)
