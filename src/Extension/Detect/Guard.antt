-- ===== src/Extension/Detect/Guard.antt =====
-- The quick test before a scan against the patterns themselves.
use stock_dashboard.Prelude.{
  ℕ, zero, suc, ◌+◌, ◌≤◌, ◌≡◌, refl, sym, ap, ◌∙◌, inl, inr, Bool, true, false, Option, none, some,
  List, [], ◌∷◌, arith, ◌==◌, if◌then◌else◌, Bool-cases, any,
}
use stock_dashboard.Extension.Detect.{
  Matcher, Mention, Capture, is_upper, run_of, backtrack, captured, cashtag_at, bare_at, exec_all,
  push_cashtags, add_bare, push_bare, sort, two_uppers, may_contain_ticker, scan_text, is_letter,
}

-- Both passes, with no test before them.
abbrev pub scan_all : List ℕ → Matcher → List Mention
scan_all text matcher =
    sort (add_bare matcher text (push_cashtags (exec_all cashtag_at none 0 0 text) []))

no_cashtag :
    (previous : Option ℕ) (c : ℕ) (s : List ℕ)
    → (c == b'$') ≡ false
    → cashtag_at previous (c ∷ s) ≡ none
unfolding cashtag_at
no_cashtag previous c s h =
    ap (λ b. if b then captured s 1 (backtrack is_letter 1 (run_of is_letter 5 s) s) else none) h

exec_all-cashtag :
    (previous : Option ℕ) (i : ℕ) (s : List ℕ)
    → any (λ c. c == b'$') s ≡ false
    → exec_all cashtag_at previous 0 i s ≡ []
unfolding exec_all
exec_all-cashtag previous i [] h = refl
exec_all-cashtag previous i (c ∷ s) h =
    rw (exec_all, no_cashtag previous c s (ground (arith, h)))
      (exec_all-cashtag (some c) (i + 1) s (ground (arith, h)))

-- Fewer than two letters in upper case stand at the beginning.
run_of-le : (c : ℕ) (s : List ℕ) → two_uppers (c ∷ s) ≡ false → run_of is_upper 5 (c ∷ s) ≤ 1
run_of-le c [] h = ground arith
run_of-le c (d ∷ s) h = ground (arith, h)

backtrack_short : (k : ℕ) (s : List ℕ) → k ≤ 1 → backtrack is_upper 2 k s ≡ none
backtrack_short zero s h = refl
backtrack_short (suc zero) s h = refl
backtrack_short (suc (suc k)) s h = absurd (omega arith)

if_none : (b : Bool) (o : Option Capture) → o ≡ none → (if b then o else none) ≡ none
if_none true o h = h
if_none false o h = refl

no_bare :
    (previous : Option ℕ) (c : ℕ) (s : List ℕ)
    → two_uppers (c ∷ s) ≡ false
    → bare_at previous (c ∷ s) ≡ none
unfolding bare_at
no_bare previous c s h = if_none _ _ (
    ap (captured (c ∷ s) 0) (backtrack_short (run_of is_upper 5 (c ∷ s)) (c ∷ s) (run_of-le c s h)))

two_uppers-tail : (c : ℕ) (s : List ℕ) → two_uppers (c ∷ s) ≡ false → two_uppers s ≡ false
two_uppers-tail c [] h = refl
two_uppers-tail c (d ∷ s) h = ground (arith, h)

exec_all-bare :
    (previous : Option ℕ) (i : ℕ) (s : List ℕ)
    → two_uppers s ≡ false
    → exec_all bare_at previous 0 i s ≡ []
unfolding exec_all
exec_all-bare previous i [] h = refl
exec_all-bare previous i (c ∷ s) h =
    rw (exec_all, no_bare previous c s h) (exec_all-bare (some c) (i + 1) s (two_uppers-tail c s h))

add_bare-plain :
    (matcher : Matcher) (text : List ℕ) (out : List Mention)
    → two_uppers text ≡ false
    → add_bare matcher text out ≡ out
add_bare-plain none text out h = refl
add_bare-plain (some known) text out h =
    ap (λ found. push_bare (some known) found out) (exec_all-bare none 0 text h)

scan_all-plain :
    (text : List ℕ) (matcher : Matcher)
    → exec_all cashtag_at none 0 0 text ≡ []
    → two_uppers text ≡ false
    → scan_all text matcher ≡ []
scan_all-plain text matcher c u =
    ap (λ found. sort (add_bare matcher text (push_cashtags found []))) c
    ∙ ap sort (add_bare-plain matcher text [] u)

one_character : (c : ℕ) → exec_all cashtag_at none 0 0 (c ∷ []) ≡ []
unfolding exec_all cashtag_at
one_character c = ground arith

-- What the quick test turns away has no mention.
pub may_contain-scan_all :
    (text : List ℕ) (matcher : Matcher)
    → may_contain_ticker text ≡ false
    → scan_all text matcher ≡ []
unfolding may_contain_ticker exec_all
may_contain-scan_all [] matcher h = scan_all-plain [] matcher refl refl
may_contain-scan_all (c ∷ []) matcher h = scan_all-plain (c ∷ []) matcher (one_character c) refl
may_contain-scan_all (c ∷ d ∷ s) matcher h =
    scan_all-plain (c ∷ d ∷ s) matcher (exec_all-cashtag none 0 (c ∷ d ∷ s) (ground (arith, h)))
      (ground (arith, h))

-- The quick test before the scan, of the length, a dollar sign and two letters in upper case together,
-- loses no mention: a scan gives the mentions that both passes give without the test.
pub scan_text-eq-scan_all :
    (text : List ℕ) (matcher : Matcher) → scan_text text matcher ≡ scan_all text matcher
unfolding scan_text
scan_text-eq-scan_all text matcher = elim (Bool-cases (may_contain_ticker text)) [
  | inl may ↦ rw may refl
  | inr plain ↦ rw plain (sym (may_contain-scan_all text matcher plain))
]
