-- ===== src/Extension/Detect.antt =====
-- extension/src/content/detect.js: the tickers that a text mentions. A text is the list of its
-- character codes; a symbol is in upper case.
pub mod Captures
pub mod Guard
pub mod Laws
use stock_dashboard.Prelude.{
  ℕ, zero, suc, ◌+◌, ◌-◌, String, Bool, true, false, not, ◌&&◌, ◌||◌, Option, none, some, List, [],
  ◌∷◌, ◌++◌, map, ltb, leb, ◌==◌, if◌then◌else◌, length, take, drop, any,
}
use stock_dashboard.Desktop.Window.{codes, is_lower, same_codes}

abbrev pub is_upper : ℕ → Bool
is_upper c = leb b'A' c && leb c b'Z'

abbrev pub is_letter : ℕ → Bool
is_letter c = is_upper c || is_lower c

-- `\w`
abbrev pub is_word : ℕ → Bool
is_word c = is_letter c || (leb b'0' c && leb c b'9') || c == b'_'

abbrev pub starts_word : List ℕ → Bool
starts_word [] = false
starts_word (c ∷ s) = is_word c

-- How many characters, at most `most`, the class takes.
abbrev pub run_of : (ℕ → Bool) → ℕ → List ℕ → ℕ
run_of p zero s = 0
run_of p (suc most) [] = 0
run_of p (suc most) (c ∷ s) = let more = run_of p most s in if p c then suc more else 0

-- `(?:\.(…{1,2}))?\b` after a letter, longest first: the length of the group, 0 without one.
abbrev pub group_of : List ℕ → ℕ → Option ℕ
group_of s zero = none
group_of s (suc zero) = if not (starts_word (drop 1 s)) then some 1 else none
group_of s (suc (suc n)) =
    if not (starts_word (drop 2 s))
    then some 2
    else if not (starts_word (drop 1 s))
    then some 1
    else none

abbrev pub suffix_of : (ℕ → Bool) → List ℕ → Option ℕ
suffix_of p [] = some 0
suffix_of p (c ∷ s) =
    let bare = (if not (is_word c) then some 0 else none) in
    if c == b'.' then elim (group_of s (run_of p 2 s)) [ some n ↦ some n | none ↦ bare ] else bare

-- The root gives characters back, one by one, until the rest of the pattern matches.
abbrev pub backtrack : (ℕ → Bool) → ℕ → ℕ → List ℕ → Option (ℕ × ℕ)
backtrack p least zero s = none
backtrack p least (suc k) s =
    if leb least (suc k)
    then elim (suffix_of p (drop (suc k) s)) [
      | some n ↦ some (suc k, n)
      | none ↦ backtrack p least k s
    ]
    else none

-- What one match captures: the root, the suffix, empty without one, and the length of it all.
pub record Capture : Type 0 where
  pub root : List ℕ
  pub suffix : List ℕ
  pub size : ℕ

abbrev pub capture : List ℕ → ℕ → ℕ × ℕ → Capture
capture s before (k, n) = record {
  root = take k s;
  suffix = take n (drop (k + 1) s);
  size = before + k + (if n == 0 then 0 else n + 1);
}

abbrev pub captured : List ℕ → ℕ → Option (ℕ × ℕ) → Option Capture
captured s before none = none
captured s before (some lengths) = some (capture s before lengths)

-- `CASHTAG_RE` and `BARE_RE` at one place, with the character before it.
unfoldable pub cashtag_at : Option ℕ → List ℕ → Option Capture
cashtag_at previous [] = none
cashtag_at previous (c ∷ s) =
    if c == b'$' then captured s 1 (backtrack is_letter 1 (run_of is_letter 5 s) s) else none

unfoldable pub bare_at : Option ℕ → List ℕ → Option Capture
bare_at previous s =
    if starts_word s && elim previous [ none ↦ true | some c ↦ not (is_word c) ]
    then captured s 0 (backtrack is_upper 2 (run_of is_upper 5 s) s)
    else none

-- The loop over `exec`: the captures in a text with where each begins; after one, the search goes
-- on where it ends.
unfoldable pub exec_all :
    (Option ℕ → List ℕ → Option Capture) → Option ℕ → ℕ → ℕ → List ℕ → List (ℕ × Capture)
exec_all pattern_at previous skip i [] = []
exec_all pattern_at previous (suc skip) i (c ∷ s) = exec_all pattern_at (some c) skip (i + 1) s
exec_all pattern_at previous zero i (c ∷ s) = elim (pattern_at previous (c ∷ s)) [
  | none ↦ exec_all pattern_at (some c) 0 (i + 1) s
  | some found ↦ (i, found) ∷ exec_all pattern_at (some c) (found.size - 1) (i + 1) s
]

pub record Mention : Type 0 where
  pub ticker : List ℕ
  pub start : ℕ
  -- exclusive
  pub end : ℕ
  pub cashtag : Bool

-- The known symbols, or nothing in cashtag-only mode.
abbrev pub Matcher : Type 0
Matcher = Option (List (List ℕ))

abbrev pub knows : Matcher → List ℕ → Bool
knows none t = false
knows (some known) t = any (same_codes t) known

abbrev pub stopwords : List String
stopwords =
    "ALL" ∷ "AN" ∷ "AND" ∷ "ANY" ∷ "ARE" ∷ "AS" ∷ "AT" ∷ "BE" ∷ "BUT" ∷ "BY" ∷ "CAN" ∷ "DO" ∷ "FOR"
    ∷ "GO" ∷ "HAS" ∷ "HE" ∷ "IF" ∷ "IN" ∷ "IS" ∷ "IT" ∷ "ITS" ∷ "MY" ∷ "NEW" ∷ "NO" ∷ "NOT" ∷ "NOW"
    ∷ "OF" ∷ "OK" ∷ "ON" ∷ "ONE" ∷ "OR" ∷ "OUT" ∷ "SO" ∷ "THE" ∷ "TO" ∷ "TWO" ∷ "UP" ∷ "US" ∷ "WAS"
    ∷ "WE" ∷ "WHO" ∷ "YOU" ∷ "KEY" ∷ "OPEN" ∷ "REAL" ∷ "WELL" ∷ "BIG" ∷ "LOW" ∷ "NEXT" ∷ "PLUS"
    ∷ "POST" ∷ "SAFE" ∷ "SEE" ∷ "TRUE" ∷ "TURN" ∷ "WING" ∷ "HUGE" ∷ "AI" ∷ "AH" ∷ "API" ∷ "ATH"
    ∷ "ATR" ∷ "AUM" ∷ "BS" ∷ "CAGR" ∷ "CEO" ∷ "CFO" ∷ "COO" ∷ "CPI" ∷ "CTO" ∷ "DCA" ∷ "DD" ∷ "EOD"
    ∷ "EPS" ∷ "ESG" ∷ "ETF" ∷ "EV" ∷ "FAQ" ∷ "FED" ∷ "FOMC" ∷ "FUD" ∷ "FY" ∷ "GDP" ∷ "IMO" ∷ "IPO"
    ∷ "IRA" ∷ "IRS" ∷ "ITM" ∷ "LEAP" ∷ "LLC" ∷ "LOL" ∷ "LTM" ∷ "MA" ∷ "NAV" ∷ "NYSE" ∷ "OP" ∷ "OTC"
    ∷ "OTM" ∷ "PE" ∷ "PM" ∷ "PT" ∷ "QE" ∷ "REIT" ∷ "ROE" ∷ "ROI" ∷ "RSI" ∷ "SEC" ∷ "SP" ∷ "TA"
    ∷ "TLDR" ∷ "TTM" ∷ "USA" ∷ "USD" ∷ "WSB" ∷ "YOLO" ∷ "YOY" ∷ "YTD" ∷ "AM" ∷ "EDT" ∷ "EST" ∷ "GMT"
    ∷ "PST" ∷ "UTC" ∷ []

unfoldable pub is_stopword : List ℕ → Bool
is_stopword root = any (λ w. same_codes root (codes w)) stopwords

abbrev pub upper : ℕ → ℕ
upper c = if is_lower c then c - 32 else c

abbrev pub dotted : Capture → List ℕ
dotted found = elim found.suffix [ [] ↦ found.root | c ∷ cs ↦ found.root ++ b'.' ∷ found.suffix ]

abbrev pub overlaps : Mention → Mention → Bool
overlaps m taken = ltb m.start taken.end && ltb taken.start m.end

-- `push`
abbrev pub push : Mention → List Mention → List Mention
push m out = if any (overlaps m) out then out else out ++ m ∷ []

abbrev pub push_cashtags : List (ℕ × Capture) → List Mention → List Mention
push_cashtags [] out = out
push_cashtags ((i, found) ∷ more) out = push_cashtags more (
    push
      (record {
        ticker = map upper (dotted found);
        start = i;
        end = i + found.size;
        cashtag = true;
      })
      out)

abbrev pub push_bare : Matcher → List (ℕ × Capture) → List Mention → List Mention
push_bare matcher [] out = out
push_bare matcher ((i, found) ∷ more) out =
    let m : Mention = record {
      ticker = dotted found;
      start = i;
      end = i + found.size;
      cashtag = false;
    } in
    push_bare matcher more
      (if is_stopword found.root || not (knows matcher (dotted found)) then out else push m out)

-- The bare words, unless the matcher is in cashtag-only mode.
abbrev pub add_bare : Matcher → List ℕ → List Mention → List Mention
add_bare none text out = out
add_bare (some known) text out = push_bare (some known) (exec_all bare_at none 0 0 text) out

-- `out.sort((a, b) => a.start - b.start)`, which is stable.
abbrev pub insert : Mention → List Mention → List Mention
insert m [] = m ∷ []
insert m (n ∷ ns) = if leb m.start n.start then m ∷ n ∷ ns else n ∷ insert m ns

abbrev pub sort : List Mention → List Mention
sort [] = []
sort (m ∷ ms) = insert m (sort ms)

abbrev pub two_uppers : List ℕ → Bool
two_uppers [] = false
two_uppers (c ∷ []) = false
two_uppers (c ∷ d ∷ s) = (is_upper c && is_upper d) || two_uppers (d ∷ s)

unfoldable pub may_contain_ticker : List ℕ → Bool
may_contain_ticker text =
    if ltb (length text) 2 then false else any (λ c. c == b'$') text || two_uppers text

unfoldable pub scan_text : List ℕ → Matcher → List Mention
unfolding may_contain_ticker exec_all cashtag_at bare_at is_stopword
scan_text text matcher =
    let cashtags = push_cashtags (exec_all cashtag_at none 0 0 text) [] in
    if not (may_contain_ticker text) then [] else sort (add_bare matcher text cashtags)
