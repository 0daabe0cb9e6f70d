-- ===== src/Frontend/Nav/Paths.antt =====
-- Paths of plain segments, and tickers in upper case.
use stock_dashboard.Prelude.{
  ℕ, ◌-◌, ◌≡◌, refl, sym, ap, ◌∙◌, inl, inr, Bool, true, false, not, ◌&&◌, ◌||◌, List, [], ◌∷◌,
  ◌++◌, arith, leb, ◌==◌, if◌then◌else◌, Bool-cases, length, filter, any, All,
}
use mathlib.Core.Bool.{true≢false}
use stock_dashboard.Desktop.Window.{codes, same_codes}
use stock_dashboard.Frontend.Nav.{
  is_nil, is_ticker_char, every, is_ticker, upper, slash, onto_first, split, segments,
}

-- A path of segments.
abbrev pub slashes : List (List ℕ) → List ℕ
slashes [] = []
slashes (s ∷ ss) = slash ∷ s ++ slashes ss

abbrev pub path : List (List ℕ) → List ℕ
path [] = slash ∷ []
path (s ∷ ss) = slashes (s ∷ ss)

-- A segment that a URL keeps as it is: unreserved characters, and not "." or "..".
abbrev pub is_plain : List ℕ → Bool
is_plain s =
    every is_ticker_char s
    && not (is_nil s)
    && not (same_codes s (codes "."))
    && not (same_codes s (codes ".."))

abbrev pub AllPlain : List (List ℕ) → Type 0
AllPlain ss = All (λ s. is_plain s ≡ true) ss

split-plain :
    (s : List ℕ) (ss : List (List ℕ))
    → every is_ticker_char s ≡ true
    → split (slashes ss) ≡ [] ∷ ss
    → split (s ++ slashes ss) ≡ s ∷ ss
split-plain [] ss h e = e
split-plain (c ∷ cs) ss h e =
    go (c == slash) (ground arith) (split-plain cs ss (ground (arith, h)) e)
  where
    go :
        (b : Bool)
        → b ≡ false
        → split (cs ++ slashes ss) ≡ cs ∷ ss
        → (if b then [] ∷ split (cs ++ slashes ss) else onto_first c (split (cs ++ slashes ss)))
          ≡ (c ∷ cs) ∷ ss
    go b q rest = rw (q, rest) refl

split-slashes : (ss : List (List ℕ)) → AllPlain ss → split (slashes ss) ≡ [] ∷ ss
split-slashes [] h = refl
split-slashes (s ∷ ss) h =
    ap (λ r. [] ∷ r) (split-plain s ss (ground (arith, h.0)) (split-slashes ss h.1))

filter-plain : (ss : List (List ℕ)) → AllPlain ss → filter (λ s. not (is_nil s)) ss ≡ ss
filter-plain [] h = refl
filter-plain (s ∷ ss) h = ground (arith, h.0, filter-plain ss h.1)

pub segments-path : (ss : List (List ℕ)) → AllPlain ss → segments (path ss) ≡ ss
segments-path [] h = refl
segments-path (s ∷ ss) h =
    ap (filter (λ s. not (is_nil s))) (split-slashes (s ∷ ss) h) ∙ filter-plain (s ∷ ss) h

pub same_codes_eq : (s t : List ℕ) → same_codes s t ≡ true → s ≡ t
same_codes_eq [] [] h = refl
same_codes_eq [] (c ∷ cs) h = absurd (cc)
same_codes_eq (b ∷ bs) [] h = absurd (cc)
same_codes_eq (b ∷ bs) (c ∷ cs) h = ground (arith, h, same_codes_eq bs cs)

pub any_plain :
    (key : List ℕ) (ks : List (List ℕ))
    → any (λ k. not (is_plain k)) ks ≡ false
    → any (λ k. same_codes key k) ks ≡ true
    → is_plain key ≡ true
any_plain key [] h e = absurd (cc)
any_plain key (k ∷ ks) h e = elim (Bool-cases (same_codes key k)) [
  | inl q ↦ ap is_plain (same_codes_eq key k q) ∙ first (is_plain k) h
  | inr q ↦
      any_plain key ks (later (is_plain k) h)
        (ap (λ b. b || any (λ k. same_codes key k) ks) (sym q) ∙ e)
]
  where
    first : (b : Bool) → (not b || any (λ k. not (is_plain k)) ks) ≡ false → b ≡ true
    first true e = refl
    first false e = absurd (true≢false e)

    later :
        (b : Bool)
        → (not b || any (λ k. not (is_plain k)) ks) ≡ false
        → any (λ k. not (is_plain k)) ks ≡ false
    later true e = e
    later false e = absurd (true≢false e)

upper-every : (t : List ℕ) → every is_ticker_char t ≡ true → every is_ticker_char (upper t) ≡ true
upper-every [] h = refl
upper-every (c ∷ cs) h = go (leb b'a' c && leb c b'z') refl (upper-every cs (ground (arith, h)))
  where
    go :
        (b : Bool)
        → (leb b'a' c && leb c b'z') ≡ b
        → every is_ticker_char (upper cs) ≡ true
        → (is_ticker_char (if b then c - 32 else c) && every is_ticker_char (upper cs)) ≡ true
    go true q rest = ground (arith, q, rest)
    go false q rest = ground (arith, h, q, rest)

upper-length : (t : List ℕ) → length (upper t) ≡ length t
upper-length [] = refl
upper-length (c ∷ cs) = omega (arith, upper-length cs)

pub upper-upper : (t : List ℕ) → upper (upper t) ≡ upper t
upper-upper [] = refl
upper-upper (c ∷ cs) = go (leb b'a' c && leb c b'z') refl (upper-upper cs)
  where
    go :
        (b : Bool)
        → (leb b'a' c && leb c b'z') ≡ b
        → upper (upper cs) ≡ upper cs
        → upper ((if b then c - 32 else c) ∷ upper cs) ≡ (if b then c - 32 else c) ∷ upper cs
    go true q rest = ground (arith, q, rest)
    go false q rest = ground (arith, q, rest)

pub upper-is_ticker : (t : List ℕ) → is_ticker t ≡ true → is_ticker (upper t) ≡ true
upper-is_ticker t h = ground (arith, h, upper-every t, upper-length t)
