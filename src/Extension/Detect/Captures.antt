-- ===== src/Extension/Detect/Captures.antt =====
-- What the two patterns capture takes at least a character, and lies in the text.
use stock_dashboard.Prelude.{
  ℕ, zero, suc, ◌+◌, ◌-◌, ◌≤◌, ◌≡◌, refl, ◌∙◌, Bool, true, false, not, ◌&&◌, Option, none, some,
  List, [], ◌∷◌, arith, leb, ◌==◌, if◌then◌else◌, length, drop, All, length-drop,
}
use mathlib.Core.Path.{subst}
use stock_dashboard.Extension.Detect.{
  Capture, exec_all, bare_at, cashtag_at, backtrack, suffix_of, captured, is_letter, is_upper,
  is_word, starts_word, run_of, group_of,
}

-- Captures take at least a character.
abbrev pub IsCapture : ℕ → ℕ × Capture → Type 0
IsCapture total found = (1 ≤ found.1.size) × (found.0 + found.1.size ≤ total)

-- What one match takes of a text.
abbrev pub Takes : List ℕ → Capture → Type 0
Takes s found = (1 ≤ found.size) × (found.size ≤ length s)

-- The length of a suffix with its dot.
abbrev tail : ℕ → ℕ
tail n = if n == 0 then 0 else n + 1

run_of-le : (p : ℕ → Bool) (most : ℕ) (s : List ℕ) → run_of p most s ≤ length s
run_of-le p zero s = omega arith
run_of-le p (suc most) [] = omega arith
run_of-le p (suc most) (c ∷ s) = ground (arith, run_of-le p most s)

group_of-le : (s : List ℕ) (r n : ℕ) → group_of s r ≡ some n → n ≤ r
group_of-le s zero n e = absurd (cc)
group_of-le s (suc zero) n e = ground arith
group_of-le s (suc (suc r)) n e = ground arith

suffix_of-le : (p : ℕ → Bool) (s : List ℕ) (n : ℕ) → suffix_of p s ≡ some n → tail n ≤ length s
suffix_of-le p [] n e = ground arith
suffix_of-le p (c ∷ s) n e = go (c == b'.') (group_of s (run_of p 2 s)) refl e
  where
    bare : Option ℕ
    bare = if not (is_word c) then some 0 else none

    plain :
        (b : Bool) → if◌then◌else◌ {A = Option ℕ} b (some 0) none ≡ some n → tail n ≤ suc (length s)
    plain true q = ground arith
    plain false q = absurd (cc)

    go :
        (b : Bool) (o : Option ℕ)
        → group_of s (run_of p 2 s) ≡ o
        → if◌then◌else◌ {A = Option ℕ} b (elim o [ some m ↦ some m | none ↦ bare ]) bare ≡ some n
        → tail n ≤ suc (length s)
    go false o g q = plain (not (is_word c)) q
    go true none g q = plain (not (is_word c)) q
    go true (some m) g q = ground (arith, group_of-le s (run_of p 2 s) n (g ∙ q), run_of-le p 2 s)

-- Either the root ends here, or the search goes on with a shorter one.
backtrack_step :
    (P : ℕ × ℕ → Type 0) (b : Bool) (o : Option ℕ) (rest : Option (ℕ × ℕ)) (k : ℕ) (lengths : ℕ × ℕ)
    → (rest ≡ some lengths → P lengths)
    → ((n : ℕ) → o ≡ some n → P (suc k, n))
    → if◌then◌else◌ {A = Option (ℕ × ℕ)} b (elim o [ some n ↦ some (suc k, n) | none ↦ rest ]) none
      ≡ some lengths
    → P lengths
backtrack_step P false o rest k lengths h here e = absurd (cc)
backtrack_step P true none rest k lengths h here e = h e
backtrack_step P true (some n) rest k lengths h here e =
    subst P (same (suc k, n) lengths e) (here n refl)
  where
    same : (a b : ℕ × ℕ) → some a ≡ some b → a ≡ b
    same a b q = cc

length-drop_room :
    (k : ℕ) (s : List ℕ) (t : ℕ) → k ≤ length s → t ≤ length (drop k s) → k + t ≤ length s
length-drop_room k s t h g = omega (arith, length-drop k s)

backtrack_takes :
    (p : ℕ → Bool) (least k : ℕ) (s : List ℕ) (lengths : ℕ × ℕ)
    → k ≤ length s
    → backtrack p least k s ≡ some lengths
    → (1 ≤ lengths.0) × (lengths.0 + tail lengths.1 ≤ length s)
backtrack_takes p least zero s lengths le e = absurd (cc)
backtrack_takes p least (suc k) s lengths le e =
    backtrack_step (λ l. (1 ≤ l.0) × (l.0 + tail l.1 ≤ length s)) (leb least (suc k))
      (suffix_of p (drop (suc k) s)) (backtrack p least k s) k lengths
      (backtrack_takes p least k s lengths (omega arith))
      (λ n q.
        (omega arith, length-drop_room (suc k) s (tail n) le (suffix_of-le p (drop (suc k) s) n q)))
      e

-- All captures of a pattern lie in the text.
pub captures :
    (pattern_at : Option ℕ → List ℕ → Option Capture)
    → ((previous : Option ℕ) (s : List ℕ) (found : Capture)
        → pattern_at previous s ≡ some found
        → Takes s found)
    → (previous : Option ℕ) (skip i : ℕ) (s : List ℕ) (total : ℕ) → i + length s ≤ total
    → All (IsCapture total) (exec_all pattern_at previous skip i s)
unfolding exec_all
captures pattern_at h previous skip i [] total le = tt
captures pattern_at h previous (suc skip) i (c ∷ s) total le =
    captures pattern_at h (some c) skip (i + 1) s total (omega arith)
captures pattern_at h previous zero i (c ∷ s) total le =
    go (pattern_at previous (c ∷ s)) refl
      (λ n. captures pattern_at h (some c) n (i + 1) s total (omega arith))
  where
    go :
        (o : Option Capture)
        → pattern_at previous (c ∷ s) ≡ o
        → ((n : ℕ) → All (IsCapture total) (exec_all pattern_at (some c) n (i + 1) s))
        → All (IsCapture total) (elim o [
          | none ↦ exec_all pattern_at (some c) 0 (i + 1) s
          | some found ↦ (i, found) ∷ exec_all pattern_at (some c) (found.size - 1) (i + 1) s
        ])
    go none e later = later 0
    go (some found) e later =
        let takes = h previous (c ∷ s) found e in
        ((takes.0, omega (arith, takes.1)), later (found.size - 1))

captured_takes :
    (s : List ℕ) (before : ℕ) (o : Option (ℕ × ℕ)) (found : Capture)
    → ((lengths : ℕ × ℕ)
        → o ≡ some lengths
        → (1 ≤ lengths.0) × (lengths.0 + tail lengths.1 ≤ length s))
    → captured s before o ≡ some found
    → (1 ≤ found.size) × (found.size ≤ before + length s)
captured_takes s before none found h e = absurd (cc)
captured_takes s before (some (k, n)) found h e =
    let takes = h (k, n) refl in (omega (arith, takes.0, size), omega (arith, takes.1, size))
  where
    size : before + k + tail n ≡ found.size
    size = cc

if_some :
    (P : Capture → Type 0) (b : Bool) (o : Option Capture) (found : Capture)
    → (o ≡ some found → P found)
    → if◌then◌else◌ {A = Option Capture} b o none ≡ some found
    → P found
if_some P true o found h e = h e
if_some P false o found h e = absurd (cc)

pub cashtag-Takes :
    (previous : Option ℕ) (s : List ℕ) (found : Capture)
    → cashtag_at previous s ≡ some found
    → Takes s found
unfolding cashtag_at
cashtag-Takes previous [] found e = absurd (cc)
cashtag-Takes previous (c ∷ s) found e =
    if_some (Takes (c ∷ s)) (c == b'$')
      (captured s 1 (backtrack is_letter 1 (run_of is_letter 5 s) s)) found
      (λ q.
        let takes =
          captured_takes s 1 (backtrack is_letter 1 (run_of is_letter 5 s) s) found
            (λ l. backtrack_takes is_letter 1 (run_of is_letter 5 s) s l (run_of-le is_letter 5 s))
            q in
        (takes.0, omega (arith, takes.1)))
      e

pub bare-Takes :
    (previous : Option ℕ) (s : List ℕ) (found : Capture)
    → bare_at previous s ≡ some found
    → Takes s found
unfolding bare_at
bare-Takes previous s found e =
    if_some (Takes s) (starts_word s && elim previous [ none ↦ true | some c ↦ not (is_word c) ])
      (captured s 0 (backtrack is_upper 2 (run_of is_upper 5 s) s)) found
      (λ q.
        let takes =
          captured_takes s 0 (backtrack is_upper 2 (run_of is_upper 5 s) s) found
            (λ l. backtrack_takes is_upper 2 (run_of is_upper 5 s) s l (run_of-le is_upper 5 s))
            q in
        (takes.0, omega (arith, takes.1)))
      e
