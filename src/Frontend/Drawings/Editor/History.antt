-- ===== src/Frontend/Drawings/Editor/History.antt =====
-- Undo and redo: they invert one another and a commit, and the history stays within its limit.
use stock_dashboard.Prelude.{
  ℕ, zero, suc, ◌≤◌, ◌<◌, ◌≡◌, refl, sym, ap, ◌∙◌, ◌≢◌, List, [], ◌∷◌, arith, length, take, drop,
  length-take,
}
use stock_dashboard.Frontend.Drawings.Shapes.{Shape}
use stock_dashboard.Frontend.Drawings.Editor.{
  Editor, history_limit, commit, undo, redo, undo_to, redo_to,
}

module _ {R : Type 0} where
  redo-undo_to :
      (past : List (List (Shape R))) (s : Editor R)
      → s.past ≡ past
      → past ≢ []
      → ((redo (undo_to past s)).shapes ≡ s.shapes)
        × ((redo (undo_to past s)).past ≡ s.past)
        × ((redo (undo_to past s)).future ≡ s.future)
  unfolding redo
  redo-undo_to [] s e h = absurd (h refl)
  redo-undo_to (p ∷ past) s e h = (refl, sym e, refl)

  -- Where there is something to undo, redo gives back the drawings and both stacks.
  pub redo-undo :
      (s : Editor R)
      → s.past ≢ []
      → ((redo (undo s)).shapes ≡ s.shapes)
        × ((redo (undo s)).past ≡ s.past)
        × ((redo (undo s)).future ≡ s.future)
  unfolding undo
  redo-undo s h = redo-undo_to s.past s refl h

  undo-redo_to :
      (future : List (List (Shape R))) (s : Editor R)
      → s.future ≡ future
      → future ≢ []
      → ((undo (redo_to future s)).shapes ≡ s.shapes)
        × ((undo (redo_to future s)).past ≡ s.past)
        × ((undo (redo_to future s)).future ≡ s.future)
  unfolding undo
  undo-redo_to [] s e h = absurd (h refl)
  undo-redo_to (n ∷ future) s e h = (refl, refl, sym e)

  -- And undo takes a redo back.
  pub undo-redo :
      (s : Editor R)
      → s.future ≢ []
      → ((undo (redo s)).shapes ≡ s.shapes)
        × ((undo (redo s)).past ≡ s.past)
        × ((undo (redo s)).future ≡ s.future)
  unfolding redo
  undo-redo s h = undo-redo_to s.future s refl h

  -- Commits of new arrays, the latest first.
  abbrev pub commits : List (List (Shape R)) → Editor R → Editor R
  commits [] s = s
  commits (next ∷ earlier) s = commit next (commits earlier s)

  abbrev pub undo_times : ℕ → Editor R → Editor R
  undo_times zero s = s
  undo_times (suc k) s = undo_times k (undo s)

  abbrev pub redo_times : ℕ → Editor R → Editor R
  redo_times zero s = s
  redo_times (suc k) s = redo (redo_times k s)

  -- The drawings are on screen and stored.
  pub record Holds (x : List (Shape R)) (s : Editor R) : Type 0 where
    pub shapes : s.shapes ≡ x
    pub stored : s.stored ≡ x

  -- Two editors that so many undos cannot tell apart.
  record AreClose (k : ℕ) (s t : Editor R) : Type 0 where
    shapes : s.shapes ≡ t.shapes
    stored : s.stored ≡ t.stored
    past : take k s.past ≡ take k t.past

  take_shorter :
      (k : ℕ) (p q : List (List (Shape R))) → take (suc k) p ≡ take (suc k) q → take k p ≡ take k q
  take_shorter zero p q e = refl
  take_shorter (suc k) [] [] e = refl
  take_shorter (suc k) (x ∷ p) (y ∷ q) e =
      ground (arith, take_shorter k p q (ap (drop 1) e), ap (take 1) e)
  take_shorter (suc k) [] (y ∷ q) e = absurd (cc)
  take_shorter (suc k) (x ∷ p) [] e = absurd (cc)

  take_within : (k n : ℕ) (p : List (List (Shape R))) → k ≤ n → take k (take n p) ≡ take k p
  take_within zero n p h = refl
  take_within (suc k) zero p h = absurd (omega arith)
  take_within (suc k) (suc n) [] h = refl
  take_within (suc k) (suc n) (x ∷ p) h = ap (λ q. x ∷ q) (take_within k n p (omega arith))

  undo-AreClose : (k : ℕ) (s t : Editor R) → AreClose (suc k) s t → AreClose k (undo s) (undo t)
  unfolding undo
  undo-AreClose k s t c = go s.past t.past c.past
    where
      go :
          (p q : List (List (Shape R)))
          → take (suc k) p ≡ take (suc k) q
          → AreClose k (undo_to p s) (undo_to q t)
      go [] [] e = record {
        shapes = c.shapes;
        stored = c.stored;
        past = take_shorter k s.past t.past c.past;
      }
      go (x ∷ p) (y ∷ q) e =
          let same : x ≡ y = cc in record { shapes = same; stored = same; past = cc }
      go [] (y ∷ q) e = absurd (cc)
      go (x ∷ p) [] e = absurd (cc)

  undo_times-AreClose :
      (k : ℕ) (s t : Editor R) {x : List (Shape R)}
      → AreClose k s t
      → Holds x (undo_times k t)
      → Holds x (undo_times k s)
  undo_times-AreClose zero s t c h = record {
    shapes = c.shapes ∙ h.shapes;
    stored = c.stored ∙ h.stored;
  }
  undo_times-AreClose (suc k) s t c h =
      undo_times-AreClose k (undo s) (undo t) (undo-AreClose k s t c) h

  commit-AreClose :
      (k : ℕ) (next : List (Shape R)) (s : Editor R)
      → k < history_limit
      → s.stored ≡ s.shapes
      → AreClose k (undo (commit next s)) s
  unfolding undo commit
  commit-AreClose k next s h e = record {
    shapes = refl;
    stored = sym e;
    past = take_within k 99 s.past (omega arith);
  }

  commits-stored :
      (ns : List (List (Shape R))) (s : Editor R)
      → s.stored ≡ s.shapes
      → (commits ns s).stored ≡ (commits ns s).shapes
  unfolding commit
  commits-stored [] s e = e
  commits-stored (next ∷ earlier) s e = refl

  undo-commits :
      (ns : List (List (Shape R))) (s : Editor R)
      → s.stored ≡ s.shapes
      → length ns ≤ history_limit
      → Holds s.shapes (undo_times (length ns) (commits ns s))
  undo-commits [] s e h = record { shapes = refl; stored = e }
  undo-commits (next ∷ earlier) s e h =
      undo_times-AreClose (length earlier) (undo (commit next (commits earlier s)))
        (commits earlier s)
        (commit-AreClose (length earlier) next (commits earlier s) (omega arith)
          (commits-stored earlier s e))
        (undo-commits earlier s e (omega arith))

  past-commits :
      (ns : List (List (Shape R))) (s : Editor R)
      → length ns ≤ history_limit
      → length ns ≤ length (commits ns s).past
  unfolding commit
  past-commits [] s h = omega arith
  past-commits (next ∷ earlier) s h =
      let before = commits earlier s in
      omega (
        arith,
        length-take history_limit (before.shapes ∷ before.past),
        past-commits earlier s (omega arith),
      )

  record AreSame (s t : Editor R) : Type 0 where
    shapes : s.shapes ≡ t.shapes
    stored : s.stored ≡ t.stored
    past : s.past ≡ t.past
    future : s.future ≡ t.future

  redo-AreSame : (s t : Editor R) → AreSame s t → AreSame (redo s) (redo t)
  unfolding redo
  redo-AreSame s t c = go s.future t.future c.future
    where
      go : (p q : List (List (Shape R))) → p ≡ q → AreSame (redo_to p s) (redo_to q t)
      go [] [] e = c
      go (x ∷ p) (y ∷ q) e =
          let same : x ≡ y = cc in
          let rest : p ≡ q = cc in
          record {
            shapes = same;
            stored = same;
            past = ap (λ x. x ∷ s.past) c.shapes ∙ ap (λ p. t.shapes ∷ p) c.past;
            future = rest;
          }
      go [] (y ∷ q) e = absurd (cc)
      go (x ∷ p) [] e = absurd (cc)

  redo_times-undo_times :
      (k : ℕ) (s : Editor R)
      → s.stored ≡ s.shapes
      → k ≤ length s.past
      → AreSame (redo_times k (undo_times k s)) s
  unfolding undo redo
  redo_times-undo_times zero s e h = record {
    shapes = refl;
    stored = refl;
    past = refl;
    future = refl;
  }
  redo_times-undo_times (suc k) s e h = go s.past refl (λ t. redo_times-undo_times k t)
    where
      go :
          (p : List (List (Shape R)))
          → s.past ≡ p
          → ((t : Editor R)
              → t.stored ≡ t.shapes
              → k ≤ length t.past
              → AreSame (redo_times k (undo_times k t)) t)
          → AreSame (redo (redo_times k (undo_times k (undo_to p s)))) s
      go [] q again = absurd (omega (arith, ap length q, h))
      go (x ∷ p) q again = back (
          redo-AreSame (redo_times k (undo_times k (undo_to (x ∷ p) s))) (undo_to (x ∷ p) s)
            (again (undo_to (x ∷ p) s) refl (omega (arith, ap length q, h))))
        where
          back : {t : Editor R} → AreSame t (redo (undo_to (x ∷ p) s)) → AreSame t s
          back c = record {
            shapes = c.shapes;
            stored = c.stored ∙ sym e;
            past = c.past ∙ sym q;
            future = c.future;
          }

  -- Undo takes back up to 100 commits of new arrays, from an editor whose drawings are stored: as many
  -- undos as there were commits give the drawings from before them, on screen and in storage, and as
  -- many redos then give those of the last commit again.
  pub redo-undo-commits :
      (ns : List (List (Shape R))) (s : Editor R)
      → s.stored ≡ s.shapes
      → length ns ≤ history_limit
      → Holds s.shapes (undo_times (length ns) (commits ns s))
        × Holds
            (commits ns s).shapes
            (redo_times (length ns) (undo_times (length ns) (commits ns s)))
  redo-undo-commits ns s e h =
      let stored = commits-stored ns s e in
      let same = redo_times-undo_times (length ns) (commits ns s) stored (past-commits ns s h) in
      (undo-commits ns s e h, record { shapes = same.shapes; stored = same.stored ∙ stored })
