-- ===== src/Frontend/Drawings/Anchors/Laws.antt =====
-- An anchor is found where it was put, and shifting moves it by exactly the bars asked for.
use stock_dashboard.Prelude.{
  ℕ, zero, suc, ◌+◌, ◌-◌, ◌*◌, ◌<◌, ◌≡◌, refl, ap, ◌∙◌, ◌≢◌, inl, inr, true, Option, none, some,
  List, [], ◌∷◌, arith, ◌==◌, if◌then◌else◌, Option-cases, length, get_elem?,
}
use stock_dashboard.Prelude.Int.{ℤ, pos, ◌+ℤ◌, ◌-ℤ◌, int_laws}
use stock_dashboard.Frontend.Drawings.Anchors.{
  Anchor, index_from, index_of, nearest, anchor_at, position, shift, IsDistinct,
}

index_from_sound :
    (k time : ℕ) (bars : List ℕ) {j : ℕ}
    → index_from k time bars ≡ some j
    → (i : ℕ) × (j ≡ k + i) × (get_elem? bars i ≡ some time)
index_from_sound k time [] e = cc
index_from_sound k time (t ∷ ts) {j} e =
    go (index_from (suc k) time ts) (index_from_sound (suc k) time ts {j = j}) e refl
  where
    go :
        (o : Option ℕ)
        → (index_from (suc k) time ts ≡ some j
            → (i : ℕ) × (j ≡ suc k + i) × (get_elem? ts i ≡ some time))
        → elim o [ none ↦ if t == time then some k else none | some i ↦ some i ] ≡ some j
        → index_from (suc k) time ts ≡ o
        → (i : ℕ) × (j ≡ k + i) × (get_elem? (t ∷ ts) i ≡ some time)
    go none ih q p = (0, ground arith, ground arith)
    go (some j') ih q p = let (i, at, found) = ih (p ∙ q) in (suc i, omega arith, found)

index_from_complete :
    (k time : ℕ) (bars : List ℕ) (i : ℕ)
    → get_elem? bars i ≡ some time
    → index_from k time bars ≢ none
index_from_complete k time [] i e = cc
index_from_complete k time (t ∷ ts) zero e = ground arith
index_from_complete k time (t ∷ ts) (suc i) e =
    ground (arith, index_from_complete (suc k) time ts i e)

-- Where the times are distinct, a bar's index is the one it stands at.
pub index_of-get_elem? :
    (bars : List ℕ) (i time : ℕ)
    → IsDistinct bars
    → get_elem? bars i ≡ some time
    → index_of time bars ≡ some i
unfolding index_of
index_of-get_elem? bars i time d e = elim (Option-cases (index_from 0 time bars)) [
  | inl p ↦ absurd (index_from_complete 0 time bars i e p)
  | inr (j, p) ↦
      let (i', at, found) = index_from_sound 0 time bars p in
      p ∙ ap some (omega (arith, d i' i time found e))
]

get_elem?-some :
    {A : Type 0} (xs : List A) (i : ℕ) → i < length xs → (a : A) × (get_elem? xs i ≡ some a)
get_elem?-some [] i h = absurd (omega arith)
get_elem?-some (x ∷ xs) zero h = (x, refl)
get_elem?-some (x ∷ xs) (suc i) h = get_elem?-some xs i (omega arith)

abbrev placed : List ℕ → ℤ → ℕ → Anchor
placed bars m t = record { time = t; off = m -ℤ pos (1000 * nearest (length bars - 1) m) }

at_bar :
    (bars : List ℕ) (m : ℤ) (t : ℕ)
    → IsDistinct bars
    → get_elem? bars (nearest (length bars - 1) m) ≡ some t
    → (a : Anchor) × (anchor_at bars m true ≡ some a) × (position bars a ≡ some m)
unfolding position anchor_at
at_bar bars m t d found = (
  placed bars m t,
  rw (found, anchor_at),
  rw (index_of-get_elem? bars (nearest (length bars - 1) m) t d found, position)
      (ap some (omega int_laws)),
)

-- Over a chart with bars of distinct times, every position of whole thousandths has an anchor between
-- bars, whichever bar it counts from, and the anchor stands at that position.
pub position-anchor_at :
    (bars : List ℕ) (m : ℤ)
    → IsDistinct bars
    → 0 < length bars
    → (a : Anchor) × (anchor_at bars m true ≡ some a) × (position bars a ≡ some m)
position-anchor_at bars m d h =
    let (t, found) = get_elem?-some bars (nearest (length bars - 1) m) (omega arith) in
    at_bar bars m t d found

index_of_sound : (bars : List ℕ) (time : ℕ) {i : ℕ} → index_of time bars ≡ some i → 0 < length bars
unfolding index_of
index_of_sound [] time e = cc
index_of_sound (b ∷ bars) time e = omega arith

position-nonempty :
    (bars : List ℕ) (a : Anchor) {p : ℤ} → position bars a ≡ some p → 0 < length bars
unfolding position
position-nonempty bars a e = elim (Option-cases (index_of a.time bars)) [
  | inl n ↦ ground arith
  | inr (i, q) ↦ index_of_sound bars a.time q
]

shift_lem :
    (bars : List ℕ) (a : Anchor) (delta : ℤ) {p : ℤ} {b : Anchor}
    → position bars a ≡ some p
    → anchor_at bars (p +ℤ delta) true ≡ some b
    → shift bars a delta ≡ b
unfolding shift
shift_lem bars a delta e found = ground arith

-- Shifting an anchor whose bar is on screen moves it by exactly the distance, past either end of
-- the data too.
pub position-shift :
    (bars : List ℕ) (a : Anchor) (delta : ℤ) {p : ℤ}
    → IsDistinct bars
    → position bars a ≡ some p
    → position bars (shift bars a delta) ≡ some (p +ℤ delta)
position-shift bars a delta {p} d e =
    let (b, found, here) = position-anchor_at bars (p +ℤ delta) d (position-nonempty bars a e) in
    rw (shift_lem bars a delta e found) here
