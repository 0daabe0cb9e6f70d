-- ===== src/Frontend/SortableRows/Stable.antt =====
-- What a stable sort is, apart from any comparator and from the rows' positions, and that insertion
-- before the first element that may come later is one.
use stock_dashboard.Prelude.{
  ◌≡◌, refl, ap, ◌∙◌, Bool, true, false, not, List, [], ◌∷◌, ◌++◌, arith, if◌then◌else◌, filter,
  All,
}
use mathlib.Core.List.{Perm}
use mathlib.Core.List.Perm

module _ {R : Type 0} where
  -- Each element may stand before all those that follow it.
  abbrev pub IsSorted : (R → R → Bool) → List R → Type 0
  IsSorted le [] = Unit {0}
  IsSorted le (x ∷ xs) = All (λ y. le x y ≡ true) xs × IsSorted le xs

  -- Elements any of which may stand before any other keep their order.
  abbrev pub IsStable : (R → R → Bool) → List R → List R → Type 0
  IsStable le xs ys =
      (p : R → Bool)
      → ((x y : R) → p x ≡ true → p y ≡ true → le x y ≡ true)
      → filter p ys ≡ filter p xs

  pub record IsStableSort (le : R → R → Bool) (xs ys : List R) : Type 0 where
    pub permutes : Perm ys xs
    pub sorted : IsSorted le ys
    pub stable : IsStable le xs ys

  pub record IsOrder (le : R → R → Bool) : Type 0 where
    pub total : (x y : R) → le x y ≡ false → le y x ≡ true
    pub trans : (x y z : R) → le x y ≡ true → le y z ≡ true → le x z ≡ true

  abbrev pub insert_before : (R → R → Bool) → R → List R → List R
  insert_before le x [] = x ∷ []
  insert_before le x (y ∷ ys) = if le x y then x ∷ y ∷ ys else y ∷ insert_before le x ys

  abbrev pub insertion_sort : (R → R → Bool) → List R → List R
  insertion_sort le [] = []
  insertion_sort le (x ∷ xs) = insert_before le x (insertion_sort le xs)

  pub insert_before-Perm :
      (le : R → R → Bool) (x : R) (ys : List R) → Perm (insert_before le x ys) (x ∷ ys)
  insert_before-Perm le x [] = Perm.refl (x ∷ [])
  insert_before-Perm le x (y ∷ ys) = go (insert_before-Perm le x ys) (le x y)
    where
      go :
          Perm (insert_before le x ys) (x ∷ ys)
          → (b : Bool) → Perm (if b then x ∷ y ∷ ys else y ∷ insert_before le x ys) (x ∷ y ∷ ys)
      go ih true = Perm.refl (x ∷ y ∷ ys)
      go ih false = Perm.trans (Perm.cons y ih) (Perm.swap x y ys)

  pub insertion_sort-Perm : (le : R → R → Bool) (xs : List R) → Perm (insertion_sort le xs) xs
  insertion_sort-Perm le [] = Perm.refl []
  insertion_sort-Perm le (x ∷ xs) =
      Perm.trans (insert_before-Perm le x (insertion_sort le xs))
        (Perm.cons x (insertion_sort-Perm le xs))

  -- A predicate of the element and of the others holds after the insertion.
  insert_before-All :
      (le : R → R → Bool) (P : R → Type 0) (x : R) (ys : List R)
      → P x
      → All P ys
      → All P (insert_before le x ys)
  insert_before-All le P x [] h hs = (h, tt)
  insert_before-All le P x (y ∷ ys) h hs = go (insert_before-All le P x ys h hs.1) (le x y)
    where
      go :
          All P (insert_before le x ys)
          → (b : Bool) → All P (if b then x ∷ y ∷ ys else y ∷ insert_before le x ys)
      go ih true = (h, hs)
      go ih false = (hs.0, ih)

  All-map : {P Q : R → Type 0} (xs : List R) → ((x : R) → P x → Q x) → All P xs → All Q xs
  All-map [] f hs = tt
  All-map (x ∷ xs) f hs = (f x hs.0, All-map xs f hs.1)

  insert_before-IsSorted :
      (le : R → R → Bool)
      → IsOrder le
      → (x : R) (ys : List R) → IsSorted le ys
      → IsSorted le (insert_before le x ys)
  insert_before-IsSorted le o x [] s = (tt, tt)
  insert_before-IsSorted le o x (y ∷ ys) s = go (insert_before-IsSorted le o x ys s.1) (le x y) refl
    where
      go :
          IsSorted le (insert_before le x ys)
          → (b : Bool) → le x y ≡ b
          → IsSorted le (if b then x ∷ y ∷ ys else y ∷ insert_before le x ys)
      go ih true q = ((q, All-map ys (λ z h. o.trans x y z q h) s.0), s)
      go ih false q = (insert_before-All le (λ z. le y z ≡ true) x ys (o.total x y q) s.0, ih)

  pub insertion_sort-IsSorted :
      (le : R → R → Bool) → IsOrder le → (xs : List R) → IsSorted le (insertion_sort le xs)
  insertion_sort-IsSorted le o [] = tt
  insertion_sort-IsSorted le o (x ∷ xs) =
      insert_before-IsSorted le o x (insertion_sort le xs) (insertion_sort-IsSorted le o xs)

  insert_before-filter :
      (le : R → R → Bool) (p : R → Bool)
      → ((x y : R) → p x ≡ true → p y ≡ true → le x y ≡ true)
      → (x : R) (ys : List R) → filter p (insert_before le x ys) ≡ filter p (x ∷ ys)
  insert_before-filter le p e x [] = refl
  insert_before-filter le p e x (y ∷ ys) = ground (arith, insert_before-filter le p e x ys, e x y)

  pub insertion_sort-IsStable :
      (le : R → R → Bool) (xs : List R) → IsStable le xs (insertion_sort le xs)
  insertion_sort-IsStable le [] p e = refl
  insertion_sort-IsStable le (x ∷ xs) p e =
      insert_before-filter le p e x (insertion_sort le xs)
      ∙ ap (λ r. if p x then x ∷ r else r) (insertion_sort-IsStable le xs p e)

  -- Elements that may stand before all others only among themselves end up last, in their order.
  abbrev pub IsLast : (R → R → Bool) → (R → Bool) → Type 0
  IsLast le last =
      (x y : R)
      → (last y ≡ true → le x y ≡ true) × (last x ≡ true → last y ≡ false → le x y ≡ false)

  insert_before-append :
      (le : R → R → Bool) (last : R → Bool)
      → IsLast le last
      → (x : R) (ys zs : List R) → All (λ y. last y ≡ false) ys
      → All (λ z. last z ≡ true) zs
      → insert_before le x (ys ++ zs)
        ≡ (if last x then ys ++ x ∷ zs else insert_before le x ys ++ zs)
  insert_before-append le last l x [] [] hy hz = ground arith
  insert_before-append le last l x [] (z ∷ zs) hy hz = ground (arith, l x z)
  insert_before-append le last l x (y ∷ ys) zs hy hz =
      ground (arith, insert_before-append le last l x ys zs hy.1 hz, l x y)

  insertion_sort-All :
      (le : R → R → Bool) (P : R → Type 0) (xs : List R) → All P xs → All P (insertion_sort le xs)
  insertion_sort-All le P [] h = tt
  insertion_sort-All le P (x ∷ xs) h =
      insert_before-All le P x (insertion_sort le xs) h.0 (insertion_sort-All le P xs h.1)

  filter-All : (p : R → Bool) (xs : List R) → All (λ x. p x ≡ true) (filter p xs)
  filter-All p [] = tt
  filter-All p (x ∷ xs) = go (p x) refl (filter-All p xs)
    where
      go :
          (b : Bool)
          → p x ≡ b
          → All (λ x. p x ≡ true) (filter p xs)
          → All (λ x. p x ≡ true) (if b then x ∷ filter p xs else filter p xs)
      go true q ih = (q, ih)
      go false q ih = ih

  filter-not-All :
      (p : R → Bool) (xs : List R) → All (λ x. p x ≡ false) (filter (λ x. not (p x)) xs)
  filter-not-All p xs =
      All-map (filter (λ x. not (p x)) xs) (λ x h. ground (arith, h))
        (filter-All (λ x. not (p x)) xs)

  pub insertion_sort-append :
      (le : R → R → Bool) (last : R → Bool)
      → IsLast le last
      → (xs : List R)
      → insertion_sort le xs ≡ insertion_sort le (filter (λ x. not (last x)) xs) ++ filter last xs
  insertion_sort-append le last l [] = refl
  insertion_sort-append le last l (x ∷ xs) =
      ap (insert_before le x) (insertion_sort-append le last l xs)
      ∙ insert_before-append le last l x (insertion_sort le (filter (λ x. not (last x)) xs))
          (filter last xs)
          (insertion_sort-All le (λ x. last x ≡ false) (filter (λ x. not (last x)) xs)
            (filter-not-All last xs))
          (filter-All last xs)
      ∙ go (last x)
    where
      go :
          (b : Bool)
          → (if b
              then insertion_sort le (filter (λ x. not (last x)) xs) ++ x ∷ filter last xs
              else insert_before le x (insertion_sort le (filter (λ x. not (last x)) xs))
                ++ filter last xs)
            ≡ insertion_sort le
                (if not b then x ∷ filter (λ x. not (last x)) xs else filter (λ x. not (last x)) xs)
              ++ (if b then x ∷ filter last xs else filter last xs)
      go true = refl
      go false = refl
