-- ===== src/Frontend/SortableRows/Laws.antt =====
-- The table is sorted stably by the chosen column, with the blank rows last.
use stock_dashboard.Prelude.{
  ℕ, ◌+◌, ◌<◌, String, ◌≡◌, refl, sym, ap, ◌∙◌, Bool, true, false, not, ◌&&◌, ◌||◌, List, [], ◌∷◌,
  ◌++◌, map, arith, ltb, if◌then◌else◌, filter, All,
}
use mathlib.Core.Bool.{true≢false}
use stock_dashboard.Prelude.Int.{ℤ, pos, negsuc, ◌-ℤ◌, sub_ℕ, neg_part, eq_ℤ}
use stock_dashboard.Frontend.SortableRows.{
  Cell, null, number, text, is_blank, Dir, asc, desc, times_dir, is_positive, insert, sort, Entry,
  decorate, compare, comparator, sort_by,
}
use stock_dashboard.Frontend.SortableRows.Stable.{
  IsStableSort, IsOrder, insert_before, insertion_sort, insertion_sort-Perm,
  insertion_sort-IsSorted, insertion_sort-IsStable, insertion_sort-append,
}

module _ (collate : String → String → ℤ) (string_of : ℤ → String) where
  -- A cell may stand before another: blanks last, and else by the direction.
  abbrev pub is_before : Dir → Cell → Cell → Bool
  is_before dir a b =
      is_blank b
      || (not (is_blank a) && not (is_positive (times_dir dir (compare collate string_of a b))))

  module _ {R : Type 0} (accessor : R → Cell) (dir : Dir) where
    abbrev pub row_is_before : R → R → Bool
    row_is_before a b = is_before dir (accessor a) (accessor b)

    comparator-is_before :
        (a b : Entry R)
        → a.index < b.index
        → is_positive (comparator collate string_of accessor dir a b)
          ≡ not (row_is_before a.row b.row)
    comparator-is_before a b h =
        go dir (compare collate string_of (accessor a.row) (accessor b.row))
          (is_blank (accessor a.row)) (is_blank (accessor b.row))
      where
        go :
            (dir : Dir) (c : ℤ) (u v : Bool)
            → is_positive (
                if u && v
                then sub_ℕ a.index b.index
                else if u
                then pos 1
                else if v
                then negsuc 0
                else if not (eq_ℤ c (pos 0))
                then times_dir dir c
                else sub_ℕ a.index b.index)
              ≡ not (v || (not u && not (is_positive (times_dir dir c))))
        go dir c true true = ground arith
        go dir c true false = ground arith
        go dir c false true = ground arith
        go asc c false false = ground arith
        go desc c false false = ground arith

    insert-insert_before :
        (a : Entry R) (es : List (Entry R))
        → All (λ e. a.index < e.index) es
        → map (λ e. e.row) (insert (comparator collate string_of accessor dir) a es)
          ≡ insert_before row_is_before a.row (map (λ e. e.row) es)
    insert-insert_before a [] h = refl
    insert-insert_before a (e ∷ es) h =
        ground (arith, insert-insert_before a es h.1, comparator-is_before a e h.0)

    insert-All :
        (P : Entry R → Type 0) (a : Entry R) (es : List (Entry R))
        → P a
        → All P es
        → All P (insert (comparator collate string_of accessor dir) a es)
    insert-All P a [] h hs = (h, tt)
    insert-All P a (e ∷ es) h hs =
        go (insert-All P a es h hs.1) (is_positive (comparator collate string_of accessor dir a e))
      where
        go :
            All P (insert (comparator collate string_of accessor dir) a es)
            → (b : Bool)
            → All P (
                if b
                then e ∷ insert (comparator collate string_of accessor dir) a es
                else a ∷ e ∷ es)
        go ih true = (hs.0, ih)
        go ih false = (h, hs)

    sort-decorate-All :
        (n i : ℕ) (rows : List R)
        → n < i
        → All
            (λ e. n < e.index)
            (sort (comparator collate string_of accessor dir) (decorate i rows))
    sort-decorate-All n i [] h = tt
    sort-decorate-All n i (r ∷ rs) h =
        insert-All (λ e. n < e.index) (record { row = r; index = i })
          (sort (comparator collate string_of accessor dir) (decorate (i + 1) rs)) h
          (sort-decorate-All n (i + 1) rs (omega (arith, h)))

    -- The positions carried along give the stable insertion by the rows alone.
    sort-insertion_sort :
        (i : ℕ) (rows : List R)
        → map (λ e. e.row) (sort (comparator collate string_of accessor dir) (decorate i rows))
          ≡ insertion_sort row_is_before rows
    sort-insertion_sort i [] = refl
    sort-insertion_sort i (r ∷ rs) =
        insert-insert_before (record { row = r; index = i })
          (sort (comparator collate string_of accessor dir) (decorate (i + 1) rs))
          (sort-decorate-All i (i + 1) rs (omega arith))
        ∙ ap (insert_before row_is_before r) (sort-insertion_sort (i + 1) rs)

    -- The blank rows come last, in the order they had, whichever way the others are sorted: these
    -- are sorted as if the blank ones were not there.
    pub sort_by-filter :
        (rows : List R)
        → sort_by collate string_of accessor dir rows
          ≡ sort_by collate string_of accessor dir (filter (λ r. not (is_blank (accessor r))) rows)
            ++ filter (λ r. is_blank (accessor r)) rows
    unfolding sort_by
    sort_by-filter rows =
        sort-insertion_sort 0 rows
        ∙ insertion_sort-append row_is_before (λ r. is_blank (accessor r))
            (λ a b. (λ q. ground (arith, q), λ q w. ground (arith, q, w))) rows
        ∙ ap (λ xs. xs ++ filter (λ r. is_blank (accessor r)) rows)
            (sym (sort-insertion_sort 0 (filter (λ r. not (is_blank (accessor r))) rows)))

-- A column holds numbers, or texts, or nothing.
abbrev pub fits : Bool → Cell → Bool
fits numeric null = true
fits numeric (number n) = numeric
fits numeric (text s) = not numeric

abbrev pub is_negative : ℤ → Bool
is_negative c = ltb 0 (neg_part c)

-- `localeCompare` orders the strings consistently.
pub record IsCollation (collate : String → String → ℤ) : Type 0 where
  pub flips : (s t : String) → is_positive (collate t s) ≡ is_negative (collate s t)
  pub trans :
      (s t u : String)
      → is_positive (collate s t) ≡ false
      → is_positive (collate t u) ≡ false
      → is_positive (collate s u) ≡ false

module _ (collate : String → String → ℤ) (string_of : ℤ → String) (law : IsCollation collate) where
  compare_flips :
      (a b : Cell)
      → is_positive (compare collate string_of b a) ≡ is_negative (compare collate string_of a b)
  unfolding ◌-ℤ◌
  compare_flips (number m) (number n) = ground arith
  compare_flips null null = law.flips "null" "null"
  compare_flips null (number n) = law.flips "null" (string_of n)
  compare_flips null (text t) = law.flips "null" t
  compare_flips (text s) null = law.flips s "null"
  compare_flips (text s) (number n) = law.flips s (string_of n)
  compare_flips (text s) (text t) = law.flips s t
  compare_flips (number m) null = law.flips (string_of m) "null"
  compare_flips (number m) (text s) = law.flips (string_of m) s

  compare_trans :
      (numeric : Bool) (a b c : Cell)
      → fits numeric a ≡ true
      → fits numeric b ≡ true
      → fits numeric c ≡ true
      → is_blank a ≡ false
      → is_blank b ≡ false
      → is_blank c ≡ false
      → is_positive (compare collate string_of a b) ≡ false
      → is_positive (compare collate string_of b c) ≡ false
      → is_positive (compare collate string_of a c) ≡ false
  unfolding ◌-ℤ◌
  compare_trans true (number l) (number m) (number n) fa fb fc ba bb bc p q = ground (arith, p, q)
  compare_trans false (text s) (text t) (text u) fa fb fc ba bb bc p q = law.trans s t u p q
  compare_trans false null b c fa fb fc ba bb bc p q = absurd (true≢false (ba))
  compare_trans false (number l) b c fa fb fc ba bb bc p q = absurd (true≢false (sym fa))
  compare_trans false (text s) null c fa fb fc ba bb bc p q = absurd (true≢false (bb))
  compare_trans false (text s) (number m) c fa fb fc ba bb bc p q = absurd (true≢false (sym fb))
  compare_trans false (text s) (text t) null fa fb fc ba bb bc p q = absurd (true≢false (bc))
  compare_trans false (text s) (text t) (number n) fa fb fc ba bb bc p q =
      absurd (true≢false (sym fc))
  compare_trans true null b c fa fb fc ba bb bc p q = absurd (true≢false (ba))
  compare_trans true (number l) null c fa fb fc ba bb bc p q = absurd (true≢false (bb))
  compare_trans true (number l) (number m) null fa fb fc ba bb bc p q = absurd (true≢false (bc))
  compare_trans true (number l) (number m) (text u) fa fb fc ba bb bc p q =
      absurd (true≢false (sym fc))
  compare_trans true (number l) (text t) c fa fb fc ba bb bc p q = absurd (true≢false (sym fb))
  compare_trans true (text s) b c fa fb fc ba bb bc p q = absurd (true≢false (sym fa))

  module _ {R : Type 0} (accessor : R → Cell) (dir : Dir) where
    is_before-IsOrder :
        (numeric : Bool)
        → ((r : R) → fits numeric (accessor r) ≡ true)
        → IsOrder (row_is_before collate string_of accessor dir)
    is_before-IsOrder numeric u = record {
      total = λ x y h. total dir (accessor x) (accessor y) h;
      trans =
          λ x y z h k. transitive dir (accessor x) (accessor y) (accessor z) (u x) (u y) (u z) h k;
    }
      where
        total :
            (dir : Dir) (a b : Cell)
            → is_before collate string_of dir a b ≡ false
            → is_before collate string_of dir b a ≡ true
        total asc a b h = ground (arith, h, compare_flips a b)
        total desc a b h = ground (arith, h, compare_flips b a)

        transitive :
            (dir : Dir) (a b c : Cell)
            → fits numeric a ≡ true
            → fits numeric b ≡ true
            → fits numeric c ≡ true
            → is_before collate string_of dir a b ≡ true
            → is_before collate string_of dir b c ≡ true
            → is_before collate string_of dir a c ≡ true
        transitive asc a b c fa fb fc h k =
            ground (arith, h, k, compare_trans numeric a b c fa fb fc)
        transitive desc a b c fa fb fc h k = ground (
          arith,
          h,
          k,
          compare_trans numeric c b a fc fb fa,
          compare_flips a b,
          compare_flips b c,
          compare_flips a c,
          compare_flips b a,
          compare_flips c b,
          compare_flips c a,
        )

    -- With a `localeCompare` that orders the strings consistently and a column of numbers or one of
    -- texts (some of them missing), the sort is the stable sort by the column: a permutation of the
    -- rows, in which no row stands after one it has to come before, and rows that compare the same
    -- keep the order they had.
    pub sort_by-IsStableSort :
        (numeric : Bool)
        → ((r : R) → fits numeric (accessor r) ≡ true)
        → (rows : List R)
        → IsStableSort
            (row_is_before collate string_of accessor dir)
            rows
            (sort_by collate string_of accessor dir rows)
    unfolding sort_by
    sort_by-IsStableSort numeric u rows =
        rw (sort-insertion_sort collate string_of accessor dir 0 rows) (record {
          permutes = insertion_sort-Perm (row_is_before collate string_of accessor dir) rows;
          sorted =
              insertion_sort-IsSorted (row_is_before collate string_of accessor dir)
                (is_before-IsOrder numeric u) rows;
          stable = insertion_sort-IsStable (row_is_before collate string_of accessor dir) rows;
        })
