-- ===== src/Frontend/LocalOrder/Laws.antt =====
-- A saved order hides and invents nothing, and a move puts an item where it was asked to go.
use stock_dashboard.Prelude.{
  ℕ, zero, suc, ◌+◌, ◌≤◌, String, ◌≡◌, refl, sym, ap, ◌∙◌, Bool, true, false, Option, none, some,
  List, [], ◌∷◌, ◌++◌, arith, ◌==◌, if◌then◌else◌, str_eq, str_eq_iff, str_eq_refl, length,
  get_elem?, contains, IsNodup, count, count-append, count_nodup,
}
use stock_dashboard.Prelude.Int.{ℤ}
use stock_dashboard.Frontend.LocalOrder.{
  Item, ids, map_set, by_id, map_get, map_delete, place, ordered, index_of, remove_at, insert_at,
  target, move_by,
}

contains_uncounted : (k : String) (xs : List String) → count k xs ≡ 0 → contains k xs ≡ false
contains_uncounted k [] e = refl
contains_uncounted k (x ∷ xs) e = ground (arith, contains_uncounted k xs)

module _ {A : Type 0} where
  pub map_set_new :
      (x : Item A) (ys : List (Item A))
      → contains x.id (ids ys) ≡ false
      → map_set x ys ≡ ys ++ x ∷ []
  map_set_new x [] h = refl
  map_set_new x (y ∷ ys) h = ground (arith, map_set_new x ys)

  count-map_delete :
      (k id : String) (xs : List (Item A)) {x : Item A}
      → map_get id xs ≡ some x
      → count k (ids xs) ≡ count k (x.id ∷ ids (map_delete id xs))
  count-map_delete k id [] e = cc
  count-map_delete k id (y ∷ ys) {x} e = ground (arith, count-map_delete k id ys {x = x})

  pub ids-append : (xs ys : List (Item A)) → ids (xs ++ ys) ≡ ids xs ++ ids ys
  ids-append [] ys = refl
  ids-append (x ∷ xs) ys = ap (x.id ∷◌) (ids-append xs ys)

  count-place :
      (k : String) (order : List String) (rest known : List (Item A))
      → count k (ids (place order rest known)) ≡ count k (ids rest) + count k (ids known)
  unfolding place
  count-place k [] rest known =
      ap (count k) (ids-append rest known) ∙ count-append k (ids rest) (ids known)
  count-place k (id ∷ order) rest known = go (count-place k order) (map_get id rest) refl
    where
      go :
          ((r n : List (Item A))
            → count k (ids (place order r n)) ≡ count k (ids r) + count k (ids n))
          → (o : Option (Item A)) → map_get id rest ≡ o
          → count k (
              ids (elim o [
                | none ↦ place order rest known
                | some x ↦ place order (map_delete id rest) (known ++ x ∷ [])
              ]))
            ≡ count k (ids rest) + count k (ids known)
      go earlier none e = earlier rest known
      go earlier (some x) e =
          earlier (map_delete id rest) (known ++ x ∷ [])
          ∙ ground (
            arith,
            count-map_delete k id rest e,
            ids-append known (x ∷ []),
            ap (count k) (ids-append known (x ∷ [])),
            count-append k (ids known) (x.id ∷ []),
          )

  count-by_id :
      (k : String) (acc items : List (Item A))
      → ((j : String) → count j (ids acc) + count j (ids items) ≤ 1)
      → count k (ids (by_id acc items)) ≡ count k (ids acc) + count k (ids items)
  unfolding by_id
  count-by_id k acc [] h = omega arith
  count-by_id k acc (x ∷ xs) h =
      ap (λ m. count k (ids (by_id m xs))) new
      ∙ count-by_id k (acc ++ x ∷ []) xs (λ j. ground (arith, h j, spread_out j))
      ∙ ground (arith, spread_out k)
    where
      new : map_set x acc ≡ acc ++ x ∷ []
      new =
          map_set_new x acc
            (contains_uncounted x.id (ids acc) (ground (arith, h x.id, str_eq_refl x.id)))

      spread_out :
          (j : String) → count j (ids (acc ++ x ∷ [])) ≡ count j (ids acc) + count j (x.id ∷ [])
      spread_out j = ap (count j) (ids-append acc (x ∷ [])) ∙ count-append j (ids acc) (x.id ∷ [])

  -- However the saved order reads, the list it yields holds every id as often as the server's list,
  -- when no id stands twice in that one: no row is hidden and none is shown twice.
  pub count-ordered :
      (k : String) (order : List String) (items : List (Item A))
      → IsNodup (ids items)
      → count k (ids (ordered order items)) ≡ count k (ids items)
  unfolding ordered
  count-ordered k [] items d = refl
  count-ordered k (id ∷ order) items d =
      count-place k (id ∷ order) (by_id [] items) []
      ∙ omega (arith, count-by_id k [] items (λ j. omega (arith, count_nodup j (ids items) d)))

get_elem?-insert_at :
    (i : ℕ) (y : String) (xs : List String)
    → i ≤ length xs
    → get_elem? (insert_at i y xs) i ≡ some y
get_elem?-insert_at zero y xs h = refl
get_elem?-insert_at (suc i) y [] h = absurd (omega arith)
get_elem?-insert_at (suc i) y (x ∷ xs) h = get_elem?-insert_at i y xs (omega arith)

count-insert_at :
    (k : String) (i : ℕ) (y : String) (xs : List String)
    → count k (insert_at i y xs) ≡ count k (y ∷ xs)
count-insert_at k zero y xs = refl
count-insert_at k (suc i) y [] = refl
count-insert_at k (suc i) y (x ∷ xs) = ground (arith, count-insert_at k i y xs)

-- The step of `index_of`: found at the head, or one later than in the tail.
found_first :
    (b : Bool) (o : Option ℕ)
    → if◌then◌else◌ {A = Option ℕ} b (some 0) (elim o [ none ↦ none | some j ↦ some (suc j) ])
      ≡ some 0
    → b ≡ true
found_first true o e = refl
found_first false none e = absurd (cc)
found_first false (some j) e = absurd (ground arith)

found_later :
    (b : Bool) (o : Option ℕ) (i : ℕ)
    → if◌then◌else◌ {A = Option ℕ} b (some 0) (elim o [ none ↦ none | some j ↦ some (suc j) ])
      ≡ some (suc i)
    → o ≡ some i
found_later true o i e = absurd (ground arith)
found_later false none i e = absurd (cc)
found_later false (some j) i e = ground arith

-- What is removed at the place an id was found is that id.
count-remove_at :
    (k id : String) (list : List String) (i : ℕ)
    → index_of id list ≡ some i
    → (count k (id ∷ remove_at i list) ≡ count k list)
      × (suc (length (remove_at i list)) ≡ length list)
count-remove_at k id [] i e = absurd (cc)
count-remove_at k id (x ∷ xs) zero e = (
  ap (λ y. count k (y ∷ xs))
      (sym ((str_eq_iff x id).0 (found_first (str_eq x id) (index_of id xs) e))),
  refl,
)
count-remove_at k id (x ∷ xs) (suc i) e =
    ground (arith, count-remove_at k id xs i (found_later (str_eq x id) (index_of id xs) i e))

moved_from :
    (b : Bool) (r moved : List String)
    → if◌then◌else◌ {A = Option (List String)} b none (some r) ≡ some moved
    → moved ≡ r
moved_from true r moved e = absurd (cc)
moved_from false r moved e = cc

-- A move, when it makes one, puts the item at the clamped target and keeps every other id as often
-- as it was listed.
pub move_by_moves :
    (k id : String) (delta : ℤ) (list moved : List String)
    → move_by id delta list ≡ some moved
    → (from : ℕ) × (index_of id list ≡ some from)
      × (get_elem? moved (target (length list) from delta) ≡ some id)
      × (count k moved ≡ count k list)
unfolding move_by
move_by_moves k id delta list moved e = go (index_of id list) refl e
  where
    go :
        (o : Option ℕ)
        → index_of id list ≡ o
        → elim o [
          | none ↦ none
          | some from ↦
              if target (length list) from delta == from
              then none
              else some (insert_at (target (length list) from delta) id (remove_at from list))
        ]
          ≡ some moved
        → (from : ℕ) × (index_of id list ≡ some from)
          × (get_elem? moved (target (length list) from delta) ≡ some id)
          × (count k moved ≡ count k list)
    go none q e = absurd (cc)
    go (some from) q e = (
      from,
      q,
      ap (λ m. get_elem? m to) put
          ∙ get_elem?-insert_at to id (remove_at from list)
              (omega (arith, (count-remove_at k id list from q).1)),
      ap (count k) put
          ∙ count-insert_at k to id (remove_at from list)
          ∙ (count-remove_at k id list from q).0,
    )
      where
        to : ℕ
        to = target (length list) from delta

        put : moved ≡ insert_at to id (remove_at from list)
        put = moved_from (to == from) (insert_at to id (remove_at from list)) moved e
