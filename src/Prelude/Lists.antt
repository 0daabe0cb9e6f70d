-- ===== src/Prelude/Lists.antt =====
-- Lists measured by the native numbers and filtered by Boolean tests, and lists of keys.
use Prim.Native.Nat.{ℕ, zero, suc, ◌+◌, ◌-◌, ◌≤◌, min}
use Prim.Native.String.{String}
use mathlib.Core.Path.{◌≡◌, refl}
use mathlib.Core.Bool.{Bool, true, false, ◌&&◌, ◌||◌}
use mathlib.Core.Option.{Option, none, some}
use mathlib.Core.List.{List, [], ◌∷◌, ◌++◌}
use native.Mathlib.Omega.{arith}
use stock_dashboard.Prelude.Tests.{if◌then◌else◌, str_eq, str_eq_iff, str_eq_refl}

module _ {ℓ} {A : Type ℓ} where
  abbrev pub length : List A → ℕ
  length [] = 0
  length (x ∷ xs) = suc (length xs)

  abbrev pub get_elem? : List A → ℕ → Option A
  get_elem? [] i = none
  get_elem? (x ∷ xs) zero = some x
  get_elem? (x ∷ xs) (suc i) = get_elem? xs i

  abbrev pub take : ℕ → List A → List A
  take zero xs = []
  take (suc n) [] = []
  take (suc n) (x ∷ xs) = x ∷ take n xs

  abbrev pub drop : ℕ → List A → List A
  drop zero xs = xs
  drop (suc n) [] = []
  drop (suc n) (x ∷ xs) = drop n xs

  -- `Array.prototype.filter`, `some` and `find`.
  abbrev pub filter : (A → Bool) → List A → List A
  filter p [] = []
  filter p (x ∷ xs) = if p x then x ∷ filter p xs else filter p xs

  abbrev pub any : (A → Bool) → List A → Bool
  any p [] = false
  any p (x ∷ xs) = p x || any p xs

  abbrev pub find? : (A → Bool) → List A → Option A
  find? p [] = none
  find? p (x ∷ xs) = if p x then some x else find? p xs

  -- A predicate that holds of every element.
  abbrev pub All {κ} : (A → Type κ) → List A → Type κ
  All P [] = Unit
  All P (x ∷ xs) = P x × All P xs

  pub length-append : (xs ys : List A) → length (xs ++ ys) ≡ length xs + length ys
  length-append [] ys = omega arith
  length-append (x ∷ xs) ys = omega (arith, length-append xs ys)

  pub length-take : (n : ℕ) (xs : List A) → length (take n xs) ≡ min n (length xs)
  length-take zero xs = omega arith
  length-take (suc n) [] = omega arith
  length-take (suc n) (x ∷ xs) = omega (arith, length-take n xs)

  pub length-drop : (n : ℕ) (xs : List A) → length (drop n xs) ≡ length xs - n
  length-drop zero xs = omega arith
  length-drop (suc n) [] = omega arith
  length-drop (suc n) (x ∷ xs) = omega (arith, length-drop n xs)

  pub length-filter-le : (p : A → Bool) (xs : List A) → length (filter p xs) ≤ length xs
  length-filter-le p [] = omega arith
  length-filter-le p (x ∷ xs) = ground (arith, length-filter-le p xs)

  pub drop-append : (n : ℕ) (xs ys : List A) → n ≤ length xs → drop n (xs ++ ys) ≡ drop n xs ++ ys
  drop-append zero xs ys h = refl
  drop-append (suc n) [] ys h = absurd (omega arith)
  drop-append (suc n) (x ∷ xs) ys h = drop-append n xs ys (omega arith)

-- `new Set(keys).has(k)` and `keys.includes(k)`.
abbrev pub contains : String → List String → Bool
contains k [] = false
contains k (j ∷ js) = str_eq j k || contains k js

-- No key stands twice.
abbrev pub IsNodup : List String → Type 0
IsNodup [] = Unit {0}
IsNodup (k ∷ ks) = (contains k ks ≡ false) × IsNodup ks

pub contains-append :
    (k : String) (xs ys : List String) → contains k (xs ++ ys) ≡ (contains k xs || contains k ys)
contains-append k [] ys = refl
contains-append k (x ∷ xs) ys = ground (arith, contains-append k xs ys)

-- A test that depends on the key alone filters membership.
pub contains-filter :
    (p : String → Bool) (k : String) (xs : List String)
    → contains k (filter p xs) ≡ (contains k xs && p k)
contains-filter p k [] = refl
contains-filter p k (x ∷ xs) = ground (arith, contains-filter p k xs, str_eq_iff x k)

pub IsNodup-filter : (p : String → Bool) (xs : List String) → IsNodup xs → IsNodup (filter p xs)
IsNodup-filter p [] d = tt
IsNodup-filter p (x ∷ xs) d = ground (arith, contains-filter p x xs, IsNodup-filter p xs)

pub IsNodup-drop : (n : ℕ) (xs : List String) → IsNodup xs → IsNodup (drop n xs)
IsNodup-drop zero xs d = d
IsNodup-drop (suc n) [] d = tt
IsNodup-drop (suc n) (x ∷ xs) d = IsNodup-drop n xs d.1

pub IsNodup-append :
    (xs ys : List String)
    → IsNodup xs
    → IsNodup ys
    → ((k : String) → contains k xs ≡ true → contains k ys ≡ false)
    → IsNodup (xs ++ ys)
IsNodup-append [] ys dx dy h = dy
IsNodup-append (x ∷ xs) ys dx dy h = (
  ground (arith, contains-append x xs ys, h x (rw (str_eq_refl x))),
  IsNodup-append xs ys dx.1 dy (λ k m. h k (ground arith)),
)

-- How often a key stands in a list.
abbrev pub count : String → List String → ℕ
count k [] = 0
count k (j ∷ js) = if str_eq j k then suc (count k js) else count k js

pub count-append : (k : String) (xs ys : List String) → count k (xs ++ ys) ≡ count k xs + count k ys
count-append k [] ys = omega arith
count-append k (x ∷ xs) ys = ground (arith, count-append k xs ys)

pub count_absent : (k : String) (xs : List String) → contains k xs ≡ false → count k xs ≡ 0
count_absent k [] h = refl
count_absent k (x ∷ xs) h = ground (arith, count_absent k xs)

pub count_nodup : (k : String) (xs : List String) → IsNodup xs → count k xs ≤ 1
count_nodup k [] d = omega arith
count_nodup k (x ∷ xs) d = ground (arith, count_nodup k xs, count_absent k xs, str_eq_iff x k)
