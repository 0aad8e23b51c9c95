-- ===== src/Prelude/Lists.antt =====
-- Lists under Boolean tests: the queries and updates that the tables and dictionaries are made of.
use Prim.Native.Nat.{ℕ, suc, ◌+◌, ◌≤◌}
use mathlib.Core.Path.{◌≡◌, refl, subst}
use mathlib.Core.Logic.{inl, inr}
use mathlib.Core.Bool.{Bool, true, false, ◌&&◌, ◌||◌}
use mathlib.Core.Option.{Option, none, some}
use mathlib.Core.List.{List, [], ◌∷◌, ◌++◌}
use native.Mathlib.Omega.{arith}
use inference_grid.Prelude.Tests.{if◌then◌else◌, Bool-cases}

module _ {ℓ} {A : Type ℓ} where
  abbrev pub length : List A → ℕ
  length [] = 0
  length (x ∷ xs) = suc (length xs)

  abbrev pub is_empty : List A → Bool
  is_empty [] = true
  is_empty (x ∷ xs) = false

  -- Python's `any(p(x) for x in xs)` and `all(...)`.
  abbrev pub any : (A → Bool) → List A → Bool
  any p [] = false
  any p (x ∷ xs) = p x || any p xs

  abbrev pub all : (A → Bool) → List A → Bool
  all p [] = true
  all p (x ∷ xs) = p x && all p xs

  -- `select ... where`.
  abbrev pub where_rows : (A → Bool) → List A → List A
  where_rows p [] = []
  where_rows p (x ∷ xs) = let rest = where_rows p xs in if p x then x ∷ rest else rest

  -- `.first()` of such a query.
  abbrev pub first : (A → Bool) → List A → Option A
  first p [] = none
  first p (x ∷ xs) = let rest = first p xs in if p x then some x else rest

  -- `update ... where ... values`.
  abbrev pub update_rows : (A → Bool) → (A → A) → List A → List A
  update_rows p f [] = []
  update_rows p f (x ∷ xs) = (if p x then f x else x) ∷ update_rows p f xs

  -- A predicate of every element, which computes to a tuple.
  abbrev pub All {κ} : (A → Type κ) → List A → Type κ
  All P [] = Unit
  All P (x ∷ xs) = P x × All P xs

  pub first-holds : (p : A → Bool) (xs : List A) (y : A) → first p xs ≡ some y → p y ≡ true
  first-holds p [] y h = cc
  first-holds p (x ∷ xs) y h = ground (arith, first-holds p xs y)

  pub length-where_rows-le : (p : A → Bool) (xs : List A) → length (where_rows p xs) ≤ length xs
  length-where_rows-le p [] = omega arith
  length-where_rows-le p (x ∷ xs) = ground (arith, length-where_rows-le p xs)

  pub length-append : (xs ys : List A) → length (xs ++ ys) ≡ length xs + length ys
  length-append [] ys = omega arith
  length-append (x ∷ xs) ys = omega (arith, length-append xs ys)

  -- What `first` finds, every element's predicate holds of.
  pub All-first {κ} :
      (P : A → Type κ) (p : A → Bool) (xs : List A) (y : A) → All P xs → first p xs ≡ some y → P y
  All-first P p [] y h e = cc
  All-first P p (x ∷ xs) y h e = elim (Bool-cases (p x)) [
    | inl found ↦ subst P (cc) h.0
    | inr passed ↦ All-first P p xs y h.1 (cc)
  ]

  pub first-any : (p : A → Bool) (xs : List A) (y : A) → first p xs ≡ some y → any p xs ≡ true
  first-any p [] y h = cc
  first-any p (x ∷ xs) y h = ground (arith, first-any p xs y)

  -- Where no element passes the test, an update changes nothing.
  pub update_rows_none :
      (p : A → Bool) (f : A → A) (xs : List A) → any p xs ≡ false → update_rows p f xs ≡ xs
  update_rows_none p f [] h = refl
  update_rows_none p f (x ∷ xs) h = ground (arith, update_rows_none p f xs)

  -- The row that a query finds, behind an update that keeps what the query asks for.
  pub first-update_rows :
      (q p : A → Bool) (f : A → A)
      → ((x : A) → q (f x) ≡ q x)
      → (xs : List A) (y : A) → first q xs ≡ some y
      → first q (update_rows p f xs) ≡ some (if p y then f y else y)
  first-update_rows q p f same [] y h = cc
  first-update_rows q p f same (x ∷ xs) y h =
      ground (arith, same x, first-update_rows q p f same xs y)

  pub length-where_rows_none :
      (p : A → Bool) (xs : List A) → any p xs ≡ false → length (where_rows p xs) ≡ 0
  length-where_rows_none p [] h = refl
  length-where_rows_none p (x ∷ xs) h = ground (arith, length-where_rows_none p xs)
