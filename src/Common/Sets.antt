-- ===== src/Common/Sets.antt =====
-- A `BTreeSet` as the list of its elements in ascending order. The order of an enum is that of its
-- declaration, given by a function `rank` into the numbers.
use Prim.Native.Nat.{ℕ, ◌<◌, compare, Ordering}
use mathlib.Core.Path.{◌≡◌, refl}
use mathlib.Core.Bool.{Bool, false, ◌||◌, ◌&&◌, true, false}
use mathlib.Core.List.{List, [], ◌∷◌}
use native.Mathlib.Omega.{arith}
use workspace_atlas.Common.Tests.{◌==◌, if◌then◌else◌}
use workspace_atlas.Common.Lists.{Chain}

module _ {ℓ} {A : Type ℓ} (rank : A → ℕ) where
  -- `insert`: an element that is there already is kept.
  unfoldable pub set_insert : A → List A → List A
  set_insert x [] = x ∷ []
  set_insert x (y ∷ ys) = elim (compare (rank x) (rank y)) [
    | Ordering.lt ↦ x ∷ y ∷ ys
    | Ordering.eq ↦ y ∷ ys
    | Ordering.gt ↦ y ∷ set_insert x ys
  ]

  -- `contains`, on a vector or a set.
  abbrev pub contains : A → List A → Bool
  contains x [] = false
  contains x (y ∷ ys) = rank x == rank y || contains x ys

  -- `collect` into a set.
  unfoldable pub set_of : List A → List A
  unfolding set_insert
  set_of [] = []
  set_of (x ∷ xs) = set_insert x (set_of xs)

  abbrev pub Ascending : List A → Type 0
  Ascending = Chain (λ x y. rank x < rank y)

  pub set_insert-Ascending : (x : A) (xs : List A) → Ascending xs → Ascending (set_insert x xs)
  unfolding set_insert
  set_insert-Ascending x [] a = tt
  set_insert-Ascending x (y ∷ []) a = ground arith
  set_insert-Ascending x (y ∷ z ∷ xs) a = ground (arith, set_insert-Ascending x (z ∷ xs))

  pub contains-set_insert :
      (x y : A) (xs : List A) → contains x (set_insert y xs) ≡ (rank x == rank y || contains x xs)
  unfolding set_insert
  contains-set_insert x y [] = refl
  contains-set_insert x y (z ∷ xs) = ground (arith, contains-set_insert x y xs)

  pub set_of-Ascending : (xs : List A) → Ascending (set_of xs)
  unfolding set_of
  set_of-Ascending [] = tt
  set_of-Ascending (x ∷ xs) = set_insert-Ascending x (set_of xs) (set_of-Ascending xs)

  pub contains-set_of : (x : A) (xs : List A) → contains x (set_of xs) ≡ contains x xs
  unfolding set_of
  contains-set_of x [] = refl
  contains-set_of x (y ∷ ys) =
      ground (arith, contains-set_insert x y (set_of ys), contains-set_of x ys)

  -- A run of `if condition { set.insert(x); }`.
  unfoldable pub insert_each : List A → List (Bool × A) → List A
  unfolding set_insert
  insert_each s [] = s
  insert_each s ((condition, x) ∷ rest) = insert_each (if condition then set_insert x s else s) rest

  -- The element stands there under a condition that holds.
  abbrev pub listed : A → List (Bool × A) → Bool
  listed x [] = false
  listed x ((condition, y) ∷ rest) = (condition && rank x == rank y) || listed x rest

  pub insert_each-Ascending :
      (s : List A) (entries : List (Bool × A)) → Ascending s → Ascending (insert_each s entries)
  unfolding insert_each
  insert_each-Ascending s [] a = a
  insert_each-Ascending s ((true, x) ∷ rest) a =
      insert_each-Ascending (set_insert x s) rest (set_insert-Ascending x s a)
  insert_each-Ascending s ((false, x) ∷ rest) a = insert_each-Ascending s rest a

  pub contains-insert_each :
      (x : A) (s : List A) (entries : List (Bool × A))
      → contains x (insert_each s entries) ≡ (contains x s || listed x entries)
  unfolding insert_each
  contains-insert_each x s [] = ground arith
  contains-insert_each x s ((true, y) ∷ rest) =
      ground (arith, contains-insert_each x (set_insert y s) rest, contains-set_insert x y s)
  contains-insert_each x s ((false, y) ∷ rest) = contains-insert_each x s rest
