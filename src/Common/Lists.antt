-- ===== src/Common/Lists.antt =====
-- Lists measured by native numbers, Boolean quantifiers over them, and adjacent pairs.
use Prim.Native.Nat.{ℕ, suc, ◌+◌}
use mathlib.Core.Path.{◌≡◌, refl}
use mathlib.Core.Bool.{Bool, true, false, ◌&&◌, ◌||◌}
use mathlib.Core.List.{List, [], ◌∷◌, ◌++◌}
use mathlib.Core.Option.{Option, none, some}
use native.Mathlib.Omega.{arith}

module _ {ℓ} {A : Type ℓ} where
  abbrev pub length : List A → ℕ
  length [] = 0
  length (x ∷ xs) = suc (length xs)

  -- `is_empty`.
  abbrev pub is_empty : List A → Bool
  is_empty [] = true
  is_empty (x ∷ xs) = false

  -- `first` and `last`.
  abbrev pub head? : List A → Option A
  head? [] = none
  head? (x ∷ xs) = some x

  unfoldable pub last? : List A → Option A
  last? [] = none
  last? (x ∷ []) = some x
  last? (x ∷ y ∷ xs) = last? (y ∷ xs)

  -- `iter().any(p)` and `iter().all(p)`.
  abbrev pub any : (A → Bool) → List A → Bool
  any p [] = false
  any p (x ∷ xs) = p x || any p xs

  abbrev pub all : (A → Bool) → List A → Bool
  all p [] = true
  all p (x ∷ xs) = p x && all p xs

  -- `windows(2).any(|pair| p(pair[0], pair[1]))`.
  abbrev pub any_adjacent : (A → A → Bool) → List A → Bool
  any_adjacent p [] = false
  any_adjacent p (x ∷ []) = false
  any_adjacent p (x ∷ y ∷ xs) = p x y || any_adjacent p (y ∷ xs)

  -- A predicate at every element.
  abbrev pub All {κ} : (A → Type κ) → List A → Type κ
  All P [] = Unit
  All P (x ∷ xs) = P x × All P xs

  -- A relation at every adjacent pair.
  abbrev pub Chain {κ} : (A → A → Type κ) → List A → Type κ
  Chain R [] = Unit
  Chain R (x ∷ []) = Unit
  Chain R (x ∷ y ∷ xs) = R x y × Chain R (y ∷ xs)

  pub All-append {κ} : (P : A → Type κ) (xs ys : List A) → All P xs → All P ys → All P (xs ++ ys)
  All-append P [] ys p q = q
  All-append P (x ∷ xs) ys p q = (p.0, All-append P xs ys p.1 q)

  pub length-append : (xs ys : List A) → length (xs ++ ys) ≡ length xs + length ys
  length-append [] ys = omega arith
  length-append (x ∷ xs) ys = omega (arith, length-append xs ys)

  pub last?-append : (xs : List A) (y : A) → last? (xs ++ y ∷ []) ≡ some y
  unfolding last?
  last?-append [] y = refl
  last?-append (x ∷ []) y = refl
  last?-append (x ∷ z ∷ xs) y = last?-append (z ∷ xs) y

module _ {ℓ κ} {A : Type ℓ} {P : A → Type κ} (p : A → Bool) where
  -- A quantifier that succeeds gives the predicate that its test establishes.
  pub All-of_all : (sound : (x : A) → p x ≡ true → P x) (xs : List A) → all p xs ≡ true → All P xs
  All-of_all sound [] h = tt
  All-of_all sound (x ∷ xs) h = ground (arith, sound x, All-of_all sound xs)

  pub All-of_any : (sound : (x : A) → p x ≡ false → P x) (xs : List A) → any p xs ≡ false → All P xs
  All-of_any sound [] h = tt
  All-of_any sound (x ∷ xs) h = ground (arith, sound x, All-of_any sound xs)

module _ {ℓ κ} {A : Type ℓ} {R : A → A → Type κ} (p : A → A → Bool) where
  pub Chain-of_any_adjacent :
      (sound : (x y : A) → p x y ≡ false → R x y) (xs : List A)
      → any_adjacent p xs ≡ false
      → Chain R xs
  Chain-of_any_adjacent sound [] h = tt
  Chain-of_any_adjacent sound (x ∷ []) h = tt
  Chain-of_any_adjacent sound (x ∷ y ∷ xs) h =
      ground (arith, sound x y, Chain-of_any_adjacent sound (y ∷ xs))
