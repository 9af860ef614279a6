-- ===== src/Common/Slices.antt =====
-- Slices of a list by native positions: `get`, `[..n]` and `[n..]`.
use Prim.Native.Nat.{ℕ, zero, suc, ◌+◌, ◌-◌, ◌<◌, ◌≤◌}
use mathlib.Core.Path.{◌≡◌, refl, sym, ap, ◌∙◌}
use mathlib.Core.List.{List, [], ◌∷◌, ◌++◌}
use mathlib.Core.Option.{Option, none, some}
use native.Mathlib.Omega.{arith}
use workspace_atlas.Common.Lists.{length, head?}

module _ {ℓ} {A : Type ℓ} where
  unfoldable pub get_elem? : List A → ℕ → Option A
  get_elem? [] i = none
  get_elem? (x ∷ xs) zero = some x
  get_elem? (x ∷ xs) (suc i) = get_elem? xs i

  unfoldable pub take : ℕ → List A → List A
  take zero xs = []
  take (suc n) [] = []
  take (suc n) (x ∷ xs) = x ∷ take n xs

  unfoldable pub drop : ℕ → List A → List A
  drop zero xs = xs
  drop (suc n) [] = []
  drop (suc n) (x ∷ xs) = drop n xs

  pub get_elem?-head? : (xs : List A) (i : ℕ) → get_elem? xs i ≡ head? (drop i xs)
  unfolding get_elem? drop
  get_elem?-head? [] zero = refl
  get_elem?-head? [] (suc i) = refl
  get_elem?-head? (x ∷ xs) zero = refl
  get_elem?-head? (x ∷ xs) (suc i) = get_elem?-head? xs i

  drop-nil : (n : ℕ) → drop n [] ≡ []
  unfolding drop
  drop-nil zero = refl
  drop-nil (suc n) = refl

  pub drop-add : (m n : ℕ) (xs : List A) → drop (n + m) xs ≡ drop m (drop n xs)
  unfolding drop
  drop-add m zero xs = ap (λ k. drop k xs) (omega arith)
  drop-add m (suc n) [] = drop-nil (suc n + m) ∙ sym (drop-nil m)
  drop-add m (suc n) (x ∷ xs) = ap (λ k. drop k (x ∷ xs)) (suc_front n m) ∙ drop-add m n xs
    where
      suc_front : (a b : ℕ) → suc a + b ≡ suc (a + b)
      suc_front a b = omega arith

  pub length-drop : (n : ℕ) (xs : List A) → length (drop n xs) ≡ length xs - n
  unfolding drop
  length-drop zero xs = omega arith
  length-drop (suc n) [] = omega arith
  length-drop (suc n) (x ∷ xs) = omega (arith, length-drop n xs)

  pub length-take-le : (n : ℕ) (xs : List A) → length (take n xs) ≤ n
  unfolding take
  length-take-le zero xs = omega arith
  length-take-le (suc n) [] = omega arith
  length-take-le (suc n) (x ∷ xs) = omega (arith, length-take-le n xs)

  pub take-append : (xs ys : List A) → take (length xs) (xs ++ ys) ≡ xs
  unfolding take
  take-append [] ys = refl
  take-append (x ∷ xs) ys = rw (take-append xs ys) refl

  pub drop-append : (xs ys : List A) → drop (length xs) (xs ++ ys) ≡ ys
  unfolding drop
  drop-append [] ys = refl
  drop-append (x ∷ xs) ys = drop-append xs ys

  pub lt-length_of_get_elem? :
      (xs : List A) (i : ℕ) (x : A) → get_elem? xs i ≡ some x → i < length xs
  unfolding get_elem?
  lt-length_of_get_elem? [] i x h = absurd (ground arith)
  lt-length_of_get_elem? (y ∷ xs) zero x h = omega arith
  lt-length_of_get_elem? (y ∷ xs) (suc i) x h = omega (arith, lt-length_of_get_elem? xs i x h)
