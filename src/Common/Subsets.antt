-- ===== src/Common/Subsets.antt =====
-- Sizes of sets that are ascending lists: a subset is no larger, and of the same size only if it is
-- the whole set. How often a list names an element.
use workspace_atlas.Common.Tests.{◌==◌, if◌then◌else◌, Bool-cases}
use workspace_atlas.Common.Lists.{length}
use workspace_atlas.Common.Sets.{
  set_insert, contains, set_of, Ascending, set_insert-Ascending, contains-set_insert,
  set_of-Ascending, contains-set_of,
}
use Prim.Native.Nat.{ℕ, zero, suc, ◌+◌, ◌<◌, ◌≤◌}
use mathlib.Core.Path.{◌≡◌, refl}
use mathlib.Core.Logic.{inl, inr}
use mathlib.Core.Bool.{true, false, ◌||◌}
use mathlib.Core.List.{List, [], ◌∷◌}
use native.Mathlib.Omega.{arith}

module _ {ℓ} {A : Type ℓ} (rank : A → ℕ) where
  abbrev pub Subset : List A → List A → Type ℓ
  Subset xs ys = (z : A) → contains rank z xs ≡ true → contains rank z ys ≡ true

  -- The union of two sets.
  abbrev pub set_union : List A → List A → List A
  set_union [] ys = ys
  set_union (x ∷ xs) ys = set_insert rank x (set_union xs ys)

  tail-Ascending : (x : A) (xs : List A) → Ascending rank (x ∷ xs) → Ascending rank xs
  tail-Ascending x [] a = tt
  tail-Ascending x (y ∷ xs) a = a.1

  Ascending-above :
      (x z : A) (xs : List A)
      → Ascending rank (x ∷ xs)
      → contains rank z xs ≡ true
      → rank x < rank z
  Ascending-above x z [] a h = cc
  Ascending-above x z (y ∷ xs) a h = ground (arith, Ascending-above y z xs)

  Ascending-new : (x : A) (xs : List A) → Ascending rank (x ∷ xs) → contains rank x xs ≡ false
  Ascending-new x xs a = elim (Bool-cases (contains rank x xs)) [
    | inl e ↦ absurd (omega (arith, Ascending-above x x xs a e))
    | inr e ↦ e
  ]

  length-set_insert :
      (x : A) (xs : List A)
      → contains rank x xs ≡ false
      → length (set_insert rank x xs) ≡ suc (length xs)
  unfolding set_insert
  length-set_insert x [] h = refl
  length-set_insert x (y ∷ xs) h = ground (arith, length-set_insert x xs)

  Subset-tails :
      (x y : A) (xs ys : List A)
      → Ascending rank (x ∷ xs)
      → rank x ≡ rank y
      → Subset (x ∷ xs) (y ∷ ys)
      → Subset xs ys
  Subset-tails x y xs ys a e s z h = ground (arith, Ascending-above x z xs a h, s z)

  Subset-skip :
      (x y : A) (xs ys : List A)
      → Ascending rank (x ∷ xs)
      → rank y < rank x
      → Subset (x ∷ xs) (y ∷ ys)
      → Subset (x ∷ xs) ys
  Subset-skip x y xs ys a e s z h = ground (arith, Ascending-above x z xs a, s z h)

  contains_refl : (x : A) (xs : List A) → contains rank x (x ∷ xs) ≡ true
  contains_refl x xs = ground arith

  pub length-Subset :
      (xs ys : List A)
      → Ascending rank xs
      → Ascending rank ys
      → Subset xs ys
      → length xs ≤ length ys
  length-Subset [] ys a b s = omega arith
  length-Subset (x ∷ xs) [] a b s = absurd (ground (arith, s x (contains_refl x xs)))
  length-Subset (x ∷ xs) (y ∷ ys) a b s = elim (Bool-cases (rank x == rank y)) [
    | inl e ↦
        let rest =
          length-Subset xs ys (tail-Ascending x xs a) (tail-Ascending y ys b)
            (Subset-tails x y xs ys a (ground arith) s) in
        omega (arith, rest)
    | inr e ↦
        let later : contains rank x ys ≡ true = ground (arith, s x (contains_refl x xs)) in
        let rest =
          length-Subset (x ∷ xs) ys a (tail-Ascending y ys b)
            (Subset-skip x y xs ys a (Ascending-above y x ys b later) s) in
        omega (arith, rest)
  ]

  contains-same :
      (z k : A) (ys : List A) → rank z ≡ rank k → contains rank z ys ≡ contains rank k ys
  contains-same z k [] e = refl
  contains-same z k (y ∷ ys) e = ground (arith, contains-same z k ys)

  -- A subset that leaves an element out is smaller.
  pub length-Subset-strict :
      (xs ys : List A) (k : A)
      → Ascending rank xs
      → Ascending rank ys
      → Subset xs ys
      → contains rank k ys ≡ true
      → contains rank k xs ≡ false
      → length xs < length ys
  length-Subset-strict xs ys k a b s h n =
      let larger =
        length-Subset (set_insert rank k xs) ys (set_insert-Ascending rank k xs a) b
          (λ z q. ground (arith, contains-set_insert rank z k xs, contains-same z k ys, s z)) in
      omega (arith, length-set_insert k xs n, larger)

  pub set_union-Ascending : (xs ys : List A) → Ascending rank ys → Ascending rank (set_union xs ys)
  set_union-Ascending [] ys b = b
  set_union-Ascending (x ∷ xs) ys b =
      set_insert-Ascending rank x (set_union xs ys) (set_union-Ascending xs ys b)

  pub contains-set_union :
      (z : A) (xs ys : List A)
      → contains rank z (set_union xs ys) ≡ (contains rank z xs || contains rank z ys)
  contains-set_union z [] ys = refl
  contains-set_union z (x ∷ xs) ys =
      ground (arith, contains-set_insert rank z x (set_union xs ys), contains-set_union z xs ys)

  pub length-set_union :
      (xs ys : List A)
      → Ascending rank xs
      → ((z : A) → contains rank z xs ≡ true → contains rank z ys ≡ false)
      → length (set_union xs ys) ≡ length xs + length ys
  length-set_union [] ys a d = omega arith
  length-set_union (x ∷ xs) ys a d =
      let new : contains rank x (set_union xs ys) ≡ false =
        ground
          (arith, contains-set_union x xs ys, Ascending-new x xs a, d x (contains_refl x xs)) in
      let rest = length-set_union xs ys (tail-Ascending x xs a) (λ z q. d z (ground arith)) in
      omega (arith, length-set_insert x (set_union xs ys) new, rest)

  -- How often the element is listed.
  abbrev pub times : A → List A → ℕ
  times z [] = zero
  times z (x ∷ xs) = let rest = times z xs in if rank z == rank x then suc rest else rest

  pub times-absent :
      (z x : A) (xs : List A) → rank z ≡ rank x → contains rank x xs ≡ false → times z xs ≡ 0
  times-absent z x [] e h = refl
  times-absent z x (y ∷ xs) e h = ground (arith, times-absent z x xs e)

  pub times-contains : (z : A) (xs : List A) → contains rank z xs ≡ true → 1 ≤ times z xs
  times-contains z [] h = cc
  times-contains z (x ∷ xs) h = ground (arith, times-contains z xs)

  length-set_insert-once :
      (x : A) (xs : List A)
      → Ascending rank xs
      → suc (length xs) ≤ length (set_insert rank x xs)
      → contains rank x xs ≡ false
  unfolding set_insert
  length-set_insert-once x [] a h = refl
  length-set_insert-once x (y ∷ xs) a h = elim (Bool-cases (contains rank x xs)) [
    | inl e ↦ absurd (ground (arith, Ascending-above y x xs a e, length-set_insert-once x xs))
    | inr e ↦ ground arith
  ]

  length-set_insert-bound : (x : A) (xs : List A) → length (set_insert rank x xs) ≤ suc (length xs)
  unfolding set_insert
  length-set_insert-bound x [] = omega arith
  length-set_insert-bound x (y ∷ xs) = ground (arith, length-set_insert-bound x xs)

  length-set_of : (xs : List A) → length (set_of rank xs) ≤ length xs
  unfolding set_of
  length-set_of [] = omega arith
  length-set_of (x ∷ xs) =
      omega (arith, length-set_insert-bound x (set_of rank xs), length-set_of xs)

  -- A list that its set does not shorten lists nothing twice.
  pub times-set_of : (z : A) (xs : List A) → length (set_of rank xs) ≡ length xs → times z xs ≤ 1
  unfolding set_of
  times-set_of z [] h = omega arith
  times-set_of z (x ∷ xs) h =
      let new : contains rank x xs ≡ false = ground (
        arith,
        contains-set_of rank x xs,
        length-set_of xs,
        length-set_insert-once x (set_of rank xs) (set_of-Ascending rank xs),
      ) in
      let rest =
        times-set_of z xs
          (omega (arith, h, length-set_of xs, length-set_insert-bound x (set_of rank xs))) in
      elim (Bool-cases (rank z == rank x)) [
        | inl e ↦ ground (arith, times-absent z x xs (ground arith) new)
        | inr e ↦ ground (arith, rest)
      ]
