-- ===== src/Common/Results.antt =====
-- `Result<A, E>` with `?` as bind.
use mathlib.Core.Path.{◌≡◌, refl}
use mathlib.Core.Logic.{◌⊎◌, inl, inr}
use mathlib.Core.Bool.{Bool, true, false}

pub data Result {ℓ} (E : Type 0) (A : Type ℓ) : Type ℓ where
  ok : A → Result E A
  err : E → Result E A

-- `?`: what follows runs on the value, and an error leaves the function.
infixl 5 ◌>>=◌
abbrev pub ◌>>=◌ {ℓ κ} :
    {F : Type 0} {X : Type ℓ} {Y : Type κ} (outcome : Result F X) (next : X → Result F Y)
    → Result F Y
err failure >>= next = err failure
ok value >>= next = next value

-- `?` on a check.
infixl 5 ◌>>◌
abbrev pub ◌>>◌ {κ} :
    {F : Type 0} {Y : Type κ} (check : Result F (Unit {0})) (rest : Result F Y) → Result F Y
check >> rest = check >>= (λ done. rest)

-- `if refused { return Err(e); }`.
abbrev pub refuse_if : {E : Type 0} → Bool → E → Result E (Unit {0})
refuse_if true e = err e
refuse_if false e = ok tt

-- `is_err`.
abbrev pub is_err {ℓ} : {E : Type 0} {A : Type ℓ} → Result E A → Bool
is_err (ok a) = false
is_err (err e) = true

-- `map_err`.
abbrev pub map_err {ℓ} : {E F : Type 0} {A : Type ℓ} → (E → F) → Result E A → Result F A
map_err f (ok a) = ok a
map_err f (err e) = err (f e)

pub Result-cases {ℓ} :
    {E : Type 0} {A : Type ℓ} (m : Result E A) → ((a : A) × (m ≡ ok a)) ⊎ ((e : E) × (m ≡ err e))
Result-cases (ok a) = inl (a, refl)
Result-cases (err e) = inr (e, refl)

-- A chain that succeeds succeeded at its first step.
pub >>=-eq-ok {ℓ κ} :
    {F : Type 0} {X : Type ℓ} {Y : Type κ} (outcome : Result F X) (next : X → Result F Y) {y : Y}
    → (outcome >>= next) ≡ ok y
    → (x : X) × (outcome ≡ ok x) × (next x ≡ ok y)
>>=-eq-ok (err failure) next success = cc
>>=-eq-ok (ok value) next success = (value, refl, success)
