-- ===== src/Prelude/Results.antt =====
-- Fallible code: a value, or the error that stopped it.
use mathlib.Core.Path.{◌≡◌, refl}
use mathlib.Core.Bool.{Bool, true, false}
use mathlib.Core.Logic.{◌⊎◌, inl, inr}

pub data Result {ℓ κ} (E : Type κ) (A : Type ℓ) : Type (ℓ ⊔ κ) where
  ok : A → Result E A
  err : E → Result E A

-- `if !b { return e }`
abbrev pub guard {κ} : {E : Type κ} → Bool → E → Result E (Unit {0})
guard true failure = ok tt
guard false failure = err failure

module _ {ℓ κ ι} {E : Type κ} {A : Type ℓ} {B : Type ι} where
  infixl 5 ◌>>=◌
  abbrev pub ◌>>=◌ : Result E A → (A → Result E B) → Result E B
  ok value >>= step = step value
  err failure >>= step = err failure

module _ {ℓ κ} {E : Type κ} {B : Type ℓ} where
  infixl 5 ◌>>◌
  abbrev pub ◌>>◌ : Result E (Unit {0}) → Result E B → Result E B
  first >> rest = first >>= λ _. rest

pub Result-cases {ℓ κ} :
    {E : Type κ} {A : Type ℓ} (r : Result E A) → ((a : A) × (r ≡ ok a)) ⊎ ((e : E) × (r ≡ err e))
Result-cases (ok a) = inl (a, refl)
Result-cases (err e) = inr (e, refl)

-- A sequence succeeds exactly when both parts do.
pub >>-eq-ok {ℓ κ} :
    {E : Type κ} {B : Type ℓ} (m : Result E (Unit {0})) (k : Result E B) {b : B}
    → (m >> k) ≡ ok b
    → (m ≡ ok tt) × (k ≡ ok b)
>>-eq-ok (ok tt) k h = (refl, h)
>>-eq-ok (err e) k h = cc

pub >>=-eq-ok {ℓ κ ι} :
    {E : Type κ} {A : Type ℓ} {B : Type ι} (first : Result E A) (step : A → Result E B) {result : B}
    → (first >>= step) ≡ ok result
    → (value : A) × (first ≡ ok value) × (step value ≡ ok result)
>>=-eq-ok (ok value) step p = (value, refl, p)
>>=-eq-ok (err failure) step p = cc

pub guard-eq-ok {κ} : {E : Type κ} (b : Bool) (e : E) → guard b e ≡ ok tt → b ≡ true
guard-eq-ok true e h = refl
guard-eq-ok false e h = cc
