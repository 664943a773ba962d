-- ===== src/Base/Results.antt =====
-- exceptions.py: a function that may raise returns a `Result`. The text of a message is not
-- modelled; the class of the exception is.
use mathlib.Core.Path.{◌≡◌, refl, ap}
use mathlib.Core.Logic.{◌⊎◌, inl, inr}
use mathlib.Core.Bool.{Bool, true, false}

-- The domain exceptions, and the standard ones that the modelled code raises or lets pass.
-- `out_of_fuel` is no exception: a loop of the model met the bound on its rounds.
pub data Error : Type 0 where
  archive_format unsupported_version authentication integrity : Error
  value_error runtime_error struct_error overflow_error index_error out_of_fuel : Error

-- What a function that may raise comes to.
pub data Result {ℓ} (T : Type ℓ) : Type ℓ where
  err : Error → Result T
  ok : T → Result T

infixl 5 ◌>>=◌ ◌>>◌
abbrev pub ◌>>=◌ {ℓ ν} : {T : Type ℓ} {U : Type ν} → Result T → (T → Result U) → Result U
err e >>= _ = err e
ok t >>= next = next t

abbrev pub ◌>>◌ {ν} : {U : Type ν} → Result (Unit {0}) → Result U → Result U
check >> next = check >>= λ _. next

-- `if bad: raise e`
abbrev pub raise_if : Bool → Error → Result (Unit {0})
raise_if true e = err e
raise_if false e = ok tt

-- A sequence that returned has a first part that returned.
pub >>=-eq-ok {ℓ ν} :
    {T : Type ℓ} {U : Type ν} (first : Result T) (next : T → Result U) {u : U}
    → (first >>= next) ≡ ok u
    → (t : T) × (first ≡ ok t) × (next t ≡ ok u)
>>=-eq-ok (err e) next h = cc
>>=-eq-ok (ok t) next h = (t, refl, h)

-- What follows a guard is reached exactly when the guard lets it pass.
pub raise_if-eq-ok {ℓ} :
    {A : Type ℓ} (b : Bool) (e : Error) (m : Result A) {a : A}
    → (raise_if b e >> m) ≡ ok a
    → (b ≡ false) × (m ≡ ok a)
raise_if-eq-ok true e m h = cc
raise_if-eq-ok false e m h = (refl, h)

pub Result-cases {ℓ} :
    {T : Type ℓ} (outcome : Result T)
    → ((t : T) × (outcome ≡ ok t)) ⊎ ((e : Error) × (outcome ≡ err e))
Result-cases (err e) = inr (e, refl)
Result-cases (ok t) = inl (t, refl)

pub ok-inj {ℓ} : {T : Type ℓ} {t u : T} → ok t ≡ ok u → t ≡ u
ok-inj {t = t} h = ap (λ r. elim r [ ok v ↦ v | err _ ↦ t ]) h

pub err-ne-ok {ℓ} : {T : Type ℓ} {e : Error} {t : T} → ¬ (err e ≡ ok t)
err-ne-ok h = cc
