-- ===== src/Base/Except.antt =====
-- C++ exceptions as values: what a function returns or throws.
use mathlib.Core.Path.{◌≡◌, refl}
use mathlib.Core.Logic.{◌⊎◌, inl, inr}
use mathlib.Core.Bool.{Bool, true, false}
use graftcode_extensions.Base.Text.{Bytes}

-- A thrown exception; each std::exception carries its `what()`.
pub data Exception : Type 0 where
  runtime_error : Bytes → Exception
  invalid_argument : Bytes → Exception
  other_std : Bytes → Exception
  unknown : Exception

-- What is returned, or what is thrown in its place.
pub data Result {ℓ} (X : Type ℓ) : Type ℓ where
  throw : Exception → Result X
  ok : X → Result X

pub Result-cases {ℓ} :
    {X : Type ℓ} (r : Result X) → ((x : X) × (r ≡ ok x)) ⊎ ((e : Exception) × (r ≡ throw e))
Result-cases (throw e) = inr (e, refl)
Result-cases (ok x) = inl (x, refl)

infixl 5 ◌>>=◌
abbrev pub ◌>>=◌ {ℓ κ} : {X : Type ℓ} {Y : Type κ} (r : Result X) (next : X → Result Y) → Result Y
throw e >>= next = throw e
ok x >>= next = next x

pub >>=-eq-ok {ℓ κ} :
    {X : Type ℓ} {Y : Type κ} (r : Result X) (next : X → Result Y) {y : Y}
    → (r >>= next) ≡ ok y
    → (x : X) × (r ≡ ok x) × (next x ≡ ok y)
>>=-eq-ok (throw e) next returns = absurd (cc)
>>=-eq-ok (ok x) next returns = (x, refl, returns)

-- A statement that gives no value, and what comes behind it.
infixl 5 ◌>>◌
abbrev pub ◌>>◌ {κ} : {Y : Type κ} (r : Result (Unit {0})) (rest : Result Y) → Result Y
throw e >> rest = throw e
ok x >> rest = rest

-- `if (test) throw e;`
abbrev pub throw_if : (test : Bool) (e : Exception) → Result (Unit {0})
throw_if false e = ok tt
throw_if true e = throw e

pub throw_if-eq-ok {κ} :
    {Y : Type κ} (test : Bool) (e : Exception) (rest : Result Y) {y : Y}
    → (throw_if test e >> rest) ≡ ok y
    → (test ≡ false) × (rest ≡ ok y)
throw_if-eq-ok false e rest returns = (refl, returns)
throw_if-eq-ok true e rest returns = absurd (cc)
