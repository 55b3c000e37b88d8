-- ===== src/Prelude/Throw.antt =====
-- C++ exceptions as values: the kinds that the program throws, and chains of calls that may throw.
use mathlib.Core.Bool.{Bool, true, false}
use mathlib.Core.Path.{◌≡◌, refl}
use mathlib.Core.Logic.{◌⊎◌, inl, inr}
use native.Mathlib.Omega.{arith}

-- `undefined` marks what C++ leaves undefined, such as an index out of range.
pub data Error : Type 0 where
  overflow_error underflow_error domain_error runtime_error out_of_range range_error : Error
  invalid_argument bad_lexical_cast undefined : Error

-- How a call ends: by an exception, or with what it returns.
pub data Result {ℓ} (A : Type ℓ) : Type ℓ where
  err : (thrown : Error) → Result A
  ok : (returned : A) → Result A

module _ {ℓ κ} {A : Type ℓ} {B : Type κ} where
  infixl 5 ◌>>=◌ ◌>>◌
  -- A call whose result the rest of the function uses; an exception skips the rest.
  abbrev pub ◌>>=◌ : Result A → (A → Result B) → Result B
  err thrown >>= rest = err thrown
  ok returned >>= rest = rest returned

  abbrev pub ◌>>◌ : Result A → Result B → Result B
  call >> rest = call >>= λ _. rest

abbrev pub throw_if : Bool → Error → Result (Unit {0})
throw_if true e = err e
throw_if false e = ok tt

abbrev pub is_ok {ℓ} : {A : Type ℓ} → Result A → Bool
is_ok (err thrown) = false
is_ok (ok returned) = true

-- A call throws or returns.
pub Result-cases {ℓ} :
    {A : Type ℓ} (r : Result A) → ((e : Error) × (r ≡ err e)) ⊎ ((a : A) × (r ≡ ok a))
Result-cases (err thrown) = inl (thrown, refl)
Result-cases (ok returned) = inr (returned, refl)

-- A chain of calls that returns went through each of them.
pub >>=-ok :
    {A B : Type 0} (call : Result A) (rest : A → Result B) (b : B)
    → (call >>= rest) ≡ ok b
    → (a : A) × (call ≡ ok a) × (rest a ≡ ok b)
>>=-ok (err thrown) rest b h = absurd (ground (arith, h))
>>=-ok (ok returned) rest b h = (returned, refl, h)
