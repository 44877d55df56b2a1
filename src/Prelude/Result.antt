-- ===== src/Prelude/Result.antt =====
-- The outcome of code that may raise one of the errors `E`.
use mathlib.Core.Path.{◌≡◌, refl}
use mathlib.Core.Logic.{◌⊎◌, inl, inr}
use mathlib.Core.Bool.{Bool, true, false}

pub data Result (E A : Type 0) : Type 0 where
  ok : A → Result E A
  err : E → Result E A

-- A step that is reached only when no error was raised before it.
infixl 5 ◌>>=◌ ◌>>◌
abbrev pub ◌>>=◌ : {E A B : Type 0} → Result E A → (A → Result E B) → Result E B
err raised >>= step = err raised
ok value >>= step = step value

abbrev pub ◌>>◌ : {E B : Type 0} → Result E (Unit {0}) → Result E B → Result E B
check >> step = check >>= λ done. step

-- `if c: raise e`
abbrev pub raise_if : {E : Type 0} → Bool → E → Result E (Unit {0})
raise_if true e = err e
raise_if false e = ok tt

pub Result-cases :
    {E A : Type 0} (r : Result E A) → ((a : A) × (r ≡ ok a)) ⊎ ((e : E) × (r ≡ err e))
Result-cases (ok a) = inl (a, refl)
Result-cases (err e) = inr (e, refl)

-- A chain without an error passed through a value.
pub >>=-eq-ok :
    {E A B : Type 0} (start : Result E A) (step : A → Result E B) {end : B}
    → (start >>= step) ≡ ok end
    → (value : A) × (start ≡ ok value) × (step value ≡ ok end)
>>=-eq-ok (err raised) step passed = cc
>>=-eq-ok (ok value) step passed = (value, refl, passed)

pub ok_injective : {E A : Type 0} {a b : A} → ◌≡◌ {A = Result E A} (ok a) (ok b) → a ≡ b
ok_injective h = cc
