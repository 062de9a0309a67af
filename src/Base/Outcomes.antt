-- ===== src/Base/Outcomes.antt =====
-- The result of an operation that can throw, or that never returns.
use mathlib.Core.Path.{◌≡◌, refl}
use mathlib.Core.Bool.{Bool, true, false}
use mathlib.Core.Option.{Option, none, some}

-- The exceptions of the program: a failed `sparta_assert`, a `sparta_throw`, a `std::out_of_range`
-- of `at`, what C++ leaves undefined (a null or an end pointer read), `std::exit` and `std::abort`.
pub data Error : Type 0 where
  assertion : Error
  thrown : Error
  out_of_range : Error
  undefined_behaviour : Error
  usage_exit : Error
  aborted : Error
  pool_stopped : Error
  div_by_zero : Error

-- `blocked`: the call waits for another process for ever.
pub data Outcome {ℓ} (A : Type ℓ) : Type ℓ where
  done : A → Outcome A
  throws : Error → Outcome A
  blocked : Outcome A

infixl 5 ◌>>=◌ ◌>>◌
abbrev pub ◌>>=◌ {ℓ κ} : {A : Type ℓ} {B : Type κ} → Outcome A → (A → Outcome B) → Outcome B
done a >>= f = f a
throws e >>= f = throws e
blocked >>= f = blocked

abbrev pub ◌>>◌ {ℓ} : {B : Type ℓ} → Outcome (Unit {0}) → Outcome B → Outcome B
m >> k = m >>= λ _. k

-- `sparta_assert`, and every other test that throws when it fails.
abbrev pub check : Bool → Error → Outcome (Unit {0})
check true e = done tt
check false e = throws e

-- A pointer or a lookup that has to be there.
abbrev pub or_throw {ℓ} : {A : Type ℓ} → Option A → Error → Outcome A
or_throw (some a) e = done a
or_throw none e = throws e

-- Inversion of a bind that succeeds.
pub >>=-eq-done {ℓ κ} :
    {A : Type ℓ} {B : Type κ} (m : Outcome A) (f : A → Outcome B) {b : B}
    → (m >>= f) ≡ done b
    → (a : A) × (m ≡ done a) × (f a ≡ done b)
>>=-eq-done (done a) f h = (a, refl, h)
>>=-eq-done (throws e) f h = cc
>>=-eq-done blocked f h = cc
