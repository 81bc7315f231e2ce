-- ===== src/Base/Outcomes.antt =====
-- What a call of C++ code ends in. The source reports errors by exceptions; `fault` stands for
-- undefined behaviour (a read outside a buffer), and `stuck` for a loop whose fuel ran out.
use Prim.Native.Nat.{ℕ}
use Prim.Native.String.{String}
use mathlib.Core.List.{List}
use mathlib.Core.Path.{◌≡◌, refl}
use mathlib.Core.Logic.{◌⊎◌, inl, inr}
use mathlib.Core.Bool.{Bool, true, false}

-- The exceptions that the source throws, or lets through from the libraries.
pub data Exception : Type 0 where
  invalid_argument : String → Exception
  runtime_error : String → Exception
  system_error : Exception
  bad_weak_ptr : Exception
  -- a `std::string` that is thrown
  string : List ℕ → Exception

pub data Outcome {ℓ} (A : Type ℓ) : Type ℓ where
  done : A → Outcome A
  throws : Exception → Outcome A
  fault : Outcome A
  stuck : Outcome A

infixl 5 ◌>>=◌ ◌>>◌
abbrev pub ◌>>=◌ {ℓ κ} : {A : Type ℓ} {B : Type κ} → Outcome A → (A → Outcome B) → Outcome B
done a >>= f = f a
throws e >>= f = throws e
fault >>= f = fault
stuck >>= f = stuck

abbrev pub ◌>>◌ {ℓ} : {B : Type ℓ} → Outcome (Unit {0}) → Outcome B → Outcome B
m >> k = m >>= λ _. k

-- `if(bad) throw std::invalid_argument(message);`
abbrev pub throw_if : Bool → String → Outcome (Unit {0})
throw_if true message = throws (invalid_argument message)
throw_if false message = done tt

-- The call returns or throws: no undefined behaviour, and it ends.
abbrev pub IsDefined {ℓ} : {A : Type ℓ} → Outcome A → Type 0
IsDefined (done a) = Unit {0}
IsDefined (throws e) = Unit {0}
IsDefined fault = ⊥
IsDefined stuck = ⊥

pub >>=-IsDefined {ℓ κ} :
    {A : Type ℓ} {B : Type κ} (m : Outcome A) (f : A → Outcome B)
    → IsDefined m
    → ((a : A) → m ≡ done a → IsDefined (f a))
    → IsDefined (m >>= f)
>>=-IsDefined (done a) f h k = k a refl
>>=-IsDefined (throws e) f h k = tt
>>=-IsDefined fault f h k = h
>>=-IsDefined stuck f h k = h

pub >>=-eq-done {ℓ κ} :
    {A : Type ℓ} {B : Type κ} (m : Outcome A) (f : A → Outcome B) {b : B}
    → (m >>= f) ≡ done b
    → (a : A) × (m ≡ done a) × (f a ≡ done b)
>>=-eq-done (done a) f h = (a, refl, h)
>>=-eq-done (throws e) f h = cc
>>=-eq-done fault f h = cc
>>=-eq-done stuck f h = cc

pub IsDefined-cases {ℓ} :
    {A : Type ℓ} (m : Outcome A)
    → IsDefined m
    → ((a : A) × (m ≡ done a)) ⊎ ((e : Exception) × (m ≡ throws e))
IsDefined-cases (done a) h = inl (a, refl)
IsDefined-cases (throws e) h = inr (e, refl)
IsDefined-cases fault h = absurd h
IsDefined-cases stuck h = absurd h
