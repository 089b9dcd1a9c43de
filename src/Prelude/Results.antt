-- ===== src/Prelude/Results.antt =====
-- What a call of C++ code may end in: a value, or a fault, which ends its callers too. Only `main`
-- has a `catch` clause, for the calls of its own thread.
use mathlib.Core.Path.{◌≡◌, refl}
use mathlib.Core.Logic.{◌⊎◌, inl, inr}

pub data Fault : Type 0 where
  -- `std::invalid_argument` of `std::stoi`.
  invalid_argument : Fault
  -- `std::out_of_range` of `std::stoi`, `substr`, `compare` and `at`.
  out_of_range : Fault
  -- Signed overflow, or an access outside an array or a container: undefined behaviour.
  undefined : Fault
  -- `boost::system::system_error` of a call of the network or of the file system that reports by
  -- throwing.
  system_error : Fault

pub data Result {ℓ} (A : Type ℓ) : Type ℓ where
  ok : A → Result A
  throws : Fault → Result A

infixl 5 ◌>>=◌
-- A fault ends the calls that follow it.
abbrev pub ◌>>=◌ {κ ℓ} : {B : Type κ} {A : Type ℓ} → Result B → (B → Result A) → Result A
throws fault >>= next = throws fault
ok value >>= next = next value

module _ {κ ℓ} {B : Type κ} {A : Type ℓ} where
  -- If the second call returns, so did the first.
  pub >>=-eq-ok :
      (call : Result B) (next : B → Result A) {result : A}
      → (call >>= next) ≡ ok result
      → (value : B) × (call ≡ ok value) × (next value ≡ ok result)
  >>=-eq-ok (throws fault) next e = cc
  >>=-eq-ok (ok value) next e = (value, refl, e)

pub Result-cases {ℓ} :
    {A : Type ℓ} (m : Result A) → ((e : Fault) × (m ≡ throws e)) ⊎ ((a : A) × (m ≡ ok a))
Result-cases (ok a) = inr (a, refl)
Result-cases (throws e) = inl (e, refl)

pub ok-injective {ℓ} : {A : Type ℓ} (a b : A) → ok a ≡ ok b → a ≡ b
ok-injective a b e = cc
