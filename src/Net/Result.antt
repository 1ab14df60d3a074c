-- ===== src/Net/Result.antt =====
-- How a routine of the socket layer ends: with a value, or with what C++ does not return from.
use mathlib.Core.Path.{◌≡◌, refl, ap}
use mathlib.Core.Logic.{◌⊎◌, inl, inr}

pub data Fault : Type 0 where
  -- `new char[n]` throws on a negative `n`.
  bad_array_length : Fault
  -- A signed addition overflows.
  int_overflow : Fault
  -- A copy leaves its buffer.
  out_of_buffer : Fault
  -- No fault of the program: the model's fuel ran out.
  out_of_fuel : Fault

pub data Result {ℓ} (A : Type ℓ) : Type ℓ where
  err : Fault → Result A
  ok : A → Result A

-- Inversion of a step that is followed by others: its value, and what follows at that value.
module _ {ℓ κ} {A : Type ℓ} {B : Type κ} where
  infixl 5 ◌>>=◌
  abbrev pub ◌>>=◌ : Result A → (A → Result B) → Result B
  step >>= next = elim step [ ok value ↦ next value | err fault ↦ err fault ]

  pub >>=-eq-ok :
      (step : Result A) (next : A → Result B) {last : B}
      → step >>= next ≡ ok last
      → (value : A) × (step ≡ ok value) × (next value ≡ ok last)
  >>=-eq-ok (err fault) next done = cc
  >>=-eq-ok (ok value) next done = (value, refl, done)

pub ok-injective {ℓ} : {A : Type ℓ} {a b : A} → ok a ≡ ok b → a ≡ b
ok-injective {a = a} e = ap (λ r. elim r [ ok x ↦ x | err _ ↦ a ]) e

pub err-injective {ℓ} : {A : Type ℓ} {x y : Fault} → ◌≡◌ {A = Result A} (err x) (err y) → x ≡ y
err-injective {x = x} e = ap (λ r. elim r [ ok _ ↦ x | err y ↦ y ]) e

pub Result-cases {ℓ} :
    {A : Type ℓ} (r : Result A) → ((a : A) × (r ≡ ok a)) ⊎ ((e : Fault) × (r ≡ err e))
Result-cases (ok a) = inl (a, refl)
Result-cases (err e) = inr (e, refl)
