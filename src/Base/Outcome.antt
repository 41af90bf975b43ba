-- ===== src/Base/Outcome.antt =====
-- A call that may throw: the value, or the exception with its message.
use Prim.Native.String.{String}
use mathlib.Core.Path.{◌≡◌, refl}
use mathlib.Core.Logic.{◌⊎◌, inl, inr}
use mathlib.Core.Bool.{Bool, true, false}
use mathlib.Core.List.{List}
use Prim.Native.Nat.{ℕ}

pub data Exception : Type 0 where
  -- schema_exception of one message without a location
  schema_exception : List ℕ → Exception
  -- schema_exception of one message with a line and a column
  schema_exception_at : List ℕ → ℕ → ℕ → Exception
  logic_error runtime_error out_of_range invalid_argument : String → Exception
  -- std::get on the wrong alternative of a std::variant
  bad_variant_access : Exception
  -- std::terminate, when an exception leaves a noexcept function
  terminated : Exception
  -- a call outside its precondition, such as back() of an empty std::vector
  undefined_behaviour : Exception

pub data Outcome {ℓ} (A : Type ℓ) : Type ℓ where
  ok : A → Outcome A
  throw : Exception → Outcome A

-- Whether the call returns.
abbrev pub is_ok {ℓ} : {A : Type ℓ} → Outcome A → Bool
is_ok (ok a) = true
is_ok (throw e) = false

infixl 5 ◌>>=◌
-- A call after a call: an exception of the first is the exception of both.
abbrev pub ◌>>=◌ {ℓ κ} :
    {A : Type ℓ} → {B : Type κ} → (first : Outcome A) → (next : A → Outcome B) → Outcome B
throw exception >>= next = throw exception
ok value >>= next = next value

module _ {ℓ κ} {A : Type ℓ} {B : Type κ} where
  -- What a call returned, if the call after it succeeded.
  pub >>=-eq-ok :
      (first : Outcome A) (next : A → Outcome B) {result : B}
      → (first >>= next) ≡ ok result
      → (value : A) × (first ≡ ok value) × (next value ≡ ok result)
  >>=-eq-ok (throw exception) next h = cc
  >>=-eq-ok (ok value) next h = (value, refl, h)

pub ok-injective {ℓ} : {A : Type ℓ} {a b : A} → ok a ≡ ok b → a ≡ b
ok-injective e = cc

-- A split on a computed outcome that keeps the equation.
pub Outcome-cases {ℓ} :
    {A : Type ℓ} (outcome : Outcome A)
    → ((a : A) × (outcome ≡ ok a)) ⊎ ((e : Exception) × (outcome ≡ throw e))
Outcome-cases (ok a) = inl (a, refl)
Outcome-cases (throw e) = inr (e, refl)
