-- ===== src/Prelude/Results.antt =====
-- Expressions that return a value or raise.
-- The exception classes that the code raises or catches, and those of the operations it calls.
use mathlib.Core.Path.{◌≡◌, refl}
use mathlib.Core.Logic.{◌⊎◌, inl, inr}

pub data Exn : Type 0 where
  value_error key_error type_error index_error struct_error assertion_error : Exn
  bad_signature_error malformed_point_error : Exn
  attribute_error os_error connection_error timeout_error cancelled_error : Exn
  runtime_error : Exn

pub data Result {ℓ} (A : Type ℓ) : Type ℓ where
  ok : A → Result A
  raised : Exn → Result A

infixl 5 ◌>>=◌
abbrev pub ◌>>=◌ {ℓ κ} : {A : Type ℓ} {B : Type κ} → Result A → (A → Result B) → Result B
ok a >>= f = f a
raised x >>= f = raised x

pub Result-cases {ℓ} :
    {A : Type ℓ} (r : Result A) → ((x : Exn) × (r ≡ raised x)) ⊎ ((a : A) × (r ≡ ok a))
Result-cases (raised x) = inl (x, refl)
Result-cases (ok a) = inr (a, refl)

abbrev pub map_ok {ℓ κ} : {A : Type ℓ} {B : Type κ} → (A → B) → Result A → Result B
map_ok f (ok a) = ok (f a)
map_ok f (raised x) = raised x
