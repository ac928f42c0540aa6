-- ===== src/Base/Outcome.antt =====
-- What a C++ call ends in: a value, an exception, or undefined behaviour.
use mathlib.Core.Path.{◌≡◌, refl}
use mathlib.Core.Logic.{◌⊎◌, inl, inr}
use mathlib.Core.Bool.{Bool, true, false}
use mathlib.Core.Option.{Option, none, some}

-- `undefined` is an access outside a vector or a buffer, `signed_overflow` that of a signed integer;
-- `no_fuel` a loop of the model that ran out of rounds; `json_error` an exception of the JSON library; the others are the exceptions that the
-- source throws.
pub data Error : Type 0 where
  out_of_blocks incref_on_free double_free : Error
  invalid_argument out_of_range length_error runtime_error : Error
  undefined signed_overflow no_fuel json_error : Error

pub data Result {ℓ} (A : Type ℓ) : Type ℓ where
  ok : A → Result A
  err : Error → Result A

-- A `throw` behind a test, and the value of a lookup that throws where there is none.
abbrev pub guard : Bool → Error → Result (Unit {0})
guard false problem = err problem
guard true problem = ok tt

abbrev pub or_fail {ℓ} : {A : Type ℓ} → Error → Option A → Result A
or_fail e none = err e
or_fail e (some a) = ok a

-- An exception skips what follows.
infixl 5 ◌>>=◌ ◌>>◌
abbrev pub ◌>>=◌ {κ ℓ} : {B : Type κ} {C : Type ℓ} → Result B → (B → Result C) → Result C
err problem >>= next = err problem
ok value >>= next = next value

abbrev pub ◌>>◌ {κ} : {C : Type κ} → Result (Unit {0}) → Result C → Result C
first >> second = first >>= λ done. second

-- The call ends in a value with `P`, or in one of the errors that `E` allows.
abbrev pub Ensures {ℓ} : {A : Type ℓ} → (Error → Type 0) → (A → Type 0) → Result A → Type 0
Ensures E P (ok a) = P a
Ensures E P (err e) = E e

pub Ensures-bind {ℓ κ} :
    {A : Type ℓ} {B : Type κ} (E : Error → Type 0) (P : A → Type 0) (Q : B → Type 0) (m : Result A)
    (f : A → Result B)
    → Ensures E P m
    → ((a : A) → P a → Ensures E Q (f a))
    → Ensures E Q (m >>= f)
Ensures-bind E P Q (ok a) f h k = k a h
Ensures-bind E P Q (err e) f h k = h

pub Ensures-mono {ℓ} :
    {A : Type ℓ} (E : Error → Type 0) (P Q : A → Type 0) (m : Result A)
    → Ensures E P m
    → ((a : A) → P a → Q a)
    → Ensures E Q m
Ensures-mono E P Q (ok a) h k = k a h
Ensures-mono E P Q (err e) h k = h

pub Result-cases {ℓ} :
    {A : Type ℓ} (m : Result A) → ((a : A) × (m ≡ ok a)) ⊎ ((e : Error) × (m ≡ err e))
Result-cases (ok a) = inl (a, refl)
Result-cases (err e) = inr (e, refl)
