-- ===== src/Base/Results.antt =====
-- What ends a run of the C code before its time, and the monad of code that may so end.
use mathlib.Core.Path.{◌≡◌, refl}
use mathlib.Core.Logic.{◌⊎◌, inl, inr}
use mathlib.Core.Bool.{Bool, true, false}
use mathlib.Core.Option.{Option, none, some}

-- A failed `assert`, a trap of the processor, or an access that C leaves undefined.
pub data Fault : Type 0 where
  assertion out_of_bounds null_pointer division_by_zero : Fault

pub data Result {ℓ} (Value : Type ℓ) : Type ℓ where
  fault : Fault → Result Value
  ok : Value → Result Value

-- `P` holds of the value, if there is one.
abbrev pub Holds {ℓ κ} : {A : Type ℓ} → (A → Type κ) → Result A → Type κ
Holds P (ok a) = P a
Holds P (fault e) = Unit

-- There is a value, and `P` holds of it.
abbrev pub Yields {ℓ} : {A : Type ℓ} → (A → Type 0) → Result A → Type 0
Yields P (ok a) = P a
Yields P (fault e) = ⊥

pub Option-cases {ℓ} : {A : Type ℓ} (o : Option A) → ((a : A) × (o ≡ some a)) ⊎ (o ≡ none)
Option-cases (some a) = inl (a, refl)
Option-cases none = inr refl

pub Result-cases {ℓ} :
    {A : Type ℓ} (r : Result A) → ((a : A) × (r ≡ ok a)) ⊎ ((e : Fault) × (r ≡ fault e))
Result-cases (ok a) = inl (a, refl)
Result-cases (fault e) = inr (e, refl)

module _ {ℓ κ} {A : Type ℓ} {B : Type κ} where
  infixl 5 ◌>>=◌
  abbrev pub ◌>>=◌ : Result A → (A → Result B) → Result B
  fault cause >>= next = fault cause
  ok value >>= next = next value

  pub Holds-bind {μ ν} :
      (P : A → Type μ) (Q : B → Type ν) (r : Result A) (f : A → Result B)
      → Holds P r
      → ((a : A) → P a → Holds Q (f a))
      → Holds Q (r >>= f)
  Holds-bind P Q (ok a) f h k = k a h
  Holds-bind P Q (fault e) f h k = tt

module _ {ℓ} {B : Type ℓ} where
  infixl 5 ◌>>◌
  abbrev pub ◌>>◌ : Result (Unit {0}) → Result B → Result B
  test >> rest = test >>= λ _. rest

-- `assert`, a bound or a null test: the code behind it runs only where the test holds.
abbrev pub guard : Bool → Fault → Result (Unit {0})
guard false cause = fault cause
guard true cause = ok tt

pub Holds-guard {ℓ} :
    {B : Type ℓ} (Q : B → Type 0) (b : Bool) (e : Fault) (r : Result B)
    → (b ≡ true → Holds Q r)
    → Holds Q (guard b e >> r)
Holds-guard Q true e r h = h refl
Holds-guard Q false e r h = tt

pub Yields-map {ℓ κ} :
    {A : Type ℓ} {B : Type κ} (f : A → B) (P : A → Type 0) (Q : B → Type 0)
    → ((a : A) → P a → Q (f a))
    → (r : Result A) → Yields P r
    → Yields Q (r >>= λ a. ok (f a))
Yields-map f P Q step (ok a) h = step a h
Yields-map f P Q step (fault e) h = h
