-- ===== src/Base/Outcome.antt =====
-- What a Rust function that returns `Option<T>` does: it returns `Some(a)`, it returns `None`, or
-- it panics (both crates are built with `overflow-checks = true`, so an arithmetic operation that
-- is not written as a checked one panics when it overflows).
use mathlib.Core.Path.{◌≡◌, refl}
use mathlib.Core.Logic.{◌⊎◌, inl, inr}
use mathlib.Core.Bool.{Bool, true, false}
use mathlib.Core.Option.{Option, none, some}

pub data Outcome {ℓ} (A : Type ℓ) : Type ℓ where
  ret : A → Outcome A
  nothing : Outcome A
  panic : Outcome A

-- The operator `?`.
infixl 5 ◌>>=◌ ◌>>◌
abbrev pub ◌>>=◌ {ℓ κ} : {A : Type ℓ} {B : Type κ} → Outcome A → (A → Outcome B) → Outcome B
ret a >>= f = f a
nothing >>= f = nothing
panic >>= f = panic

abbrev pub ◌>>◌ {ℓ} : {B : Type ℓ} → Outcome (Unit {0}) → Outcome B → Outcome B
m >> k = m >>= λ _. k

-- `if b { return None; }`.
abbrev pub reject_if : Bool → Outcome (Unit {0})
reject_if true = nothing
reject_if false = ret tt

-- An operation that panics where the test holds.
abbrev pub panic_if : Bool → Outcome (Unit {0})
panic_if true = panic
panic_if false = ret tt

-- `a.or_else(|| b)`: a panic in `a` is not caught.
abbrev pub or_else {ℓ} : {A : Type ℓ} → Outcome A → Outcome A → Outcome A
or_else (ret a) b = ret a
or_else nothing b = b
or_else panic b = panic

-- A value that is an `Option` without any computation, such as a field.
abbrev pub of_option {ℓ} : {A : Type ℓ} → Option A → Outcome A
of_option none = nothing
of_option (some a) = ret a

-- Inversion of a successful `?`.
pub >>=-eq_ret {ℓ κ} :
    {A : Type ℓ} {B : Type κ} (m : Outcome A) (f : A → Outcome B) {b : B}
    → (m >>= f) ≡ ret b
    → (a : A) × (m ≡ ret a) × (f a ≡ ret b)
>>=-eq_ret (ret a) f h = (a, refl, h)
>>=-eq_ret nothing f h = cc
>>=-eq_ret panic f h = cc

pub of_option-eq_ret {ℓ} : {A : Type ℓ} (o : Option A) {a : A} → of_option o ≡ ret a → o ≡ some a
of_option-eq_ret none h = cc
of_option-eq_ret (some b) h = cc

-- The same with the value handed on, for a chain of several `?`.
pub >>=-use {ℓ κ μ} :
    {A : Type ℓ} {B : Type κ} {C : Type μ} (m : Outcome A) (f : A → Outcome B) {b : B}
    → (m >>= f) ≡ ret b
    → ((a : A) → m ≡ ret a → f a ≡ ret b → C)
    → C
>>=-use m f h k = let (a, e, rest) = >>=-eq_ret m f h in k a e rest

pub Outcome-cases {ℓ} :
    {A : Type ℓ} (m : Outcome A) → ((a : A) × (m ≡ ret a)) ⊎ ((m ≡ nothing) ⊎ (m ≡ panic))
Outcome-cases (ret a) = inl (a, refl)
Outcome-cases nothing = inr (inl refl)
Outcome-cases panic = inr (inr refl)
