-- ===== src/Base/Outcomes.antt =====
-- What a call of the C++ code can end with.
use mathlib.Core.Path.{◌≡◌, refl}
use mathlib.Core.Bool.{Bool, true, false}
use mathlib.Core.List.{List}
use Prim.Native.Nat.{ℕ}

-- The classes of src/Spock/Exception.h.
pub data Exception : Type 0 where
  environment_error conflict resource_error not_found syntax_error command_error :
      List ℕ → Exception

-- `aborted` is a failed assertion, and `exhausted` a bound on the model's recursion that was met.
pub data Outcome {ℓ} (A : Type ℓ) : Type ℓ where
  ok : A → Outcome A
  threw : Exception → Outcome A
  aborted exhausted : Outcome A

infixl 5 ◌>>=◌ ◌>>◌
abbrev pub ◌>>=◌ {ℓ κ} : {A : Type ℓ} {B : Type κ} → Outcome A → (A → Outcome B) → Outcome B
ok a >>= f = f a
threw e >>= f = threw e
aborted >>= f = aborted
exhausted >>= f = exhausted

abbrev pub ◌>>◌ {ℓ} : {B : Type ℓ} → Outcome (Unit {0}) → Outcome B → Outcome B
m >> k = m >>= λ _. k

-- An assertion of the source.
abbrev pub assert : Bool → Outcome (Unit {0})
assert true = ok tt
assert false = aborted

-- What holds of the value, if the call returns one.
abbrev pub OnOk : {A : Type 0} → (A → Type 0) → Outcome A → Type 0
OnOk Q (ok a) = Q a
OnOk Q (threw e) = Unit {0}
OnOk Q aborted = Unit {0}
OnOk Q exhausted = Unit {0}

pub OnOk-bind :
    {A B : Type 0} (Q : A → Type 0) (R : B → Type 0) (m : Outcome A) (f : A → Outcome B)
    → OnOk Q m
    → ((a : A) → Q a → OnOk R (f a))
    → OnOk R (m >>= f)
OnOk-bind Q R (ok a) f h k = k a h
OnOk-bind Q R (threw e) f h k = tt
OnOk-bind Q R aborted f h k = tt
OnOk-bind Q R exhausted f h k = tt

pub OnOk-assert : (b : Bool) → OnOk (λ u. b ≡ true) (assert b)
OnOk-assert true = refl
OnOk-assert false = tt

pub OnOk-any : {A : Type 0} (m : Outcome A) → OnOk (λ a. Unit {0}) m
OnOk-any (ok a) = tt
OnOk-any (threw e) = tt
OnOk-any aborted = tt
OnOk-any exhausted = tt
