-- ===== src/Solver/State.antt =====
-- The fields of src/Spock/Solver.h, the calls of the context that the solver makes, and statements
-- that change the solver and may end with an exception.
use rmc_spock.Base.{ℕ, suc, Bool, List, Text, Outcome, ok, threw, aborted, exhausted}
use rmc_spock.Libraries.{Libraries}
use rmc_spock.Pattern.{PackagePattern}
use rmc_spock.PackageLists.{Packages}

module _ ⦃lib : Libraries⦄ where
  -- `next_address` is the address of the next package that is made.
  pub record Solver : Type 0 where
    pub max_solutions : ℕ
    pub full_solutions : Bool
    pub solutions : List Packages
    pub messages : lib.texts.Carrier
    pub latest_message : Text
    pub n_steps : ℕ
    pub next_address : ℕ

  -- What the solver asks of `Context`.
  pub record SolverContext : Type 0 where
    pub employed : Packages
    pub find_installed : PackagePattern → Outcome Packages
    pub find_packages : PackagePattern → Outcome Packages
    pub sort_by_dependency_lattice : Packages → Outcome Packages

  abbrev pub M {ℓ} : Type ℓ → Type ℓ
  M A = Solver → Outcome A × Solver

  abbrev pub pure {ℓ} : {A : Type ℓ} → A → M A
  pure a s = (ok a, s)

  abbrev pub and_then {ℓ κ} : {A : Type ℓ} {B : Type κ} → Outcome A → (A → M B) → M B
  and_then (ok a) f s = f a s
  and_then (threw e) f s = (threw e, s)
  and_then aborted f s = (aborted, s)
  and_then exhausted f s = (exhausted, s)

  infixl 5 ◌>>=◌ ◌>>◌
  abbrev pub ◌>>=◌ {ℓ κ} : {A : Type ℓ} {B : Type κ} → M A → (A → M B) → M B
  m >>= f = λ s. let r = m s in and_then r.0 f r.1

  abbrev pub ◌>>◌ {ℓ} : {B : Type ℓ} → M (Unit {0}) → M B → M B
  m >> n = m >>= λ _. n

  abbrev pub lift {ℓ} : {A : Type ℓ} → Outcome A → M A
  lift r s = (r, s)

  abbrev pub get : M Solver
  get s = (ok s, s)

  abbrev pub modify : (Solver → Solver) → M (Unit {0})
  modify f s = (ok tt, f s)

  unfoldable pub insert_message : Text → M (Unit {0})
  insert_message mesg =
      modify λ s. record s { messages = lib.texts.insert s.messages mesg; latest_message = mesg }

  -- The address of a package that is made now.
  unfoldable pub new_address : M ℕ
  new_address s = (ok s.next_address, record s { next_address = suc s.next_address })
