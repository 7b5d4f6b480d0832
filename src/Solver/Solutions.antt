-- ===== src/Solver/Solutions.antt =====
-- The public `solve` of src/Spock/Solver.C: the packages in use, the lists that the search begins with,
-- and what the recorded solutions stand for.
use rmc_spock.Base.{OnOk, ◌≡◌, ok, ℕ, Bool, true, false, none, some, Option, List, [], All, length}
use rmc_spock.Libraries.{Libraries}
use rmc_spock.Libraries.Laws.{SetLaws}
use rmc_spock.Pattern
use rmc_spock.Pattern.{PackagePattern}
use rmc_spock.PackageLists.{Packages, PackageLists, is_any_list_empty}
use rmc_spock.Solver.State.{Solver, SolverContext, M, pure, ◌>>=◌, get}
use rmc_spock.Solver.Search.{solve_within, initial_lists}
use rmc_spock.Solver.Relation.{IsConsistent, IsSound}
use rmc_spock.Solver.Tighten.{MetIn}
use rmc_spock.Solver.Triple.{Fields, At, Any}
use rmc_spock.Solver.Candidates.{FindsSound}
use rmc_spock.Solver.Choice.{employed_first, Recorded}

module _ ⦃lib : Libraries⦄ where
  module _ (ctx : SolverContext) (patterns : List PackagePattern) (laws : SetLaws lib.versions)
      (finds : FindsSound ctx) (J : Fields) where
    -- The packages in use are met by constraints that can be used together.
    abbrev EmployedBy : Packages → Option Packages → Type 0
    EmployedBy ps none = Unit {0}
    EmployedBy ps (some cs) = IsConsistent cs × All IsSound cs × All (MetIn cs) ps

  module _ (ctx : SolverContext) (patterns : List PackagePattern) (origin : Solver)
      (laws : SetLaws lib.versions) (finds : FindsSound ctx) (m : ℕ) (f : Bool) where
    abbrev J : Fields
    J = Recorded ctx patterns origin m f

    abbrev StartsWith : Packages → Type 0
    StartsWith cs = (employed_first ctx patterns origin).0 ≡ ok (some cs)

    abbrev MadeOf : Packages → PackageLists → Type 0
    MadeOf cs plists =
        (initial_lists ctx cs patterns (employed_first ctx patterns origin).1).0 ≡ ok plists

    abbrev after_employed : ℕ → Option Packages → M ℕ
    after_employed fuel employed = elim employed [
      | none ↦ pure 0
      | some cs ↦ (do
        plists ← initial_lists ctx cs patterns
        elim (is_any_list_empty plists) [
          | true ↦ pure 0
          | false ↦ (do
            level ← solve_within ctx fuel cs plists []
            s ← get
            pure (length s.solutions))
        ])
    ]

    abbrev Ends : ℕ → Option Packages → Solver → Type 0
    Ends fuel employed t =
        At J (after_employed fuel employed t).1
        × OnOk {A = ℕ} Any (after_employed fuel employed t).0
