-- ===== src/Install/Solved.antt =====
-- What `solveDependencies` of src/Spock/DefinedPackage.C returns: the solver and the order of the
-- dependency lattice at the calls of one context.
use rmc_spock.Base.{◌≡◌, List, ℕ, Text, ok}
use rmc_spock.Libraries.{Libraries, VersionNumber}
use rmc_spock.Libraries.Graphs.{GraphOps}
use rmc_spock.Pattern.{PackagePattern}
use rmc_spock.PackageLists.{Packages, PackageLists}
use rmc_spock.Definition.{DefinedPackage}
use rmc_spock.Context
use rmc_spock.Context.{Context}
use rmc_spock.Context.Ordered.{InDependencyOrder}
use rmc_spock.Solver.Choice.{IsSolution}
use rmc_spock.Install.Solving.{solver_context, new_solver, all_names}

module _ ⦃lib : Libraries⦄ ⦃graphs : GraphOps⦄ where
  -- A solution for the patterns of dependencies, with the packages in use, in an order of dependencies.
  abbrev pub Solved : ℕ → DefinedPackage → VersionNumber → Text → Text → Context → Packages → Type 0
  Solved address d version type1 type2 ctx solution =
      (names : List PackagePattern) × (in_use : Packages) × (all_names d version type1 type2
        ≡ ok names)
      × (Context.employed ctx ≡ ok in_use)
      × IsSolution (solver_context ctx in_use) names (new_solver address) solution
      × InDependencyOrder solution
