-- ===== src/Install/Solving.antt =====
-- `solveDependencies` of src/Spock/DefinedPackage.C, and what the solver asks of a context.
use rmc_spock.Base.{
  ℕ, true, false, ◌==◌, none, some, List, [], ◌++◌, Text, codes, is_empty, get_elem?, Outcome, ok,
  threw, aborted, not_found, ◌>>=◌, if◌then◌else◌,
}
use rmc_spock.Libraries.{Libraries, VersionNumber}
use rmc_spock.Libraries.Graphs.{GraphOps}
use rmc_spock.Pattern
use rmc_spock.Pattern.{PackagePattern}
use rmc_spock.Definition.{
  DefinedPackage, section_of, required_node, read_versioned_node, read_list_of_scalars,
}
use rmc_spock.PackageLists.{Packages}
use rmc_spock.Context
use rmc_spock.Context.{Context}
use rmc_spock.Context.Lattice.{sort_by_dependency_lattice}
use rmc_spock.Solver.State.{Solver, SolverContext}
use rmc_spock.Solver.Search.{solve}

module _ ⦃lib : Libraries⦄ where
  -- `fail` for a package.
  abbrev pub fail_text_for : DefinedPackage → Text → Text → Text
  fail_text_for d mesg output =
      mesg
      ++ (codes " for "
          ++ (d.name
              ++ (if is_empty output
                  then []
                  else codes "; see " ++ (output ++ codes " for details"))))

  -- The calls of the context that the solver makes.
  abbrev pub solver_context : ⦃graphs : GraphOps⦄ → Context → Packages → SolverContext
  solver_context ctx in_use = record {
    employed = in_use;
    find_installed = Context.find_installed ctx;
    find_packages = Context.find_packages ctx;
    sort_by_dependency_lattice = sort_by_dependency_lattice;
  }

  -- `Solver(ctx)`. The solver does not look at `onlyInstalled`.
  abbrev pub new_solver : ℕ → Solver
  new_solver address = record {
    max_solutions = 1;
    full_solutions = true;
    solutions = [];
    messages = lib.texts.empty;
    latest_message = [];
    n_steps = 0;
    next_address = address;
  }

  -- The patterns of the dependencies of one type.
  unfoldable pub dependency_names :
      DefinedPackage → VersionNumber → Text → Outcome (List PackagePattern)
  dependency_names d version type = do
    node ← read_versioned_node (section_of d (codes "dependencies")) version type required_node
    read_list_of_scalars Pattern.parse node required_node

  -- The second type of dependencies, if there is one.
  unfoldable pub all_names :
      DefinedPackage → VersionNumber → Text → Text → Outcome (List PackagePattern)
  unfolding dependency_names
  all_names d version type1 type2 = do
    names ← dependency_names d version type1
    elim (is_empty type2) [
      | true ↦ ok names
      | false ↦ (do more ← dependency_names d version type2; ok (names ++ more))
    ]

  abbrev pub types_text : Text → Text → Text
  types_text type1 type2 = if is_empty type2 then type1 else type1 ++ (codes "+" ++ type2)

  -- The first solution, on fuel for the search.
  unfoldable pub solve_dependencies :
      ⦃graphs : GraphOps⦄
      → ℕ
      → ℕ
      → DefinedPackage
      → VersionNumber
      → Text
      → Text
      → Context
      → Outcome Packages
  unfolding all_names
  solve_dependencies fuel address d version type1 type2 ctx = do
    names ← all_names d version type1 type2
    in_use ← Context.employed ctx
    let r = solve (solver_context ctx in_use) fuel names (new_solver address)
    n ← r.0
    if n == 0
        then threw (
            not_found (
              fail_text_for d
                (codes "could not satisfy " ++ (types_text type1 type2 ++ codes " dependencies"))
                []))
        else elim (get_elem? r.1.solutions 0) [ none ↦ aborted | some solution ↦ ok solution ]
