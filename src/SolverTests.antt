-- ===== src/SolverTests.antt =====
-- The theorems on the solver at concrete inputs, and a run.
use rmc_spock.TestData.{boost_pattern, libraries, gcc, boost_ghost, boost_installed}
use rmc_spock.Base.{
  OnOk, All, ◌⊎◌, ◌≡◌, refl, ◌↔◌, true, false, List, [], ◌∷◌, ◌++◌, Text, codes, arith, ok, text_eq,
  text_lt, is_digit, strtoul_from,
}
use rmc_spock.Libraries.Laws.{is_space}
use rmc_spock.Version
use rmc_spock.Version.{
  version_eq, version_lt, extends, whole_number, part_decides, first_difference, parse,
  empty_version,
}
use rmc_spock.Version.Order.{is_whole}
use rmc_spock.Pattern.{
  PackagePattern, vers_eq, vers_hy, vers_le, vers_ge, vers_lt, vers_gt, vers_ne, matches_version,
}
use rmc_spock.Definition.{is_supported_version}
use rmc_spock.Package
use rmc_spock.Package.{Package, Kind, installed, ghost, names_in_common}
use rmc_spock.PackageLists.{Packages}
use rmc_spock.Solver.State.{Solver, SolverContext}
use rmc_spock.Solver.Search.{
  solve, attempt, try_each, solve_within, employ, initial_lists, record_solution, with_dependencies,
}
use rmc_spock.Solver.Extend.{
  extend_lists, extend_by, narrow_all, narrow, matching_versions, remove_conflicting,
  find_excluding, is_constraint, extend_with,
}
use rmc_spock.Solver.Constraint.{append_constraint}

solve_program : Unit {0}
unfolding solve append_constraint attempt try_each solve_within employ initial_lists record_solution
    with_dependencies extend_lists extend_by narrow_all narrow matching_versions remove_conflicting
    find_excluding is_constraint extend_with rmc_spock.Pattern.parse
solve_program = tt

program : Unit {0}
unfolding version_lt version_eq extends whole_number part_decides is_digit strtoul_from text_eq
    text_lt is_whole is_space matches_version Version.to_string Version.is_empty_version
    names_in_common is_supported_version
program = tt

abbrev idle : Solver
idle = record {
  max_solutions = 1;
  full_solutions = true;
  solutions = [];
  messages = [];
  latest_message = [];
  n_steps = 0;
  next_address = 10;
}

abbrev sample_context : SolverContext
sample_context = record {
  employed = gcc ∷ [];
  find_installed = λ pattern. ok [];
  find_packages = λ pattern. ok (boost_installed ∷ boost_ghost ∷ []);
  sort_by_dependency_lattice = λ packages. ok packages;
}

solve_one : (solve sample_context 3 (boost_pattern ∷ []) idle).0 ≡ ok 1
unfolding solve_program text_eq matches_version extends version_eq text_lt
    rmc_spock.Package.ghost_with_versions rmc_spock.Package.excludes
    rmc_spock.PackageLists.is_any_list_empty rmc_spock.PackageLists.sort rmc_spock.Base.sort_by
    rmc_spock.PackageLists.nth_list rmc_spock.Package.dependency_patterns
solve_one = refl
