-- ===== src/InstallTests.antt =====
-- The theorems on installations at concrete inputs: one whose script fails, and one whose dependencies
-- are solved.
use rmc_spock.Base.{true, false, [], ◌∷◌, Text, codes, ok, ◌≡◌, refl, text_eq, text_lt}
use rmc_spock.Libraries.Samples.{Doc, no_doc, entry_doc, item_doc, text_doc, list_doc, section_doc}
use rmc_spock.Package.{Package}
use rmc_spock.Context.Lattice.{sort_by_dependency_lattice}
use rmc_spock.Solver.Constraint.{append_constraint}
use rmc_spock.Solver.Search.{
  solve, attempt, try_each, solve_within, employ, initial_lists, record_solution, with_dependencies,
}
use rmc_spock.Solver.Extend.{
  extend_lists, extend_by, narrow_all, narrow, matching_versions, remove_conflicting,
  find_excluding, is_constraint, extend_with,
}
use rmc_spock.Install.Solving.{solve_dependencies}
use rmc_spock.Install.Solved.{Solved}
use rmc_spock.Libraries.Graphs.{GraphOps}
use rmc_spock.Libraries.ListGraphs.{list_graphs}
use rmc_spock.Definition.{DefinedPackage}
use rmc_spock.Definition.Script.{Settings}
use rmc_spock.Context
use rmc_spock.Context.{Context}
use rmc_spock.Install.{Outside, Options, command_failed}
use rmc_spock.Install.Build.{install}
use rmc_spock.Install.Stack.{Grown, install-env_stack}
use rmc_spock.TestData.{v_1_7, libraries, gcc, boost_installed}

instance abbrev graphs : GraphOps
graphs = list_graphs

-- For each version, `shell` is the command, and there are no dependencies.
abbrev shell_doc : Text → Doc
shell_doc command = item_doc (
    entry_doc (codes "version") (text_doc (codes "zlib"))
      (entry_doc (codes "shell") (text_doc command) no_doc))

abbrev zlib : DefinedPackage
zlib = record {
  name = codes "zlib";
  config_file = codes "zlib.yaml";
  config =
      entry_doc (codes "dependencies")
        (item_doc (
          entry_doc (codes "version") (text_doc (codes "zlib")) (
            entry_doc (codes "install") (list_doc [])
              (entry_doc (codes "build") (list_doc []) no_doc))))
        (entry_doc (codes "install") (shell_doc (codes "make install"))
          (section_doc (codes "download") (shell_doc (codes "fetch"))));
  versions = v_1_7 ∷ [];
}

-- Every file is there, and every script fails.
abbrev broken : Outside
broken = record {
  words_of = λ line. line ∷ [];
  subshell = λ script variables. command_failed;
  opt_directory = codes "/opt";
  download_directory = codes "/tmp";
  working_directory = codes "/work";
  random_hash = codes "0123abcd";
  config_hash = [];
  is_downloaded = true;
  download_made = true;
  download_copied = true;
  has_tarball = true;
  is_attempted = λ file. false;
  yaml_made = true;
  timestamp = codes "2017-Feb-11 10:00:00";
  spock_itself = codes "spock=2.2.0@00000000";
  config_of = λ hash. no_doc;
  time_from_string = λ s. ok 7;
  used_time_stamp = 8;
  address_of = λ hash. 5;
  parasites_made = true;
  parasites_file = [];
}

abbrev one_environment : Context
one_environment = record {
  env_stack = record { packages = gcc ∷ []; variables = [] } ∷ [];
  all_packages = record { packages_by_hash = []; packages_by_name = [] };
  definitions_by_name = [];
}

abbrev zlib_settings : Settings
zlib_settings = record { version = v_1_7; hash = [] }

abbrev usual : Options
usual = record { quiet = true; try_again = false; install_dir_override = [] }

install-env_stack_example :
    ((install broken 9 zlib zlib_settings usual one_environment).1.env_stack
      ≡ one_environment.env_stack)
    × Grown one_environment.all_packages
        (install broken 9 zlib zlib_settings usual one_environment).1.all_packages
    × ((install broken 9 zlib zlib_settings usual one_environment).1.definitions_by_name
        ≡ one_environment.definitions_by_name)
install-env_stack_example = install-env_stack broken 9 zlib zlib_settings usual one_environment

-- A definition that needs Boost to be installed, and a directory that knows one package of that name.
abbrev reader : DefinedPackage
reader = record zlib {
  config =
      entry_doc (codes "dependencies")
        (item_doc (
          entry_doc (codes "version") (text_doc (codes "zlib"))
            (entry_doc (codes "install") (list_doc (codes "boost" ∷ [])) no_doc)))
        no_doc;
}

abbrev boost_apart : Package
boost_apart = record boost_installed { address = 2 }

abbrev with_boost : Context
with_boost = record {
  env_stack = record { packages = gcc ∷ []; variables = [] } ∷ [];
  all_packages = record {
    packages_by_hash = [];
    packages_by_name = (codes "boost", boost_apart ∷ []) ∷ [];
  };
  definitions_by_name = [];
}

-- The run finds the package of the directory.
boost_solved :
    solve_dependencies 4 10 reader v_1_7 (codes "install") [] with_boost
    ≡ ok (boost_apart ∷ gcc ∷ [])
unfolding solve_dependencies rmc_spock.Install.Solving.all_names
    rmc_spock.Install.Solving.dependency_names rmc_spock.Definition.read_versioned_node
    rmc_spock.Definition.read_list_of_scalars Context.employed Context.find_installed
    Context.find_packages rmc_spock.Directory.find sort_by_dependency_lattice
    rmc_spock.Libraries.ListGraphs.path_length solve append_constraint attempt try_each solve_within
    employ initial_lists record_solution with_dependencies extend_lists extend_by narrow_all narrow
    matching_versions remove_conflicting find_excluding is_constraint extend_with
    rmc_spock.Pattern.parse text_eq rmc_spock.Pattern.matches_version rmc_spock.Version.extends
    rmc_spock.Version.version_eq rmc_spock.Version.is_empty_version text_lt
    rmc_spock.Package.ghost_with_versions rmc_spock.Package.excludes rmc_spock.Package.to_string
    rmc_spock.Package.Match.matches rmc_spock.PackageLists.is_any_list_empty
    rmc_spock.PackageLists.sort rmc_spock.Base.sort_by rmc_spock.PackageLists.nth_list
    rmc_spock.Package.dependency_patterns rmc_spock.Version.parse rmc_spock.Base.unique_by
    rmc_spock.Directory.packages_of rmc_spock.Package.identical rmc_spock.Version.to_string
boost_solved = refl
