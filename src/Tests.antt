-- ===== src/Tests.antt =====
-- The theorems on the directory, the environment, the context, definitions and tools at concrete inputs.
use rmc_spock.Base.{
  OnOk, All, In, ◌⊎◌, inl, ◌≡◌, refl, true, false, List, [], ◌∷◌, ◌++◌, Text, codes, arith, ok,
  text_eq, text_lt, is_digit, strtoul_from,
}
use rmc_spock.Libraries.Samples.{
  sample_libraries, sample_version_laws, list_boost_laws, list_map_laws, table_doc,
  sample-InsertLaws, section_doc, item_doc, object_doc,
}
use rmc_spock.Libraries.Laws.{is_space}
use rmc_spock.Version
use rmc_spock.Version.{
  version_eq, version_lt, extends, whole_number, part_decides, first_difference, parse,
  empty_version,
}
use rmc_spock.Version.Order.{is_whole}
use rmc_spock.Pattern.{PackagePattern, vers_eq, matches_version}
use rmc_spock.Definition.{is_supported_version, DefinedPackage, section_of}
use rmc_spock.Package
use rmc_spock.Package.{Package, Kind, installed, ghost, names_in_common}
use rmc_spock.Package.Match.{matches}
use rmc_spock.PackageLists.{Packages}
use rmc_spock.Directory
use rmc_spock.Directory.{Directory, find, erase, any_p}
use rmc_spock.Directory.Find.{Selected, find_lem, erase-find_alias}
use rmc_spock.Directory.Inserted.{Has, insert-find}
use rmc_spock.Environment.{Environment, get, set, split, join, append_unique, prepend_unique}
use rmc_spock.Environment.Parts.{IsSplit, split_lem}
use rmc_spock.Environment.Added.{Distinct}
use rmc_spock.Environment.Unique.{append_unique_lem, prepend_unique_lem}
use rmc_spock.Context.{
  EnvStackItem, Context, with_stack, push_environment, set_env_var, restore, insert_employed,
  is_employed, among,
}
use rmc_spock.Context.Excursion.{act_push, act_set, excursion_lem}
use rmc_spock.Context.Employ.{insert_employed_lem}
use rmc_spock.Installed.{installed_instance}
use rmc_spock.Installed.Exact.{IsWellFormed, installed_instance-IsWellFormed}
use rmc_spock.Definition.Script.{add_dependencies}
use rmc_spock.Tools.Asking.{ask_install, ask_user}
use rmc_spock.Tools.Answers.{Answered, ask_install-Answered}
use rmc_spock.Tools.Order.{IsIncreasing, HasText}
use rmc_spock.Tools.Listing.{arranged}
use rmc_spock.Tools.Removal.{remove_packages}
use rmc_spock.Tools.Selected.{Described, arranged_lem, remove_packages_lem}
use rmc_spock.Definition.Recorded.{MatchIn, WrittenFor, add_dependencies_lem}
use rmc_spock.Definition.Groups.{versions_by_dependency}
use rmc_spock.Definition.Partition.{Parted, Grouped, versions_by_dependency-Parted}
use rmc_spock.TestData.{v_1_62, v_1_7, boost_pattern, libraries, gcc, boost_ghost, boost_installed}

program : Unit {0}
unfolding version_lt version_eq extends whole_number part_decides is_digit strtoul_from text_eq
    text_lt is_whole is_space matches_version Version.to_string Version.is_empty_version
    names_in_common is_supported_version
program = tt

abbrev known_packages : Directory
known_packages = record {
  packages_by_hash = [];
  packages_by_name = (codes "boost", boost_ghost ∷ []) ∷ [];
}

find_lem_example :
    (pkgs : Packages) × (find known_packages boost_pattern any_p ≡ ok pkgs)
    × All (Selected boost_pattern any_p) pkgs
find_lem_example = find_lem known_packages boost_pattern any_p refl

insert-find_example :
    (after : Directory) × (pkgs : Packages) × (Directory.insert known_packages boost_installed
      ≡ ok after)
    × (find after boost_pattern any_p ≡ ok pkgs)
    × Has 0 pkgs
unfolding program matches
insert-find_example =
    insert-find list_map_laws known_packages boost_installed boost_pattern any_p refl refl refl
      (inl refl) (refl, refl)

abbrev cpp_pattern : PackagePattern
cpp_pattern = record {
  name = codes "c++-compiler";
  vers_op = vers_eq;
  version = empty_version;
  hash = [];
}

erase-find_alias_example :
    (after : Directory) × (erase known_packages gcc ≡ ok after)
    × (find after cpp_pattern any_p ≡ find known_packages cpp_pattern any_p)
unfolding program
erase-find_alias_example =
    erase-find_alias list_map_laws known_packages gcc cpp_pattern any_p refl refl refl refl

split_lem_example :
    (parts : List Text) × (split (codes "/bin::/usr/bin:") (codes ":") ≡ ok parts)
    × IsSplit (codes "/bin::/usr/bin:") parts (codes ":")
split_lem_example = split_lem (codes "/bin::/usr/bin:") (codes ":") refl

abbrev path_variable : Environment
path_variable = (codes "PATH", codes "/bin") ∷ []

append_unique_lem_example :
    (after : Environment) × (parts : List Text) × (values : List Text) × (more : List Text)
    × (append_unique path_variable (codes "PATH") (codes "/bin:/opt") (codes ":") ≡ ok after)
    × (get after (codes "PATH") [] ≡ join (parts ++ more) (codes ":"))
    × IsSplit (get path_variable (codes "PATH") []) parts (codes ":")
    × IsSplit (codes "/bin:/opt") values (codes ":")
    × ((v : Text) → In v values → In v (parts ++ more))
    × ((v : Text) → In v more → In v values)
    × (Distinct parts → Distinct (parts ++ more))
    × ((other dflt : Text)
        → text_eq (codes "PATH") other ≡ false
        → get after other dflt ≡ get path_variable other dflt)
append_unique_lem_example =
    append_unique_lem list_map_laws path_variable (codes "PATH") (codes "/bin:/opt") (codes ":")
      refl

prepend_unique_lem_example :
    (after : Environment) × (parts : List Text) × (values : List Text) × (more : List Text)
    × (prepend_unique path_variable (codes "PATH") (codes "/bin:/opt") (codes ":") ≡ ok after)
    × (get after (codes "PATH") [] ≡ join (more ++ parts) (codes ":"))
    × IsSplit (get path_variable (codes "PATH") []) parts (codes ":")
    × IsSplit (codes "/bin:/opt") values (codes ":")
    × ((v : Text) → In v values → In v (more ++ parts))
    × ((v : Text) → In v more → In v values)
    × (Distinct parts → Distinct (more ++ parts))
    × ((other dflt : Text)
        → text_eq (codes "PATH") other ≡ false
        → get after other dflt ≡ get path_variable other dflt)
prepend_unique_lem_example =
    prepend_unique_lem list_map_laws path_variable (codes "PATH") (codes "/bin:/opt") (codes ":")
      refl

abbrev path_item : EnvStackItem
path_item = record { packages = gcc ∷ []; variables = path_variable }

abbrev some_context : Context
some_context = record {
  env_stack = path_item ∷ [];
  all_packages = known_packages;
  definitions_by_name = [];
}

insert_employed_lem_example :
    (changed : EnvStackItem) × (insert_employed
        (with_stack some_context (path_item ∷ []))
        boost_installed
      ≡ ok (with_stack some_context (changed ∷ [])))
    × (is_employed (with_stack some_context (changed ∷ [])) boost_installed ≡ ok true)
    × ((changed.packages ≡ gcc ∷ [])
        ⊎ ((among boost_installed (gcc ∷ []) ≡ false)
            × (changed.packages ≡ gcc ∷ boost_installed ∷ [])))
insert_employed_lem_example =
    insert_employed_lem list_map_laws some_context path_item [] boost_installed refl

excursion_lem_example :
    restore 1 (
      with_stack some_context (
        record path_item { variables = set path_variable (codes "CC") (codes "gcc") }
        ∷ path_item
        ∷ path_item
        ∷ []))
    ≡ some_context
unfolding program push_environment set_env_var
excursion_lem_example =
    excursion_lem some_context
      (with_stack some_context (
        record path_item { variables = set path_variable (codes "CC") (codes "gcc") }
        ∷ path_item
        ∷ path_item
        ∷ []))
      (act_push ∷ act_set (codes "CC") (codes "gcc") ∷ []) refl

installed_instance-IsWellFormed_example : OnOk (IsWellFormed (codes "0123abcd")) (
    installed_instance
      (codes "0123abcd.yaml")
      (λ s. ok 7)
      8
      3
      (codes "0123abcd")
      (table_doc (
        (codes "package", codes "boost")
        ∷ (codes "version", codes "1.62")
        ∷ (codes "timestamp", codes "2017-Feb-11 10:00:00")
        ∷ [])))
installed_instance-IsWellFormed_example =
    installed_instance-IsWellFormed (codes "0123abcd.yaml") (λ s. ok 7) 8 3 (codes "0123abcd")
      (table_doc (
        (codes "package", codes "boost")
        ∷ (codes "version", codes "1.62")
        ∷ (codes "timestamp", codes "2017-Feb-11 10:00:00")
        ∷ []))

add_dependencies_lem_example :
    ((t : Text)
      → In t
          (add_dependencies (boost_pattern ∷ []) (gcc ∷ boost_installed ∷ []) (codes "spock" ∷ []))
      → WrittenFor (boost_pattern ∷ []) (gcc ∷ boost_installed ∷ []) t ⊎ In t (codes "spock" ∷ []))
    × ((t : Text)
        → In t (codes "spock" ∷ [])
        → In t (
            add_dependencies
              (boost_pattern ∷ [])
              (gcc ∷ boost_installed ∷ [])
              (codes "spock" ∷ [])))
    × ((pattern : PackagePattern) (pkg : Package)
        → In pattern (boost_pattern ∷ [])
        → MatchIn pattern (gcc ∷ boost_installed ∷ []) pkg
        → (found : Package) × MatchIn pattern (gcc ∷ boost_installed ∷ []) found
          × In (Package.to_string found) (
              add_dependencies
                (boost_pattern ∷ [])
                (gcc ∷ boost_installed ∷ [])
                (codes "spock" ∷ [])))
add_dependencies_lem_example =
    add_dependencies_lem (boost_pattern ∷ []) (gcc ∷ boost_installed ∷ []) (codes "spock" ∷ [])

arranged_lem_example :
    IsIncreasing Package.to_string (arranged (gcc ∷ boost_installed ∷ gcc ∷ []))
    × All
        (λ pkg. In pkg (gcc ∷ boost_installed ∷ gcc ∷ []))
        (arranged (gcc ∷ boost_installed ∷ gcc ∷ []))
    × ((pkg : Package)
        → In pkg (gcc ∷ boost_installed ∷ gcc ∷ [])
        → HasText Package.to_string
            (Package.to_string pkg)
            (arranged (gcc ∷ boost_installed ∷ gcc ∷ [])))
arranged_lem_example = arranged_lem (gcc ∷ boost_installed ∷ gcc ∷ [])

remove_packages_lem_example :
    OnOk
      (Described true false some_context (gcc ∷ boost_installed ∷ gcc ∷ []))
      (remove_packages true false some_context (gcc ∷ boost_installed ∷ gcc ∷ []))
remove_packages_lem_example =
    remove_packages_lem true false some_context (gcc ∷ boost_installed ∷ gcc ∷ [])

-- The user types what is no version.
ask_install-Answered_example :
    Answered (Package.versions boost_ghost) (ask_install boost_ghost ask_user (codes "2" ∷ []))
unfolding program Package.versions
ask_install-Answered_example =
    ask_install-Answered list_boost_laws sample_version_laws boost_ghost ask_user (codes "2" ∷ [])
      v_1_62 refl refl refl (codes "1", codes "62" ∷ [], refl, (omega arith), (λ e. cc), refl, refl)

abbrev boost_definition : DefinedPackage
boost_definition = record {
  name = codes "boost";
  config_file = codes "boost.yaml";
  config =
      section_doc (codes "dependencies")
        (item_doc (object_doc (codes "boost") (codes "build") (codes "c++-compiler" ∷ [])));
  versions = v_1_7 ∷ v_1_62 ∷ [];
}

versions_by_dependency-Parted_example :
    OnOk
      (λ gs.
        Parted (v_1_7 ∷ v_1_62 ∷ []) gs
        × Grouped
            (sample_libraries.yaml.items (section_of boost_definition (codes "dependencies")).node)
            (v_1_7 ∷ v_1_62 ∷ [])
            gs)
      (versions_by_dependency boost_definition)
versions_by_dependency-Parted_example =
    versions_by_dependency-Parted sample-InsertLaws boost_definition
