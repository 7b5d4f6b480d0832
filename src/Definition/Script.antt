-- ===== src/Definition/Script.antt =====
-- The texts that src/Spock/DefinedPackage.C writes: `mySpec`, the shell script of `createShellScript`,
-- and what `installConfigFile` adds to the file that describes an installed package.
use rmc_spock.Base.{
  ℕ, ◌&&◌, ◌||◌, List, [], ◌∷◌, ◌++◌, ◌-◌, Option, none, some, Text, codes, text_eq, text_lt,
  is_empty, is_digit, leb, ◌==◌, map, Outcome, ok, ◌>>=◌, if◌then◌else◌,
}
use rmc_spock.Libraries.{VersionNumber, Libraries}
use rmc_spock.Version
use rmc_spock.Version.{is_empty_version}
use rmc_spock.Pattern.{PackagePattern}
use rmc_spock.Package
use rmc_spock.Package.{Package}
use rmc_spock.Package.Match.{matches}
use rmc_spock.Definition.{
  DefinedPackage, section_of, optional_node, read_list_of_scalars, read_versioned_node,
  defined_dependency_patterns,
}
use rmc_spock.Definition.Parasites.{shell_variables}

-- The fields of `DefinedPackage::Settings` that the texts depend on.
pub record Settings : Type 0 where
  pub version : VersionNumber
  pub hash : Text

-- `boost::to_upper_copy` in the "C" locale, and the loop that puts an underscore for all but letters
-- and digits.
unfoldable pub upper_byte : ℕ → ℕ
upper_byte ch = if leb b'a' ch && leb ch b'z' then ch - 32 else ch

unfoldable pub name_byte : ℕ → ℕ
unfolding upper_byte is_digit
name_byte ch =
    let up = upper_byte ch in
    if is_digit up || leb b'A' up && leb up b'Z' || leb b'a' up && leb up b'z' || up == b'_'
    then up
    else b'_'

unfoldable pub upper_name : Text → Text
unfolding name_byte
upper_name name = map name_byte name

-- Lines, each with its end.
unfoldable pub unlines : List Text → Text
unlines [] = []
unlines (line ∷ lines) = line ++ (10 ∷ unlines lines)

abbrev in_quotes : Text → Text → Text
in_quotes key value = key ++ (codes "='" ++ (value ++ codes "'"))

-- `std::set<std::string>`, in its order.
unfoldable pub set_insert : Text → List Text → List Text
set_insert t [] = t ∷ []
set_insert t (s ∷ set) =
    let behind = set_insert t set in
    if text_lt t s then t ∷ s ∷ set else (if text_eq t s then s ∷ set else s ∷ behind)

module _ ⦃lib : Libraries⦄ where
  unfoldable pub my_spec : DefinedPackage → Settings → Text
  my_spec d st =
      d.name
      ++ ((if is_empty_version st.version
            then []
            else codes "=" ++ Version.to_string lib.boost st.version)
          ++ (if is_empty st.hash then [] else codes "@" ++ st.hash))

  -- The text of the script, for the directory that it runs in.
  unfoldable pub script_text :
      DefinedPackage → Settings → Text → Text → List Text → List Text → Text
  unfolding unlines upper_name
  script_text d st cwd commands extra_vars variables =
      let version = Version.to_string lib.boost st.version in
      unlines (
        codes "#!/bin/bash"
          ∷ (codes "# Script for Spock's "
              ++ (d.name ++ (codes "=" ++ (version ++ codes " package"))))
          ∷ codes "# This is a generated file -- do not edit."
          ∷ []
          ∷ (codes "cd '" ++ (cwd ++ codes "'"))
          ∷ []
          ∷ codes "# --- Spock boilerplate ---"
          ∷ codes "export"
          ∷ in_quotes (codes "PACKAGE_NAME") d.name
          ∷ in_quotes (codes "PACKAGE_NAME_UC") (upper_name d.name)
          ∷ in_quotes (codes "PACKAGE_VERSION") version
          ∷ in_quotes (codes "PACKAGE_HASH") st.hash
          ∷ in_quotes (codes "PACKAGE_SPEC")
              (d.name ++ (codes "=" ++ (version ++ (codes "@" ++ st.hash))))
          ∷ extra_vars
        ++ (codes "source $SPOCK_SCRIPTS/impl/installation-support.sh || exit 1"
              ∷ []
              ∷ codes "# --- Package variables ---"
              ∷ variables
            ++ ([]
                ∷ codes "# --- Package script ---"
                ∷ codes "echo \"cwd is $(pwd)\""
                ∷ codes "set -ex"
                ∷ commands
                ∷ codes "# --- Spock finalization ---"
                ∷ codes "spock-finalize"
                ∷ [])))

  -- `createShellScript`, up to the file that it writes.
  unfoldable pub create_shell_script :
      DefinedPackage → Settings → Text → Text → List Text → Outcome Text
  unfolding shell_variables script_text
  create_shell_script d st cwd commands extra_vars = do
    variables ← shell_variables d st.version
    ok (script_text d st cwd commands extra_vars variables)

  -- The first of the packages that a pattern matches.
  unfoldable pub first_match : PackagePattern → List Package → Option Package
  first_match pattern [] = none
  first_match pattern (pkg ∷ pkgs) =
      let later = first_match pattern pkgs in if matches pattern pkg then some pkg else later

  unfoldable pub add_found : Option Package → List Text → List Text
  unfolding set_insert
  add_found none set = set
  add_found (some pkg) set = set_insert (Package.to_string pkg) set

  -- The loop of `installConfigFile` over the dependency patterns.
  unfoldable pub add_dependencies : List PackagePattern → List Package → List Text → List Text
  unfolding first_match add_found
  add_dependencies [] pkgs set = set
  add_dependencies (pattern ∷ patterns) pkgs set =
      add_dependencies patterns pkgs (add_found (first_match pattern pkgs) set)

  -- What `installConfigFile` appends, for a time stamp and the text of Spock's own package.
  unfoldable pub config_text : DefinedPackage → Settings → Text → Text → List Package → Outcome Text
  unfolding read_versioned_node read_list_of_scalars defined_dependency_patterns add_dependencies
      unlines
  config_text d st timestamp spock_itself install_deps =
      let item = λ (s : Text). codes "  - '" ++ (s ++ codes "'") in
      do
        loc ←
            read_versioned_node (section_of d (codes "dependencies")) st.version (codes "aliases")
              optional_node
        aliases ← read_list_of_scalars (λ t. ok t) loc optional_node
        patterns ← defined_dependency_patterns d st.version
        ok (
            unlines (
              []
                ∷ (codes "package: '" ++ (d.name ++ codes "'"))
                ∷ (codes "version: '" ++ (Version.to_string lib.boost st.version ++ codes "'"))
                ∷ (codes "timestamp: \"" ++ (timestamp ++ codes "\""))
                ∷ (if is_empty aliases then [] else [] ∷ codes "aliases:" ∷ map item aliases)
              ++ ([]
                  ∷ codes "dependencies:"
                  ∷ map item
                      (add_dependencies patterns install_deps (set_insert spock_itself [])))))
