-- ===== src/Installed.antt =====
-- `InstalledPackage::instance` of src/Spock/InstalledPackage.C, for the document that was loaded from
-- the package's YAML file. The value of `as<std::string>` of a variable that is no scalar, which
-- yaml-cpp refuses, is whatever the parameter gives.
pub mod Exact
use rmc_spock.Base.{
  ℕ, Bool, true, false, not, ◌||◌, List, [], ◌∷◌, ◌++◌, Text, codes, is_empty, Outcome, ok, threw,
  syntax_error, ◌>>=◌, ◌>>◌, assert, if◌then◌else◌,
}
use rmc_spock.Libraries.{
  VersionNumber, Libraries, NodeType, undefined, null, scalar, sequence, mapping,
}
use rmc_spock.Version
use rmc_spock.Version.{empty_version, is_empty_version}
use rmc_spock.Pattern
use rmc_spock.Pattern.{PackagePattern, VersOp, vers_eq}
use rmc_spock.Definition.{is_type}
use rmc_spock.Package.{Package, installed, is_hash, set_name}
use rmc_spock.Environment.{Environment, set}

abbrev pub is_vers_eq : VersOp → Bool
is_vers_eq vers_eq = true
is_vers_eq _ = false

module _ ⦃lib : Libraries⦄ (config_file : Text) where
  -- The exceptions of the reader.
  abbrev pub reject : {A : Type 0} → Text → Outcome A
  reject mesg = threw (syntax_error (mesg ++ (codes " in file " ++ config_file)))

  abbrev pub is_defined : lib.yaml.Node → Bool
  is_defined n = not (is_type undefined n)

  abbrev insert_text : lib.texts.Carrier → Text → lib.texts.Carrier
  insert_text aliases alias = if is_empty alias then aliases else lib.texts.insert aliases alias

  unfoldable pub read_alias_items :
      lib.texts.Carrier → List lib.yaml.Node → Outcome lib.texts.Carrier
  unfolding is_type
  read_alias_items aliases [] = ok aliases
  read_alias_items aliases (item ∷ items) = elim (is_type scalar item) [
    | false ↦ reject (codes "\"aliases\" sequence item is not scalar")
    | true ↦ read_alias_items (insert_text aliases (lib.yaml.as_text item)) items
  ]

  unfoldable pub read_aliases : lib.yaml.Node → Outcome lib.texts.Carrier
  unfolding read_alias_items
  read_aliases n =
      if not (is_defined n)
      then ok lib.texts.empty
      else (if is_type scalar n
          then ok (insert_text lib.texts.empty (lib.yaml.as_text n))
          else (if is_type sequence n
              then read_alias_items lib.texts.empty (lib.yaml.items n)
              else reject (codes "\"aliases\" should be a list or scalar")))

  unfoldable pub read_names : List lib.yaml.Node → Outcome (List Text)
  unfolding is_type
  read_names [] = ok []
  read_names (item ∷ items) = elim (is_type scalar item) [
    | false ↦ reject (codes "dependency sequence item is not scalar")
    | true ↦ (do names ← read_names items; ok (lib.yaml.as_text item ∷ names))
  ]

  unfoldable pub read_dependency_names : lib.yaml.Node → Outcome (List Text)
  unfolding read_names
  read_dependency_names n =
      if is_type scalar n
      then ok (lib.yaml.as_text n ∷ [])
      else (if is_type sequence n
          then read_names (lib.yaml.items n)
          else reject (codes "\"dependencies\" should be a list or scalar"))

  -- The loop that makes the patterns, with its assertions.
  unfoldable pub read_patterns : List Text → Outcome (List PackagePattern)
  unfolding is_empty_version is_hash
  read_patterns [] = ok []
  read_patterns (name ∷ names) = do
    pattern ← Pattern.parse name
    assert (not (is_empty pattern.name))
    assert (is_vers_eq pattern.vers_op)
    assert (not (is_empty_version pattern.version))
    assert (is_hash pattern.hash)
    rest ← read_patterns names
    ok (pattern ∷ rest)

  -- The dependencies, and the word for them that is refused.
  unfoldable pub read_dependencies : lib.yaml.Node → Outcome (List PackagePattern)
  unfolding read_dependency_names read_patterns
  read_dependencies config =
      let n = lib.yaml.at_key config (codes "dependencies") in
      if is_defined n
      then (do names ← read_dependency_names n; read_patterns names)
      else (if is_defined (lib.yaml.at_key config (codes "depends"))
          then reject (codes "use \"dependencies\" instead of \"depends\"")
          else ok [])

  unfoldable pub set_each : Environment → List (Text × lib.yaml.Node) → Environment
  unfolding set
  set_each env [] = env
  set_each env ((name, value) ∷ pairs) = set_each (set env name (lib.yaml.as_text value)) pairs

  unfoldable pub read_environment : lib.yaml.Node → Outcome Environment
  unfolding set_each
  read_environment n =
      if not (is_defined n)
      then ok (lib.maps Text).empty
      else (if is_type mapping n
          then ok (set_each (lib.maps Text).empty (lib.yaml.pairs n))
          else reject (codes "malformed environment map"))

  -- The text of a scalar, the empty text otherwise.
  abbrev pub scalar_text : lib.yaml.Node → Text
  scalar_text n = if is_type scalar n then lib.yaml.as_text n else []

  -- The timestamp is a scalar.
  abbrev pub assert_scalar : lib.yaml.Node → Outcome (Unit {0})
  assert_scalar n =
      if not (is_type scalar n)
      then threw (syntax_error (codes "missing timestamp in file " ++ config_file))
      else ok tt

  abbrev pub version_of : lib.yaml.Node → VersionNumber
  version_of n =
      if is_type scalar n then Version.parse lib.boost (lib.yaml.as_text n) else empty_version

  module _ (time_from_string : Text → Outcome ℕ) (used_time_stamp address : ℕ) where
    -- The parts behind the name and the version.
    unfoldable pub read_parts : Text → Text → VersionNumber → lib.yaml.Node → Outcome Package
    unfolding read_aliases read_dependencies read_environment is_type
    read_parts hash name version config = do
      aliases ← read_aliases (lib.yaml.at_key config (codes "aliases"))
      patterns ← read_dependencies config
      environment ← read_environment (lib.yaml.at_key config (codes "environment"))
      assert_scalar (lib.yaml.at_key config (codes "timestamp"))
      time ← time_from_string (lib.yaml.as_text (lib.yaml.at_key config (codes "timestamp")))
      ok (record {
        address = address;
        hash = hash;
        name = name;
        aliases = aliases;
        kind = installed (record {
          version = version;
          dependency_patterns = patterns;
          installed_time_stamp = time;
          used_time_stamp = used_time_stamp;
          environment_search_paths = environment;
        });
      })

    -- The fields of the object, in the order in which they are read. The assertion is that of
    -- `name(s)`.
    unfoldable pub installed_instance : Text → lib.yaml.Node → Outcome Package
    unfolding read_parts is_hash is_type is_empty_version
    installed_instance hash config =
        let name_node = lib.yaml.at_key config (codes "package") in
        let version = version_of (lib.yaml.at_key config (codes "version")) in
        assert (is_hash hash)
        >> (assert (not (is_type scalar name_node) || not (is_empty (scalar_text name_node)))
            >> (if is_empty (scalar_text name_node)
                then threw (syntax_error (codes "no package name in file " ++ config_file))
                else (if is_empty_version version
                    then threw (syntax_error (codes "no package version in file " ++ config_file))
                    else read_parts hash (scalar_text name_node) version config)))
