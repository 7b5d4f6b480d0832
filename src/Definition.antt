-- ===== src/Definition.antt =====
-- The readers of src/Spock/DefinedPackage.C: a package definition is a YAML file, whose sections
-- are lists of objects selected by a version pattern.
pub mod Groups
pub mod Taken
pub mod Partition
pub mod Parasites
pub mod Script
pub mod Checked
pub mod Recorded
use rmc_spock.Base.{
  ℕ, suc, Bool, true, false, not, List, [], ◌∷◌, ◌++◌, Text, codes, is_empty, any, Outcome, ok,
  threw, not_found, syntax_error, Exception, ◌>>=◌, ◌>>◌, assert, if◌then◌else◌,
}
use rmc_spock.Libraries.{
  VersionNumber, Libraries, NodeType, undefined, null, scalar, sequence, mapping,
}
use rmc_spock.Version
use rmc_spock.Version.{version_eq, is_empty_version}
use rmc_spock.Pattern
use rmc_spock.Pattern.{PackagePattern, VersOp, vers_eq, vers_hy, matches_version}

-- `VERSION` of src/Spock/Spock.C.
abbrev pub spock_version : Text
spock_version = codes "2.2.1"

pub data Required : Type 0 where
  optional_node required_node : Required

module _ ⦃lib : Libraries⦄ where
  pub record Location : Type 0 where
    pub file_name : Text
    pub node_path : Text
    pub node : lib.yaml.Node

  -- The message of `fail` for a location.
  pub fail_text : Location → Text → Text
  fail_text loc mesg =
      let m =
        if is_empty loc.node_path
        then mesg
        else mesg
          ++ ((if is_empty mesg then [] else codes " ") ++ (codes "at " ++ loc.node_path)) in
      if is_empty loc.file_name
      then m
      else m ++ ((if is_empty m then [] else codes " ") ++ (codes "in " ++ loc.file_name))

  abbrev pub fail {ℓ} : {A : Type ℓ} → (Text → Exception) → Location → Text → Outcome A
  fail e loc mesg = threw (e (fail_text loc mesg))

  -- `!node || node.IsNull()`.
  unfoldable pub is_missing : lib.yaml.Node → Bool
  is_missing n = elim (lib.yaml.node_type n) [ undefined ↦ true | null ↦ true | _ ↦ false ]

  unfoldable pub is_type : NodeType → lib.yaml.Node → Bool
  is_type undefined n = elim (lib.yaml.node_type n) [ undefined ↦ true | _ ↦ false ]
  is_type null n = elim (lib.yaml.node_type n) [ null ↦ true | _ ↦ false ]
  is_type scalar n = elim (lib.yaml.node_type n) [ scalar ↦ true | _ ↦ false ]
  is_type sequence n = elim (lib.yaml.node_type n) [ sequence ↦ true | _ ↦ false ]
  is_type mapping n = elim (lib.yaml.node_type n) [ mapping ↦ true | _ ↦ false ]

  -- `readScalar<std::string>`.
  unfoldable pub read_scalar : Location → Required → Outcome Text
  unfolding is_missing is_type
  read_scalar loc req =
      if is_missing loc.node
      then elim req [
        | required_node ↦ fail syntax_error loc (codes "missing property")
        | optional_node ↦ ok []
      ]
      else (if is_type scalar loc.node
          then ok (lib.yaml.as_text loc.node)
          else fail syntax_error loc (codes "scalar expected"))

  -- The loop of `readListOfScalars` over the items of a sequence, from item `i`.
  unfoldable pub read_items {ℓ} :
      {A : Type ℓ} → (Text → Outcome A) → Location → ℕ → List lib.yaml.Node → Outcome (List A)
  unfolding is_type
  read_items make loc i [] = ok []
  read_items make loc i (item ∷ items) =
      let rest = read_items make loc (suc i) items in
      if not (is_type scalar item)
      then fail syntax_error loc (codes "scalar expected for item #" ++ lib.boost.lexical_cast i)
      else (do a ← make (lib.yaml.as_text item); as' ← rest; ok (a ∷ as'))

  -- `readListOfScalars<T>`, where `make` is the conversion to `T`.
  unfoldable pub read_list_of_scalars {ℓ} :
      {A : Type ℓ} → (Text → Outcome A) → Location → Required → Outcome (List A)
  unfolding read_items is_missing is_type
  read_list_of_scalars make loc req =
      if is_missing loc.node
      then elim req [
        | required_node ↦ fail syntax_error loc (codes "missing property")
        | optional_node ↦ ok []
      ]
      else (if is_type scalar loc.node
          then (do a ← make (lib.yaml.as_text loc.node); ok (a ∷ []))
          else (if is_type sequence loc.node
              then read_items make loc 0 (lib.yaml.items loc.node)
              else fail syntax_error loc (codes "malformed property")))

  -- The loop of `readVersionedNodes`, from item `i`.
  unfoldable pub select_items :
      Location → VersionNumber → ℕ → List lib.yaml.Node → Outcome (List lib.yaml.Node)
  unfolding is_type
  select_items loc requested i [] = ok []
  select_items loc requested i (item ∷ items) =
      let rest = select_items loc requested (suc i) items in
      let version = lib.yaml.at_key item (codes "version") in
      if is_type null version
      then fail syntax_error loc (codes "missing version for item #" ++ lib.boost.lexical_cast i)
      else (if not (is_type scalar version)
          then fail syntax_error loc
              (codes "version must be scalar for item #" ++ lib.boost.lexical_cast i)
          else (do
            pattern ← Pattern.parse (lib.yaml.as_text version)
            found ← rest
            ok (if matches_version pattern requested then item ∷ found else found)))

  unfoldable pub read_versioned_nodes :
      Location → VersionNumber → Required → Outcome (List lib.yaml.Node)
  unfolding select_items is_missing is_type
  read_versioned_nodes loc requested req =
      if is_missing loc.node
      then elim req [
        | required_node ↦ fail syntax_error loc (codes "missing property")
        | optional_node ↦ ok []
      ]
      else (if is_type sequence loc.node
          then (do
            found ← select_items loc requested 0 (lib.yaml.items loc.node)
            elim req [
              | required_node ↦
                  if is_empty found
                  then fail not_found loc
                      (codes "no match for " ++ Version.to_string lib.boost requested)
                  else ok found
              | optional_node ↦ ok found
            ])
          else fail syntax_error loc (codes "expected list"))

  abbrev last_of : lib.yaml.Node → List lib.yaml.Node → lib.yaml.Node
  last_of n [] = n
  last_of n (m ∷ ms) = last_of m ms

  -- The node that `readVersionedNode` takes from the last object that matched.
  unfoldable pub read_subnode :
      Location → VersionNumber → Text → Required → lib.yaml.Node → Outcome Location
  unfolding is_missing is_type
  read_subnode loc requested subnode req found =
      let version = lib.yaml.at_key found (codes "version") in
      let path =
        lib.yaml.as_text version ++ (if is_empty subnode then [] else codes "." ++ subnode) in
      let node = if is_empty subnode then found else lib.yaml.at_key found subnode in
      let result : Outcome Location = ok (record {
        file_name = loc.file_name;
        node_path = loc.node_path ++ (codes "." ++ path);
        node = node;
      }) in
      assert (is_type scalar version) >> (elim req [
        | required_node ↦
            if is_missing node
            then fail syntax_error loc (
                codes "no match for "
                ++ (Version.to_string lib.boost requested
                    ++ (if is_empty subnode then [] else codes "." ++ subnode)))
            else result
        | optional_node ↦ result
      ])

  unfoldable pub read_versioned_node : Location → VersionNumber → Text → Required → Outcome Location
  unfolding read_versioned_nodes read_subnode
  read_versioned_node loc requested subnode req = do
    items ← read_versioned_nodes loc requested req
    elim items [
      | [] ↦ ok (record loc { node = lib.yaml.no_node })
      | n ∷ ns ↦ read_subnode loc requested subnode req (last_of n ns)
    ]

  -- The fields of `DefinedPackage`.
  pub record DefinedPackage : Type 0 where
    pub name : Text
    pub config_file : Text
    pub config : lib.yaml.Node
    pub versions : lib.versions.Carrier

  abbrev pub section_of : DefinedPackage → Text → Location
  section_of d key = record {
    file_name = d.config_file;
    node_path = key;
    node = lib.yaml.at_key d.config key;
  }

  -- `DefinedPackage::dependencyPatterns`.
  unfoldable pub defined_dependency_patterns :
      DefinedPackage → VersionNumber → Outcome (List PackagePattern)
  unfolding read_versioned_node read_list_of_scalars
  defined_dependency_patterns d v = do
    loc ←
        read_versioned_node (section_of d (codes "dependencies")) v (codes "install") required_node
    patterns ← read_list_of_scalars Pattern.parse loc required_node
    elim patterns [
      | [] ↦ (do p ← Pattern.parse (codes "spock=" ++ spock_version); ok (p ∷ []))
      | q ∷ qs ↦ ok (q ∷ qs)
    ]

  -- `DefinedPackage::isSupportedVersion`.
  unfoldable pub is_supported_version : DefinedPackage → VersionNumber → Bool
  is_supported_version d v = any (version_eq v) (lib.versions.values d.versions)
