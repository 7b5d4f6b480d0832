-- ===== src/Definition/Parasites.antt =====
-- The constructor, `parasitePatterns`, `findCommands`, `mySpec` and `shellVariables` of
-- src/Spock/DefinedPackage.C.
use rmc_spock.Base.{
  Exception, Bool, true, false, not, ◌&&◌, List, [], ◌∷◌, ◌++◌, Text, codes, text_eq, is_empty,
  Outcome, ok, aborted, conflict, syntax_error, ◌>>=◌, ◌>>◌, assert, if◌then◌else◌,
}
use rmc_spock.Libraries.{VersionNumber, Libraries, scalar, mapping}
use rmc_spock.Version
use rmc_spock.Version.{is_empty_version}
use rmc_spock.Pattern
use rmc_spock.Pattern.{PackagePattern, VersOp, vers_eq, vers_hy}
use rmc_spock.Definition.{
  Location, fail, is_type, optional_node, required_node, read_scalar, read_list_of_scalars,
  read_versioned_node, read_versioned_nodes, DefinedPackage, section_of,
}

module _ ⦃lib : Libraries⦄ where
  -- `if (b) fail<E>(loc, mesg)`.
  abbrev pub fail_if : Bool → (Text → Exception) → Location → Text → Outcome (Unit {0})
  fail_if b e loc mesg = if b then fail e loc mesg else ok tt

  unfoldable pub insert_versions : lib.versions.Carrier → List VersionNumber → lib.versions.Carrier
  insert_versions set [] = set
  insert_versions set (v ∷ vs) = insert_versions (lib.versions.insert set v) vs

  -- The constructor, with the document that `YAML::LoadFile` gives.
  unfoldable pub new_defined_package : Text → Text → lib.yaml.Node → Outcome DefinedPackage
  unfolding read_scalar read_list_of_scalars insert_versions
  new_defined_package pkg_name config_file config =
      let at = λ (key : Text).
        let l : Location = record {
          file_name = config_file;
          node_path = key;
          node = lib.yaml.at_key config key;
        } in
        l in
      do
        advertised ← read_scalar (at (codes "package")) optional_node
        fail_if (not (is_empty advertised) && not (text_eq advertised pkg_name)) conflict
            (at (codes "package")) (codes "value conflicts with file name")
        vv ←
            read_list_of_scalars (λ t. ok (Version.parse lib.boost t)) (at (codes "versions"))
              required_node
        fail_if (is_empty vv) syntax_error (at (codes "versions")) (codes "cannot be empty")
        ok (record {
          name = pkg_name;
          config_file = config_file;
          config = config;
          versions = insert_versions lib.versions.empty vv;
        })

  unfoldable pub add_aliases : lib.texts.Carrier → List Text → lib.texts.Carrier
  add_aliases set [] = set
  add_aliases set (word ∷ words) = add_aliases (lib.texts.insert set word) words

  -- Whether a version is asked for by another operator than `=` and `-`.
  unfoldable pub wants_other_version : PackagePattern → Bool
  wants_other_version p =
      not (is_empty_version p.version)
      && elim p.vers_op [ vers_eq ↦ false | vers_hy ↦ false | _ ↦ true ]

  unfoldable pub parasite_text : PackagePattern → Text → Text
  parasite_text p mesg =
      codes "parasite \"" ++ (Pattern.to_string lib.boost p ++ (codes "\" " ++ mesg))

  -- One line of `parasitePatterns`, cut at its spaces.
  unfoldable pub parasite_of :
      DefinedPackage → Location → List Text → Outcome (PackagePattern × lib.texts.Carrier)
  unfolding wants_other_version parasite_text add_aliases
  parasite_of d loc [] = aborted
  parasite_of d loc (word ∷ words) = do
    pattern ← Pattern.parse word
    fail_if (is_empty pattern.name) syntax_error loc (parasite_text pattern (codes "needs a name"))
    fail_if (text_eq pattern.name d.name) syntax_error loc
        (parasite_text pattern (codes "cannot have same name as its host"))
    fail_if (wants_other_version pattern) syntax_error loc
        (parasite_text pattern (codes "must use '=' version"))
    ok (pattern, add_aliases lib.texts.empty words)

  -- The loop over the lines. `words_of` is `boost::split` at spaces, of which adjacent ones count as
  -- one.
  unfoldable pub parasite_lines :
      (Text → List Text)
      → DefinedPackage
      → Location
      → List Text
      → Outcome (List (PackagePattern × lib.texts.Carrier))
  unfolding parasite_of
  parasite_lines words_of d loc [] = ok []
  parasite_lines words_of d loc (line ∷ lines) =
      let rest = parasite_lines words_of d loc lines in
      do
        parasite ← parasite_of d loc (words_of (lib.boost.trim line))
        parasites ← rest
        ok (parasite ∷ parasites)

  -- `parasitePatterns`: the patterns that it returns, each with its entry of `aliases`.
  unfoldable pub parasite_patterns :
      (Text → List Text)
      → DefinedPackage
      → VersionNumber
      → Outcome (List (PackagePattern × lib.texts.Carrier))
  unfolding read_versioned_node read_list_of_scalars parasite_lines
  parasite_patterns words_of d v = do
    loc ←
        read_versioned_node (section_of d (codes "post-install")) v (codes "parasites")
          optional_node
    lines ← read_list_of_scalars (λ t. ok t) loc optional_node
    parasite_lines words_of d loc lines

  -- `findCommands`.
  unfoldable pub find_commands : DefinedPackage → Text → VersionNumber → Outcome Text
  unfolding read_versioned_node read_scalar
  find_commands d section v = do
    loc ← read_versioned_node (section_of d section) v (codes "shell") required_node
    read_scalar loc required_node

  -- The loop of `shellVariables` over the pairs of one object.
  unfoldable pub object_variables :
      DefinedPackage → lib.yaml.Node → List (Text × lib.yaml.Node) → Outcome (List Text)
  unfolding is_type
  object_variables d object [] = ok []
  object_variables d object ((key, node) ∷ pairs) =
      let rest = object_variables d object pairs in
      let version = lib.yaml.as_text (lib.yaml.at_key object (codes "version")) in
      let where_it_is : Location = record {
        file_name = d.config_file;
        node_path = codes "variables." ++ (version ++ (codes "." ++ key));
        node = lib.yaml.no_node;
      } in
      let variable = key ++ (codes "=\"" ++ (lib.yaml.as_text node ++ codes "\"")) in
      if text_eq key (codes "version")
      then rest
      else (if is_type scalar node
          then (do variables ← rest; ok (variable ∷ variables))
          else fail syntax_error where_it_is (codes "scalar variable value expected"))

  unfoldable pub objects_variables : DefinedPackage → List lib.yaml.Node → Outcome (List Text)
  unfolding object_variables is_type
  objects_variables d [] = ok []
  objects_variables d (object ∷ objects) =
      let rest = objects_variables d objects in
      do
        assert (is_type mapping object)
        variables ← object_variables d object (lib.yaml.pairs object)
        more ← rest
        ok (variables ++ more)

  -- `shellVariables`.
  unfoldable pub shell_variables : DefinedPackage → VersionNumber → Outcome (List Text)
  unfolding read_versioned_nodes objects_variables
  shell_variables d v = do
    objects ← read_versioned_nodes (section_of d (codes "variables")) v optional_node
    objects_variables d objects
