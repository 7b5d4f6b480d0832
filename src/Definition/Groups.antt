-- ===== src/Definition/Groups.antt =====
-- `versionsByDependency` of src/Spock/DefinedPackage.C: the versions of a package in groups that have
-- their dependencies in common.
use rmc_spock.Base.{
  ℕ, suc, true, false, not, List, [], ◌∷◌, ◌++◌, codes, Outcome, ok, syntax_error, ◌>>=◌,
  if◌then◌else◌,
}
use rmc_spock.Libraries.{VersionNumber, Libraries, undefined, scalar, sequence}
use rmc_spock.Pattern
use rmc_spock.Pattern.{PackagePattern, matches_version}
use rmc_spock.Definition.{Location, fail, is_type, DefinedPackage, section_of}

module _ ⦃lib : Libraries⦄ where
  -- The loop over the versions: the set of those that match, and the others in their order.
  unfoldable pub take_matching :
      PackagePattern
      → lib.versions.Carrier
      → List VersionNumber
      → lib.versions.Carrier × List VersionNumber
  take_matching pattern set [] = (set, [])
  take_matching pattern set (v ∷ vs) = elim (matches_version pattern v) [
    | true ↦ take_matching pattern (lib.versions.insert set v) vs
    | false ↦ (let r = take_matching pattern set vs in (r.0, v ∷ r.1))
  ]

  -- The loop over the items, from item `n`, with the versions that are left.
  unfoldable pub group_items :
      Location → ℕ → List lib.yaml.Node → List VersionNumber → Outcome (List lib.versions.Carrier)
  unfolding take_matching is_type
  group_items loc n [] vs = ok []
  group_items loc n (item ∷ items) [] = ok []
  group_items loc n (item ∷ items) (v ∷ vs) =
      let version = lib.yaml.at_key item (codes "version") in
      elim (is_type scalar version) [
        | false ↦
            fail syntax_error loc
              (codes "expected scalar version property in item #" ++ lib.boost.lexical_cast n)
        | true ↦ (do
          pattern ← Pattern.parse (lib.yaml.as_text version)
          groups ←
              group_items loc (suc n) items (take_matching pattern lib.versions.empty (v ∷ vs)).1
          ok (
              if lib.versions.is_empty (take_matching pattern lib.versions.empty (v ∷ vs)).0
              then groups
              else (take_matching pattern lib.versions.empty (v ∷ vs)).0 ∷ groups))
      ]

  unfoldable pub versions_by_dependency : DefinedPackage → Outcome (List lib.versions.Carrier)
  unfolding group_items is_type
  versions_by_dependency d =
      let loc = section_of d (codes "dependencies") in
      if is_type undefined loc.node
      then fail syntax_error loc (codes "missing property")
      else (if not (is_type sequence loc.node)
          then fail syntax_error loc (codes "list expected")
          else group_items loc 0 (lib.yaml.items loc.node) (lib.versions.values d.versions))
