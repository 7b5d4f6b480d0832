-- ===== src/Package.antt =====
-- src/Spock/Package.C and src/Spock/GhostPackage.C, and the fields of src/Spock/InstalledPackage.h.
-- A package is what the three classes hold together; `address` stands for the object's pointer.
pub mod Match
pub mod Names
use rmc_spock.Base.{
  ℕ, suc, ◌≡◌, Bool, true, false, not, ◌&&◌, ◌||◌, Option, none, some, List, [], ◌∷◌, ◌++◌, Text,
  codes, text_eq, is_xdigit, is_empty, all, length, ltb, ◌==◌, Outcome, ok, aborted, ◌>>=◌, ◌>>◌,
  assert, if◌then◌else◌,
}
use rmc_spock.Libraries.{VersionNumber, Libraries}
use rmc_spock.Version
use rmc_spock.Version.{empty_version, is_empty_version}
use rmc_spock.Pattern
use rmc_spock.Pattern.{PackagePattern}
use rmc_spock.Definition.{DefinedPackage, is_supported_version, defined_dependency_patterns}

-- `isHash` of src/Spock/Spock.C.
unfoldable pub is_hash : Text → Bool
unfolding is_xdigit
is_hash s = length s == 8 && all is_xdigit s

module _ ⦃lib : Libraries⦄ where
  -- The times are numbers on one scale.
  pub record Installed : Type 0 where
    pub version : VersionNumber
    pub dependency_patterns : List PackagePattern
    pub installed_time_stamp : ℕ
    pub used_time_stamp : ℕ
    pub environment_search_paths : (lib.maps Text).Carrier

  pub record Ghost : Type 0 where
    pub definition : DefinedPackage
    pub versions : lib.versions.Carrier

  pub data Kind : Type 0 where
    installed : Installed → Kind
    ghost : Ghost → Kind

  pub record Package : Type 0 where
    pub address : ℕ
    pub hash : Text
    pub name : Text
    pub aliases : lib.texts.Carrier
    pub kind : Kind

  abbrev pub is_installed_kind : Kind → Bool
  is_installed_kind (installed i) = true
  is_installed_kind (ghost g) = false

  abbrev pub is_installed : Package → Bool
  is_installed p = is_installed_kind p.kind

  -- The assertion of `GhostPackage::version`, that there is a version, holds of every ghost: both
  -- of its constructors assert it.
  abbrev pub kind_version : Kind → VersionNumber
  kind_version (installed i) = i.version
  kind_version (ghost g) = elim (lib.versions.greatest g.versions) [
    | none ↦ empty_version
    | some v ↦ v
  ]

  unfoldable pub version : Package → VersionNumber
  version p = kind_version p.kind

  abbrev pub kind_versions : Kind → lib.versions.Carrier
  kind_versions (installed i) = lib.versions.insert lib.versions.empty i.version
  kind_versions (ghost g) = g.versions

  unfoldable pub versions : Package → lib.versions.Carrier
  versions p = kind_versions p.kind

  unfoldable pub is_valid_version : Ghost → VersionNumber → Bool
  is_valid_version g v = lib.versions.exists g.versions v

  -- One round of `versionPrefix`: the parts so far against those of one more version.
  unfoldable pub prefix_round : List Text → List Text → List Text
  prefix_round ps [] = ps
  prefix_round [] (y ∷ ys) = y ∷ prefix_round [] ys
  prefix_round (p ∷ ps) (y ∷ ys) =
      (if is_empty p
        then y
        else (if not (text_eq p (codes "*")) && not (text_eq p y) then codes "*" else p))
      ∷ prefix_round ps ys

  unfoldable pub prefix_rounds : List Text → List VersionNumber → List Text
  unfolding prefix_round
  prefix_rounds ps [] = ps
  prefix_rounds ps (v ∷ vs) = prefix_rounds (prefix_round ps v.parts) vs

  unfoldable pub until_star : List Text → List Text
  until_star [] = []
  until_star (p ∷ ps) = let rest = until_star ps in if text_eq p (codes "*") then [] else p ∷ rest

  unfoldable pub version_prefix : Ghost → VersionNumber
  unfolding prefix_rounds until_star
  version_prefix g =
      Version.parse lib.boost (
        lib.boost.join (until_star (prefix_rounds [] (lib.versions.values g.versions))) (codes "."))

  -- `Package::toString`, of installed packages.
  unfoldable pub installed_to_string : Package → Text
  unfolding version is_empty_version
  installed_to_string p =
      let s =
        p.name
        ++ (if is_empty_version (version p)
            then []
            else codes "=" ++ Version.to_string lib.boost (version p)) in
      let t = if is_empty p.hash then s else s ++ (codes "@" ++ p.hash) in
      if is_empty t then codes "empty" else t

  -- `GhostPackage::toString`. Its text is never empty, since it has a `=`.
  unfoldable pub ghost_to_string : Package → Ghost → Text
  unfolding version version_prefix is_empty_version
  ghost_to_string p g =
      if ltb 1 (lib.versions.size g.versions)
      then (if is_empty_version (version_prefix g)
          then p.name ++ codes "=*"
          else p.name
            ++ (codes "=" ++ (Version.to_string lib.boost (version_prefix g) ++ codes ".*")))
      else p.name ++ (codes "=" ++ Version.to_string lib.boost (version p))

  abbrev string_of : Package → Kind → Text
  string_of p (installed i) = installed_to_string p
  string_of p (ghost g) = ghost_to_string p g

  unfoldable pub to_string : Package → Text
  unfolding installed_to_string ghost_to_string
  to_string p = string_of p p.kind

  -- `Package::hash(s)` and `Package::name(s)`, with their assertions.
  unfoldable pub set_hash : Package → Text → Outcome Package
  unfolding is_hash
  set_hash p s = assert (is_hash s) >> ok (record p { hash = s })

  unfoldable pub set_name : Package → Text → Outcome Package
  set_name p s = assert (not (is_empty s)) >> ok (record p { name = s })

  -- The set of a package's name and aliases.
  unfoldable pub all_names : Package → lib.texts.Carrier
  all_names p = lib.texts.insert p.aliases p.name

  unfoldable pub names_in_common : Package → Package → lib.texts.Carrier
  unfolding all_names
  names_in_common p q = lib.texts.meet (all_names p) (all_names q)

  unfoldable pub identical : Package → Package → Bool
  identical p q =
      if p.address == q.address
      then true
      else (if not (is_empty p.hash)
          then text_eq p.hash q.hash
          else (if not (text_eq p.name q.name)
              then false
              else lib.versions.same (versions p) (versions q)))

  unfoldable pub excludes : Package → Package → Bool
  unfolding names_in_common is_empty_version
  excludes p q =
      if not (text_eq p.name q.name)
      then not (lib.texts.is_empty (names_in_common p q))
      else (if not (is_empty p.hash) && not (is_empty q.hash)
          then not (text_eq p.hash q.hash)
          else (if not (is_empty_version (version p)) && not (is_empty_version (version q))
              then lib.versions.is_empty (lib.versions.meet (versions p) (versions q))
              else false))

  -- The constructor of `GhostPackage`, at a new address.
  unfoldable pub ghost_of_definition : ℕ → DefinedPackage → lib.versions.Carrier → Outcome Package
  unfolding is_supported_version
  ghost_of_definition address d vs =
      assert (not (lib.versions.is_empty vs))
      >> (assert (all (is_supported_version d) (lib.versions.values vs))
          >> (assert (not (is_empty d.name))
              >> ok (record {
                address = address;
                hash = [];
                name = d.name;
                aliases = lib.texts.empty;
                kind = ghost (record { definition = d; versions = vs });
              })))

  -- `GhostPackage::instance` of another ghost with fewer versions, at a new address.
  unfoldable pub ghost_with_versions : ℕ → Package → Ghost → lib.versions.Carrier → Outcome Package
  unfolding ghost_of_definition set_name
  ghost_with_versions address orig g vs =
      assert (not (lib.versions.is_empty vs))
      >> (assert (lib.versions.exists_all g.versions vs) >> (do
        self ← ghost_of_definition address g.definition vs
        named ← set_name self orig.name
        ok (record named { aliases = orig.aliases })))

  unfoldable pub is_parasite : Package → Ghost → Bool
  is_parasite p g = not (text_eq p.name g.definition.name)

  -- `GhostPackage::dependencyPatterns`.
  unfoldable pub ghost_dependency_patterns : Package → Ghost → Outcome (List PackagePattern)
  unfolding is_parasite version_prefix version
  ghost_dependency_patterns p g =
      if is_parasite p g
      then (do
        host ←
            Pattern.parse
              (g.definition.name ++ (codes "-" ++ Version.to_string lib.boost (version_prefix g)))
        ok (host ∷ []))
      else defined_dependency_patterns g.definition (version p)

  abbrev patterns_of : Package → Kind → Outcome (List PackagePattern)
  patterns_of p (installed i) = ok i.dependency_patterns
  patterns_of p (ghost g) = ghost_dependency_patterns p g

  unfoldable pub dependency_patterns : Package → Outcome (List PackagePattern)
  unfolding ghost_dependency_patterns
  dependency_patterns p = patterns_of p p.kind
