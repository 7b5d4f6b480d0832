-- ===== src/Installed/Exact.antt =====
-- What holds of the packages that `InstalledPackage::instance` of src/Spock/InstalledPackage.C makes.
use rmc_spock.Base.{
  OnOk, OnOk-bind, OnOk-assert, OnOk-any, if_intro, if_cases, ℕ, ◌≡◌, refl, true, false, not, ◌||◌,
  List, [], ◌∷◌, ◌++◌, Text, codes, is_empty, All, Outcome, ok, threw, syntax_error, ◌>>=◌, assert,
  arith,
}
use rmc_spock.Libraries.{VersionNumber, Libraries, scalar}
use rmc_spock.Definition.{is_type}
use rmc_spock.Version.{is_empty_version}
use rmc_spock.Pattern
use rmc_spock.Pattern.{PackagePattern}
use rmc_spock.Package.{Package, Kind, installed, ghost, is_hash}
use rmc_spock.Installed.{
  is_vers_eq, is_defined, reject, read_aliases, read_environment, read_parts, read_dependency_names,
  assert_scalar, version_of, scalar_text, read_patterns, read_dependencies, installed_instance,
}

module _ ⦃lib : Libraries⦄ where
  -- A pattern that names one installed package.
  abbrev pub IsExact : PackagePattern → Type 0
  IsExact pattern =
      (is_empty pattern.name ≡ false)
      × (is_vers_eq pattern.vers_op ≡ true)
      × (is_empty_version pattern.version ≡ false)
      × (is_hash pattern.hash ≡ true)

  read_patterns-IsExact :
      (file : Text) (names : List Text) → OnOk (All IsExact) (read_patterns file names)
  unfolding read_patterns
  read_patterns-IsExact file [] = tt
  read_patterns-IsExact file (name ∷ names) =
      OnOk-bind _ _ (Pattern.parse name) _ (OnOk-any (Pattern.parse name)) (λ pattern u.
        OnOk-bind _ _ (assert (not (is_empty pattern.name))) _ (OnOk-assert _) (λ u a.
          OnOk-bind _ _ (assert (is_vers_eq pattern.vers_op)) _ (OnOk-assert _) (λ u b.
            OnOk-bind _ _ (assert (not (is_empty_version pattern.version))) _ (OnOk-assert _)
              (λ u c. OnOk-bind _ _ (assert (is_hash pattern.hash)) _ (OnOk-assert _) (λ u d.
                OnOk-bind _ _ (read_patterns file names) _ (read_patterns-IsExact file names)
                  (λ rest h. ((ground (arith, a), b, ground (arith, c), d), h)))))))

  read_dependencies-IsExact :
      (file : Text) (config : lib.yaml.Node) → OnOk (All IsExact) (read_dependencies file config)
  unfolding read_dependencies
  read_dependencies-IsExact file config =
      let n = lib.yaml.at_key config (codes "dependencies") in
      if_cases (OnOk (All IsExact)) (is_defined file n)
        (read_dependency_names file n >>= read_patterns file) _
        (λ e.
          OnOk-bind _ (All IsExact) (read_dependency_names file n) (read_patterns file)
            (OnOk-any (read_dependency_names file n)) (λ names u. read_patterns-IsExact file names))
        (λ e.
          if_intro (OnOk (All IsExact)) (is_defined file (lib.yaml.at_key config (codes "depends")))
            (reject file (codes "use \"dependencies\" instead of \"depends\"")) (ok []) tt tt)

  abbrev IsWellFormedKind : Kind → Type 0
  IsWellFormedKind (installed i) =
      (is_empty_version i.version ≡ false) × All IsExact i.dependency_patterns
  IsWellFormedKind (ghost g) = ⊥

  -- An installed package with its hash, a name, a version, and exact dependencies.
  abbrev pub IsWellFormed : Text → Package → Type 0
  IsWellFormed hash p =
      (p.hash ≡ hash)
      × (is_hash p.hash ≡ true)
      × (is_empty p.name ≡ false)
      × IsWellFormedKind p.kind

  module _ (file : Text) (time_from_string : Text → Outcome ℕ) (used address : ℕ) (hash : Text)
      (config : lib.yaml.Node) where
    read_parts-IsWellFormed :
        (name : Text) (version : VersionNumber)
        → is_hash hash ≡ true
        → is_empty name ≡ false
        → is_empty_version version ≡ false
        → OnOk
            (IsWellFormed hash)
            (read_parts file time_from_string used address hash name version config)
    unfolding read_parts
    read_parts-IsWellFormed name version a named versioned =
        let W = IsWellFormed hash in
        let aliases_node = lib.yaml.at_key config (codes "aliases") in
        let environment_node = lib.yaml.at_key config (codes "environment") in
        let stamp = lib.yaml.at_key config (codes "timestamp") in
        OnOk-bind _ W (read_aliases file aliases_node) _ (OnOk-any (read_aliases file aliases_node))
          (λ aliases u.
            OnOk-bind (All IsExact) W (read_dependencies file config) _
              (read_dependencies-IsExact file config)
              (λ patterns exact.
                OnOk-bind _ W (read_environment file environment_node) _
                  (OnOk-any (read_environment file environment_node))
                  (λ environment u.
                    OnOk-bind _ W (assert_scalar file stamp) _ (OnOk-any (assert_scalar file stamp))
                      (λ u v.
                        OnOk-bind _ W (time_from_string (lib.yaml.as_text stamp)) _
                          (OnOk-any (time_from_string (lib.yaml.as_text stamp)))
                          (λ time u. (refl, a, named, (versioned, exact)))))))

  -- Every package that is read from a document is installed, has the hash that was asked for, a name
  -- and a version, and depends on packages by name, `=`, version and hash.
  pub installed_instance-IsWellFormed :
      (file : Text) (time_from_string : Text → Outcome ℕ) (used address : ℕ) (hash : Text)
      (config : lib.yaml.Node)
      → OnOk (IsWellFormed hash) (installed_instance file time_from_string used address hash config)
  unfolding installed_instance
  installed_instance-IsWellFormed file time_from_string used address hash config =
      let W = IsWellFormed hash in
      let n = lib.yaml.at_key config (codes "package") in
      let name = scalar_text file n in
      let version = version_of file (lib.yaml.at_key config (codes "version")) in
      OnOk-bind _ W (assert (is_hash hash)) _ (OnOk-assert (is_hash hash)) (λ u a.
        OnOk-bind _ W (assert (not (is_type scalar n) || not (is_empty name))) _
          (OnOk-assert (not (is_type scalar n) || not (is_empty name)))
          (λ u b.
            if_cases (OnOk W) (is_empty name)
              (threw (syntax_error (codes "no package name in file " ++ file))) _ (λ e. tt)
              (λ named.
                if_cases (OnOk W) (is_empty_version version)
                  (threw (syntax_error (codes "no package version in file " ++ file)))
                  (read_parts file time_from_string used address hash name version config) (λ e. tt)
                  (read_parts-IsWellFormed file time_from_string used address hash config name
                    version a named))))
