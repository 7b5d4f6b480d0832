-- ===== src/Context.antt =====
-- src/Spock/Context.C: the stack of environments, the packages in use, and the searches. The last item
-- of the stack, on which the operations work, is the first of the list here.
pub mod Excursion
pub mod Employ
pub mod Lattice
pub mod InEdges
pub mod Heads
pub mod Removal
pub mod Covers
pub mod Ordered
pub mod Each
use rmc_spock.Base.{
  ℕ, suc, Bool, true, false, not, Option, none, some, List, [], ◌∷◌, ◌++◌, Text, codes, text_eq,
  is_empty, any, length, ltb, ◌==◌, Outcome, ok, aborted, ◌>>=◌, ◌>>◌, assert, if◌then◌else◌,
}
use rmc_spock.Libraries.{Libraries, VersionNumber}
use rmc_spock.Version.{is_empty_version}
use rmc_spock.Pattern.{PackagePattern, matches_version}
use rmc_spock.Definition.{DefinedPackage}
use rmc_spock.Package.{
  Package, Kind, installed, ghost, is_installed, to_string, ghost_of_definition,
  dependency_patterns,
}
use rmc_spock.PackageLists.{Packages}
use rmc_spock.Directory
use rmc_spock.Directory.{Directory, find, installed_p, not_installed_p, any_p}
use rmc_spock.Environment.{Environment, set, append_unique, prepend_environment}

module _ ⦃lib : Libraries⦄ where
  pub record EnvStackItem : Type 0 where
    pub packages : Packages
    pub variables : Environment

  pub record Context : Type 0 where
    pub env_stack : List EnvStackItem
    pub all_packages : Directory
    pub definitions_by_name : (lib.maps DefinedPackage).Carrier

  -- A new top of the stack.
  abbrev pub with_stack : Context → List EnvStackItem → Context
  with_stack ctx stack = record ctx { env_stack = stack }

  -- `newTop`.
  abbrev pub new_top : List EnvStackItem → EnvStackItem
  new_top [] = record { packages = []; variables = (lib.maps Text).empty }
  new_top (top ∷ rest) = record { packages = top.packages; variables = top.variables }

  unfoldable pub push_environment : Context → Context
  push_environment ctx = with_stack ctx (new_top ctx.env_stack ∷ ctx.env_stack)

  unfoldable pub pop_environment : Context → Outcome Context
  pop_environment ctx = elim ctx.env_stack [ [] ↦ aborted | top ∷ rest ↦ ok (with_stack ctx rest) ]

  -- `SavedStack::restore`, for the size that was saved.
  unfoldable pub restore_stack : ℕ → List EnvStackItem → List EnvStackItem
  restore_stack saved [] = []
  restore_stack saved (top ∷ rest) = elim (ltb saved (length (top ∷ rest))) [
    | true ↦ restore_stack saved rest
    | false ↦ top ∷ rest
  ]

  unfoldable pub restore : ℕ → Context → Context
  unfolding restore_stack
  restore saved ctx = with_stack ctx (restore_stack saved ctx.env_stack)

  unfoldable pub employed : Context → Outcome Packages
  employed ctx = elim ctx.env_stack [ [] ↦ aborted | top ∷ rest ↦ ok top.packages ]

  abbrev pub among : Package → Packages → Bool
  among pkg packages = any (λ used. text_eq (to_string pkg) (to_string used)) packages

  unfoldable pub is_employed : Context → Package → Outcome Bool
  unfolding employed
  is_employed ctx pkg = elim (is_installed pkg) [
    | false ↦ ok false
    | true ↦ (do packages ← employed ctx; ok (among pkg packages))
  ]

  -- `asInstalled(pkg)->environmentSearchPaths()`.
  abbrev pub search_paths : Kind → Outcome Environment
  search_paths (installed i) = ok i.environment_search_paths
  search_paths (ghost g) = aborted

  -- The top of the stack with one more package in use.
  unfoldable pub employ_at : EnvStackItem → Package → Outcome EnvStackItem
  employ_at top pkg = do
    paths ← search_paths pkg.kind
    extended ← prepend_environment top.variables paths
    variables ← append_unique extended (codes "SPOCK_EMPLOYED") pkg.hash (codes ":")
    ok (record { packages = top.packages ++ (pkg ∷ []); variables = variables })

  abbrev pub change_top : Context → (EnvStackItem → Outcome EnvStackItem) → Outcome Context
  change_top ctx f = elim ctx.env_stack [
    | [] ↦ aborted
    | top ∷ rest ↦ (do changed ← f top; ok (with_stack ctx (changed ∷ rest)))
  ]

  unfoldable pub insert_employed : Context → Package → Outcome Context
  unfolding is_employed employ_at
  insert_employed ctx pkg = do
    assert (is_installed pkg)
    known ← is_employed ctx pkg
    elim known [ true ↦ ok ctx | false ↦ change_top ctx (λ top. employ_at top pkg) ]

  unfoldable pub insert_employed_each : Context → Packages → Outcome Context
  unfolding insert_employed
  insert_employed_each ctx [] = ok ctx
  insert_employed_each ctx (pkg ∷ pkgs) = do
    with_one ← insert_employed ctx pkg
    insert_employed_each with_one pkgs

  unfoldable pub insert_employed_all : Context → Packages → Outcome Context
  unfolding insert_employed_each
  insert_employed_all ctx pkgs =
      assert (not (is_empty ctx.env_stack)) >> insert_employed_each ctx pkgs

  unfoldable pub set_env_var : Context → Text → Text → Outcome Context
  unfolding set
  set_env_var ctx name value =
      change_top ctx (λ top. ok (record top { variables = set top.variables name value }))

  unfoldable pub find_installed : Context → PackagePattern → Outcome Packages
  find_installed ctx pattern = find ctx.all_packages pattern installed_p

  unfoldable pub find_packages : Context → PackagePattern → Outcome Packages
  find_packages ctx pattern = find ctx.all_packages pattern any_p

  unfoldable pub selected_versions :
      PackagePattern → lib.versions.Carrier → List VersionNumber → lib.versions.Carrier
  selected_versions pattern set [] = set
  selected_versions pattern set (v ∷ vs) =
      selected_versions pattern
        (if matches_version pattern v then lib.versions.insert set v else set) vs

  -- One ghost that was found: a new ghost of its definition if only some of its versions match. The
  -- second component is the next address.
  unfoldable pub narrow_found : PackagePattern → ℕ → Package → Kind → Outcome (Package × ℕ)
  unfolding selected_versions
  narrow_found pattern address pkg (installed i) = aborted
  narrow_found pattern address pkg (ghost g) =
      let chosen = selected_versions pattern lib.versions.empty (lib.versions.values g.versions) in
      if not (lib.versions.size chosen == lib.versions.size g.versions)
      then (do new ← ghost_of_definition address g.definition chosen; ok (new, suc address))
      else ok (pkg, address)

  unfoldable pub narrow_each : PackagePattern → ℕ → Packages → Outcome Packages
  unfolding narrow_found
  narrow_each pattern address [] = ok []
  narrow_each pattern address (pkg ∷ pkgs) = do
    r ← narrow_found pattern address pkg pkg.kind
    rest ← narrow_each pattern r.1 pkgs
    ok (r.0 ∷ rest)

  unfoldable pub find_ghosts : Context → ℕ → PackagePattern → Outcome Packages
  unfolding narrow_each is_empty_version
  find_ghosts ctx address pattern = do
    assert (is_empty pattern.hash)
    found ← find ctx.all_packages pattern not_installed_p
    elim (is_empty_version pattern.version) [
      | true ↦ ok found
      | false ↦ narrow_each pattern address found
    ]

  unfoldable pub find_defined : Context → PackagePattern → Outcome (Option DefinedPackage)
  find_defined ctx pattern =
      assert (not (is_empty pattern.name))
      >> ok ((lib.maps DefinedPackage).get ctx.definitions_by_name pattern.name)

  unfoldable pub deregister : Context → Package → Outcome Context
  deregister ctx pkg = do
    fewer ← Directory.erase ctx.all_packages pkg
    ok (record ctx {
      all_packages = fewer;
      definitions_by_name =
          if not (is_installed pkg)
          then (lib.maps DefinedPackage).erase ctx.definitions_by_name pkg.name
          else ctx.definitions_by_name;
    })

  unfoldable pub find_each : Context → List PackagePattern → Outcome Packages
  unfolding find_packages
  find_each ctx [] = ok []
  find_each ctx (pattern ∷ patterns) = do
    deps ← find_packages ctx pattern
    rest ← find_each ctx patterns
    ok (deps ++ rest)

  unfoldable pub package_dependencies : Context → Package → Outcome Packages
  unfolding find_each
  package_dependencies ctx pkg = do patterns ← dependency_patterns pkg; find_each ctx patterns
