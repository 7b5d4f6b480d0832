-- ===== src/Install/Build.antt =====
-- `install` of src/Spock/DefinedPackage.C and of src/Spock/GhostPackage.C.
use rmc_spock.Base.{
  ℕ, true, false, not, [], ◌∷◌, ◌++◌, Text, codes, is_empty, ◌||◌, aborted, conflict, command_error,
  assert, if◌then◌else◌,
}
use rmc_spock.Libraries.{Libraries, VersionNumber}
use rmc_spock.Libraries.Graphs.{GraphOps}
use rmc_spock.Version.{is_empty_version}
use rmc_spock.Pattern
use rmc_spock.Pattern.{PackagePattern}
use rmc_spock.Definition.{DefinedPackage}
use rmc_spock.Definition.Parasites.{find_commands}
use rmc_spock.Definition.Script.{Settings, my_spec, create_shell_script, config_text}
use rmc_spock.Package.{Package, Ghost, is_hash, is_parasite}
use rmc_spock.PackageLists.{Packages}
use rmc_spock.Context.{insert_employed, insert_employed_all}
use rmc_spock.Install.Solving.{fail_text_for, solve_dependencies}
use rmc_spock.Install.Effects.{M, pure, ◌>>=◌, ◌>>◌, reads, lift, update, push, saved}
use rmc_spock.Install.{
  Outside, Options, ◌/◌, run_command, required, install_dir, prefix_of, download,
}
use rmc_spock.Install.Parasites.{scan_installed_package, post_install}

module _ ⦃lib : Libraries⦄ ⦃graphs : GraphOps⦄ (outside : Outside) where
  abbrev pub root_of : DefinedPackage → Settings → Options → Text
  root_of d st options = prefix_of outside st options / d.name

  -- The file whose existence tells that the same configuration was tried before.
  abbrev pub attempted : Settings → Options → Text
  attempted st options =
      install_dir outside options
      / ((if is_empty outside.config_hash then st.hash else outside.config_hash)
          ++ codes "-build-log.txt")

  -- The script that installs.
  unfoldable pub install_script : DefinedPackage → Settings → Options → Text → M Text
  install_script d st options tarball = do
    commands ← lift (find_commands d (codes "install") st.version)
    lift (
        create_shell_script d st outside.working_directory
          (codes "tar xf '"
            ++ (tarball ++ (codes "'\n\nspock-apply-patches $patches\n\n" ++ commands)))
          (codes "PACKAGE_ACTION=install"
            ∷ (codes "PACKAGE_ROOT='" ++ (root_of d st options ++ codes "'"))
            ∷ []))

  -- From the script to the file that describes the new package.
  unfoldable pub build : DefinedPackage → Settings → Options → Text → Packages → M (Unit {0})
  unfolding install_script
  build d st options tarball install_deps = do
    script ← install_script d st options tarball
    let log = attempted st options
    required (options.try_again || not (outside.is_attempted log)) (
        conflict (
          fail_text_for d
            (codes "installation was previously attempted and failed (remove file to try again)")
            log))
    let output = if options.quiet then log else []
    run_command outside d script (codes "installation script failed") output
    required outside.yaml_made
        (command_error (fail_text_for d (codes "\"installed.yaml\" not created") output))
    config ← lift (config_text d st outside.timestamp outside.spock_itself install_deps)
    pure tt

  -- What is done in the environment of the excursion, which `restore` gives up.
  unfoldable pub excursion :
      DefinedPackage
      → Settings
      → Options
      → Text
      → Packages
      → Packages
      → M (Unit {0})
      → M (Package × Packages)
  unfolding build
  excursion d st options tarball install_deps build_deps restore = do
    push
    update (λ ctx. insert_employed_all ctx build_deps)
    build d st options tarball install_deps
    spec ← lift (Pattern.parse (my_spec d st))
    pkg ← scan_installed_package outside spec
    restore
    push
    update (λ ctx. insert_employed_all ctx install_deps)
    update (λ ctx. insert_employed ctx pkg)
    parasites ← post_install outside d st options (root_of d st options)
    pure (pkg, parasites)

  -- What is done in the first environment. The settings come with no hash, and get one.
  unfoldable pub prepare : ℕ → DefinedPackage → Settings → Options → M (Package × Packages)
  unfolding excursion
  prepare fuel d settings options = do
    push
    lift (assert (is_empty settings.hash))
    tarball ← download outside d settings options
    let st = record settings { hash = outside.random_hash }
    lift (assert (is_hash st.hash))
    install_deps ←
        reads
          (solve_dependencies fuel (outside.address_of st.hash) d st.version (codes "install") [])
    build_deps ← reads (
        solve_dependencies fuel (outside.address_of st.hash) d st.version (codes "install")
          (codes "build"))
    saved (excursion d st options tarball install_deps build_deps)

  -- The package that is installed, and its parasites.
  unfoldable pub install : ℕ → DefinedPackage → Settings → Options → M (Package × Packages)
  unfolding prepare
  install fuel d settings options = saved (λ restore. prepare fuel d settings options)

  -- `GhostPackage::install`, with the settings that it makes.
  unfoldable pub ghost_install : ℕ → Package → Ghost → VersionNumber → M (Package × Packages)
  unfolding install
  ghost_install fuel pkg g version = do
    lift (assert (not (is_empty_version version)))
    elim (is_parasite pkg g) [
      | true ↦ lift aborted
      | false ↦
          install fuel g.definition (record { version = version; hash = [] })
            (record { quiet = true; try_again = false; install_dir_override = [] })
    ]
