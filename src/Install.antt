-- ===== src/Install.antt =====
-- The installation of a package: `download`, `solveDependencies`, `install` and `postInstall` of
-- src/Spock/DefinedPackage.C, `scanInstalledPackage` of src/Spock/Context.C, and `GhostPackage::install`.
-- What the file system and the scripts answer is an input.
pub mod Effects
pub mod Solving
pub mod Parasites
pub mod Build
pub mod Kept
pub mod Solved
pub mod Stack
use rmc_spock.Base.{
  ℕ, Bool, true, false, not, ◌&&◌, ◌==◌, Option, none, some, List, [], ◌∷◌, ◌++◌, Text, codes,
  is_empty, get_elem?, Outcome, Exception, exhausted, ◌||◌, ok, threw, aborted, not_found, conflict,
  command_error, assert, if◌then◌else◌,
}
use rmc_spock.Libraries.{Libraries, VersionNumber, undefined}
use rmc_spock.Libraries.Graphs.{GraphOps}
use rmc_spock.Version
use rmc_spock.Version.{is_empty_version}
use rmc_spock.Pattern
use rmc_spock.Pattern.{PackagePattern}
use rmc_spock.Definition.{
  DefinedPackage, section_of, required_node, read_versioned_node, read_list_of_scalars, is_type,
}
use rmc_spock.Definition.Parasites.{find_commands, parasite_patterns}
use rmc_spock.Definition.Script.{Settings, my_spec, create_shell_script, config_text}
use rmc_spock.Package.{Package, Ghost, is_hash, is_parasite}
use rmc_spock.PackageLists.{Packages}
use rmc_spock.Directory
use rmc_spock.Environment.{Environment}
use rmc_spock.Context
use rmc_spock.Context.{Context, insert_employed, insert_employed_all, employed, find_installed}
use rmc_spock.Installed.{installed_instance}
use rmc_spock.Install.Solving.{fail_text_for, solve_dependencies}
use rmc_spock.Install.Effects.{M, pure, ◌>>=◌, ◌>>◌, reads, lift, update, push, saved}

-- `Context::CommandStatus`.
pub data CommandStatus : Type 0 where
  command_success command_failed command_not_run : CommandStatus

abbrev pub succeeded : CommandStatus → Bool
succeeded command_success = true
succeeded _ = false

-- The members of `DefinedPackage::Settings` that say how to install.
pub record Options : Type 0 where
  pub quiet : Bool
  pub try_again : Bool
  pub install_dir_override : Text

-- `operator/` of paths.
infixr 60 ◌/◌
abbrev pub ◌/◌ : Text → Text → Text
dir / file = dir ++ (codes "/" ++ file)

module _ ⦃lib : Libraries⦄ where
  -- What is found outside of the program. A script runs with the variables of the context.
  pub record Outside : Type 0 where
    pub words_of : Text → List Text
    pub subshell : Text → Environment → CommandStatus
    pub opt_directory : Text
    pub download_directory : Text
    pub working_directory : Text
    pub random_hash : Text
    pub config_hash : Text
    pub is_downloaded : Bool
    pub download_made : Bool
    pub download_copied : Bool
    pub has_tarball : Bool
    pub is_attempted : Text → Bool
    pub yaml_made : Bool
    pub timestamp : Text
    pub spock_itself : Text
    pub config_of : Text → lib.yaml.Node
    pub time_from_string : Text → Outcome ℕ
    pub used_time_stamp : ℕ
    pub address_of : Text → ℕ
    pub parasites_made : Bool
    pub parasites_file : Text

  -- Goes on if the test holds, and fails otherwise.
  abbrev pub required : Bool → Exception → M (Unit {0})
  required true e = pure tt
  required false e = lift (threw e)

  abbrev pub version_text : Settings → Text
  version_text st = Version.to_string lib.boost st.version

  module _ (outside : Outside) where
    -- `Context::subshell`.
    unfoldable pub run_script : Text → Context → Outcome CommandStatus
    run_script script ctx = elim ctx.env_stack [
      | [] ↦ aborted
      | top ∷ rest ↦ ok (outside.subshell script top.variables)
    ]

    -- A script that must succeed.
    unfoldable pub run_command : DefinedPackage → Text → Text → Text → M (Unit {0})
    unfolding run_script
    run_command d script mesg output = do
      status ← reads (run_script script)
      required (succeeded status) (command_error (fail_text_for d mesg output))

    -- What a download does, if there is none yet.
    unfoldable pub fetch : DefinedPackage → Settings → Options → Text → M (Unit {0})
    unfolding run_command
    fetch d st options dest = do
      commands ← lift (find_commands d (codes "download") st.version)
      script ← lift (
          create_shell_script d st outside.working_directory commands
            (codes "PACKAGE_ACTION=download" ∷ []))
      let output =
          if options.quiet
          then outside.download_directory
            / (d.name ++ (codes "-" ++ (version_text st ++ codes "-download-log.txt")))
          else []
      run_command d script (codes "download failed") output
      required outside.download_made (
          command_error
            (fail_text_for d (codes "download script did not create download.tar.gz") output))
      required outside.download_copied
          (command_error (fail_text_for d (codes "cannot copy download.tar.gz to " ++ dest) []))

    unfoldable pub download : DefinedPackage → Settings → Options → M Text
    unfolding fetch
    download d st options = do
      let dest =
          outside.download_directory
          / (d.name ++ (codes "-" ++ (version_text st ++ codes ".tar.gz")))
      elim outside.is_downloaded [ true ↦ pure tt | false ↦ fetch d st options dest ]
      lift (assert outside.has_tarball)
      pure dest

    -- The directory of an installation.
    abbrev pub install_dir : Options → Text
    install_dir options =
        if is_empty options.install_dir_override
        then outside.opt_directory
        else options.install_dir_override

    abbrev pub prefix_of : Settings → Options → Text
    prefix_of st options = install_dir options / st.hash
