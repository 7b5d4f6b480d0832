-- ===== src/Install/Parasites.antt =====
-- `postInstall` of src/Spock/DefinedPackage.C, and `scanInstalledPackage` of src/Spock/Context.C, by which
-- it makes the parasites known.
use rmc_spock.Base.{
  Bool, true, false, not, ◌==◌, List, [], ◌∷◌, ◌++◌, Text, codes, is_empty, Outcome, exhausted,
  ◌||◌, ok, threw, aborted, command_error, assert, if◌then◌else◌,
}
use rmc_spock.Libraries.{Libraries, undefined}
use rmc_spock.Version.{is_empty_version}
use rmc_spock.Pattern
use rmc_spock.Pattern.{PackagePattern}
use rmc_spock.Definition.{DefinedPackage, section_of, is_type}
use rmc_spock.Definition.Parasites.{find_commands, parasite_patterns}
use rmc_spock.Definition.Script.{Settings, create_shell_script}
use rmc_spock.Package.{Package}
use rmc_spock.PackageLists.{Packages}
use rmc_spock.Directory
use rmc_spock.Context.{Context, find_installed}
use rmc_spock.Installed.{installed_instance}
use rmc_spock.Install.Solving.{fail_text_for}
use rmc_spock.Install.Effects.{M, pure, ◌>>=◌, ◌>>◌, reads, lift, update}
use rmc_spock.Install.{Outside, Options, ◌/◌, run_command, required, prefix_of}

abbrev pub starts_comment : Text → Bool
starts_comment [] = false
starts_comment (c ∷ text) = c == b'#'

-- The lines of a text that `getline` gives with `good()`: a last line that has no end is not among them.
unfoldable pub complete_lines : Text → Text → List Text
complete_lines line [] = []
complete_lines line (c ∷ text) =
    let next = complete_lines [] text in
    let longer = complete_lines (line ++ (c ∷ [])) text in if c == 10 then line ∷ next else longer

module _ ⦃lib : Libraries⦄ where
  -- The package that is read is entered into the directory.
  abbrev pub register : Package → Context → Outcome Context
  register pkg ctx = elim (Directory.insert ctx.all_packages pkg) [
    | ok larger ↦ ok (record ctx { all_packages = larger })
    | threw e ↦ threw e
    | aborted ↦ aborted
    | exhausted ↦ exhausted
  ]

module _ ⦃lib : Libraries⦄ (outside : Outside) where
  unfoldable pub scan_installed_package : PackagePattern → M Package
  unfolding is_empty_version
  scan_installed_package spec = do
    lift (assert (not (is_empty spec.name)))
    lift (assert (not (is_empty_version spec.version)))
    lift (assert (not (is_empty spec.hash)))
    found ← reads (λ ctx. find_installed ctx spec)
    lift (assert (is_empty found))
    pkg ← lift (
        installed_instance (outside.opt_directory / (spec.hash ++ codes ".yaml"))
          outside.time_from_string outside.used_time_stamp (outside.address_of spec.hash) spec.hash
          (outside.config_of spec.hash))
    update (register pkg)
    pure pkg

  -- One line of the file of parasites.
  unfoldable pub scan_parasite : DefinedPackage → Text → M Packages
  unfolding scan_installed_package
  scan_parasite d line =
      let text = lib.boost.trim line in
      elim (is_empty text || starts_comment text) [
        | true ↦ pure []
        | false ↦ (do
          pattern ← lift (Pattern.parse text)
          required (not (is_empty pattern.hash)) (
              command_error (
                fail_text_for d
                  (codes "incomplete spec '"
                    ++ (Pattern.to_string lib.boost pattern
                        ++ (codes "' in " ++ (outside.working_directory / codes "parasites"))))
                  []))
          pkg ← scan_installed_package pattern
          pure (pkg ∷ []))
      ]

  unfoldable pub scan_parasites : DefinedPackage → List Text → M Packages
  unfolding scan_parasite
  scan_parasites d [] = pure []
  scan_parasites d (line ∷ lines) = do
    first ← scan_parasite d line
    rest ← scan_parasites d lines
    pure (first ++ rest)

  -- The parasites that were installed. The warnings about missing ones are left out.
  unfoldable pub post_install : DefinedPackage → Settings → Options → Text → M Packages
  unfolding scan_parasites run_command complete_lines is_type
  post_install d st options pkg_root =
      elim (is_type undefined (section_of d (codes "post-install")).node) [
        | true ↦ pure []
        | false ↦ (do
          commands ← lift (find_commands d (codes "post-install") st.version)
          script ← lift (
              create_shell_script d st outside.working_directory commands (
                codes "PACKAGE_ACTION=post-install"
                ∷ (codes "PACKAGE_ROOT='" ++ (pkg_root ++ codes "'"))
                ∷ []))
          let output =
              if options.quiet
              then prefix_of outside st options / codes "post-install-log.txt"
              else []
          run_command outside d script (codes "post-install commands failed") output
          patterns ← lift (parasite_patterns outside.words_of d st.version)
          elim (is_empty patterns) [
            | true ↦ pure []
            | false ↦ (do
              required outside.parasites_made (
                  command_error (
                    fail_text_for d
                      (codes "post-install failed to create "
                        ++ (outside.working_directory / codes "parasites"))
                      output))
              scan_parasites d (complete_lines [] outside.parasites_file))
          ])
      ]
