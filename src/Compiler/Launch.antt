-- ===== src/Compiler/Launch.antt =====
-- When src/spock-compiler.C runs the compiler, and with which words.
use rmc_spock.Base.{
  Bool, true, false, not, ◌&&◌, List, [], ◌∷◌, ◌++◌, some, Text, codes, if_cases, ◌≡◌, ◌↔◌, refl,
  sym, subst, ap, ◌∙◌, arith, Bool-cases, inl, inr,
}
use rmc_spock.Libraries.{Libraries}
use rmc_spock.Compiler.Quote.{print_command}
use rmc_spock.Compiler.Wrapper.{
  Call, returned, exited, uncaught, ◌>>=◌, ◌>>◌, Switches, Child, Ended, replaced_by, returned_zero,
  read_config_file, field, validate_executable, build_argv, compare_output, stripped,
  validate_version, launch, checked, announce, ending, run_tool, after_announcement,
  with_configuration,
}
use rmc_spock.Compiler.Calls.{
  bind-returned, compare_output_same, exec-returned, ending-replaced, printed-exits, at, command_of,
  IsConfiguration, read_config_file-returned, build_argv-returned, validate_version-returned,
  validate_executable-returned, as_string-scalar, build_argv_lem, read_config_file_lem,
}

module _ ⦃lib : Libraries⦄ where
  -- When the compiler is run.
  pub record MayRun (sw : Switches) (config_exists : Bool) (config : lib.yaml.Node)
      (exists : Text → Bool) (child : Child) : Type 0 where
    pub no_switch :
        (sw.show_triplet ≡ false) × (sw.show_base_exe ≡ false) × (sw.show_base_exe_and_args ≡ false)
    pub found : config_exists ≡ true
    pub configuration : IsConfiguration config
    pub executable_found : exists (lib.yaml.as_text (at config (codes "executable"))) ≡ true
    pub output : Text
    pub version_ran : child (command_of config ++ codes "--version" ∷ []) ≡ some output
    pub same_version :
        stripped output ≡ stripped (lib.yaml.as_text (at config (codes "version-output")))

  launch-replaced :
      (sw : Switches) (config : lib.yaml.Node) (args words : List Text)
      → launch sw config args ≡ returned (replaced_by words)
      → (sw.show_triplet ≡ false)
        × (sw.show_base_exe ≡ false)
        × (build_argv config args ≡ returned words)
  unfolding launch
  launch-replaced sw config args words =
      if_cases
        (λ m.
          m ≡ returned (replaced_by words)
          → (sw.show_triplet ≡ false)
            × (sw.show_base_exe ≡ false)
            × (build_argv config args ≡ returned words))
        (not sw.show_triplet && not sw.show_base_exe)
        (build_argv config args >>= λ argv. returned (replaced_by argv)) (returned returned_zero)
        (λ quiet h. (ground arith, ground arith, exec-returned (build_argv config args) words h))
        (λ _ h. cc)

  -- `main` goes on behind the switches if it has no switch, or that for the triplet.
  announce-continues :
      (sw : Switches) (config : lib.yaml.Node) (out : Text)
      → announce sw config ≡ returned (out, false)
      → sw.show_triplet ≡ false
      → sw.show_base_exe ≡ false
      → (sw.show_base_exe_and_args ≡ false) × (out ≡ [])
  unfolding announce
  announce-continues sw config out h t e = elim (Bool-cases sw.show_base_exe_and_args) [
    | inl full ↦
        let printed : announce sw config
            ≡ ◌>>=◌ {B = Text × Bool} (build_argv config [])
                (λ argv. returned (print_command argv ++ (10 ∷ []), true)) =
          rw (t, full) refl in
        absurd (
          printed-exits (build_argv config []) (λ argv. print_command argv ++ (10 ∷ [])) out
            (sym printed ∙ h))
    | inr quiet ↦
        let silent : announce sw config ≡ returned ([], false) = rw (t, quiet, e) refl in
        (quiet, cc)
  ]

  after_announcement-replaced :
      (sw : Switches) (config : lib.yaml.Node) (exists : Text → Bool) (child : Child)
      (args : List Text) (out : Text) (words : List Text) (m : Call (Text × Bool))
      → after_announcement sw config exists child args m ≡ (out, replaced_by words)
      → (m ≡ returned (out, false))
        × (checked sw exists child config args ≡ returned (replaced_by words))
  unfolding after_announcement
  after_announcement-replaced sw config exists child args out words (exited n) h =
      absurd (cc (ap (λ x. x.1) h))
  after_announcement-replaced sw config exists child args out words uncaught h =
      absurd (cc (ap (λ x. x.1) h))
  after_announcement-replaced sw config exists child args out words (returned (o, true)) h =
      absurd (cc (ap (λ x. x.1) h))
  after_announcement-replaced sw config exists child args out words (returned (o, false)) h = (
    ap (λ x. let p : Text × Bool = (x.0, false) in returned p) h,
    ending-replaced (checked sw exists child config args) words (ap (λ x. x.1) h),
  )

  with_configuration-replaced :
      (sw : Switches) (exists : Text → Bool) (child : Child) (args : List Text) (out : Text)
      (words : List Text) (c : Call lib.yaml.Node)
      → with_configuration sw exists child args c ≡ (out, replaced_by words)
      → (config : lib.yaml.Node) × (c ≡ returned config)
        × (announce sw config ≡ returned (out, false))
        × (checked sw exists child config args ≡ returned (replaced_by words))
  unfolding with_configuration
  with_configuration-replaced sw exists child args out words (exited n) h =
      absurd (cc (ap (λ x. x.1) h))
  with_configuration-replaced sw exists child args out words uncaught h =
      absurd (cc (ap (λ x. x.1) h))
  with_configuration-replaced sw exists child args out words (returned config) h =
      let (a, k) =
        after_announcement-replaced sw config exists child args out words (announce sw config) h in
      (config, refl, a, k)

  checked-replaced :
      (sw : Switches) (exists : Text → Bool) (child : Child) (config : lib.yaml.Node)
      (args words : List Text)
      → checked sw exists child config args ≡ returned (replaced_by words)
      → (validate_executable exists config ≡ returned tt)
        × (validate_version child config ≡ returned tt)
        × (launch sw config args ≡ returned (replaced_by words))
  unfolding checked
  checked-replaced sw exists child config args words h =
      let (u, e, k) =
        bind-returned (validate_executable exists config)
          (λ _. validate_version child config >> launch sw config args) (replaced_by words) h in
      let (v, f, l) =
        bind-returned (validate_version child config) (λ _. launch sw config args)
          (replaced_by words) k in
      (e, f, l)

  run_tool-replaced :
      (sw : Switches) (found : Bool) (config : lib.yaml.Node) (exists : Text → Bool) (child : Child)
      (args : List Text) (out : Text) (words : List Text)
      → run_tool sw found config exists child args ≡ (out, replaced_by words)
      → MayRun sw found config exists child × (out ≡ []) × (words ≡ command_of config ++ args)
  unfolding run_tool
  run_tool-replaced sw found loaded exists child args out words h =
      let (config, r, a, c) =
        with_configuration-replaced sw exists child args out words (read_config_file found loaded)
          h in
      let (there, same, exe, language, vendor, version, output, flags) =
        read_config_file-returned found loaded config r in
      let c' = subst (λ n. checked sw exists child n args ≡ returned (replaced_by words)) same c in
      let a' = subst (λ n. announce sw n ≡ returned (out, false)) same a in
      let (e, v, l) = checked-replaced sw exists child loaded args words c' in
      let (triplet, base, b) = launch-replaced sw loaded args words l in
      let (full, silent) = announce-continues sw loaded out a' triplet base in
      let (said, items) = build_argv-returned loaded args words b in
      let (child_output, ran, equal) = validate_version-returned child loaded v in
      (
        record {
          no_switch = (triplet, base, full);
          found = there;
          configuration = record {
            executable = exe;
            language = language;
            vendor = vendor;
            version = version;
            version_output = output;
            flags = flags;
            flag_items = items;
          };
          executable_found = validate_executable-returned exists loaded e;
          output = child_output;
          version_ran = ran;
          same_version = equal;
        },
        silent,
        said,
      )

  module _ (sw : Switches) (found : Bool) (config : lib.yaml.Node) (exists : Text → Bool)
      (child : Child) (m : MayRun sw found config exists child) where
    announce_lem : announce sw config ≡ returned ([], false)
    unfolding announce
    announce_lem = rw (m.no_switch.0, m.no_switch.2, m.no_switch.1) refl

    validate_executable_lem : validate_executable exists config ≡ returned tt
    unfolding validate_executable field
    validate_executable_lem =
        rw (as_string-scalar (at config (codes "executable")) m.configuration.executable)
          (rw m.executable_found refl)

    validate_version_lem : validate_version child config ≡ returned tt
    unfolding validate_version field compare_output
    validate_version_lem =
        let old = lib.yaml.as_text (at config (codes "version-output")) in
        rw (as_string-scalar (at config (codes "version-output")) m.configuration.version_output) (
          ap (λ x. x >>= λ argv. compare_output old (child argv))
            (build_argv_lem config (codes "--version" ∷ []) m.configuration)
          ∙ ap (compare_output old) m.version_ran
          ∙ compare_output_same old m.output m.same_version)

    launch_lem :
        (args : List Text)
        → launch sw config args ≡ returned (replaced_by (command_of config ++ args))
    unfolding launch
    launch_lem args =
        let quiet : launch sw config args
            ≡ (build_argv config args >>= λ argv. returned (replaced_by argv)) =
          rw (m.no_switch.0, m.no_switch.1) refl in
        quiet
        ∙ ap (λ x. x >>= λ argv. returned (replaced_by argv))
            (build_argv_lem config args m.configuration)

  run_tool-MayRun :
      (sw : Switches) (found : Bool) (config : lib.yaml.Node) (exists : Text → Bool) (child : Child)
      (args : List Text)
      → MayRun sw found config exists child
      → run_tool sw found config exists child args ≡ ([], replaced_by (command_of config ++ args))
  unfolding run_tool with_configuration after_announcement checked ending
  run_tool-MayRun sw found config exists child args m =
      let words = command_of config ++ args in
      let reads : read_config_file found config ≡ returned config =
        rw m.found (read_config_file_lem config m.configuration) in
      let silent = announce_lem sw found config exists child m in
      let exe = validate_executable_lem sw found config exists child m in
      let version = validate_version_lem sw found config exists child m in
      let launched = launch_lem sw found config exists child m args in
      let done : checked sw exists child config args ≡ returned (replaced_by words) =
        ap (λ x. x >> (validate_version child config >> launch sw config args)) exe
        ∙ ap (λ x. x >> launch sw config args) version
        ∙ launched in
      ap (with_configuration sw exists child args) reads
      ∙ ap (after_announcement sw config exists child args) silent
      ∙ ap (λ x. let p : Text × Ended = ([], ending x) in p) done

  -- The tool prints nothing and becomes a command exactly when no switch asks for output, the configuration
  -- exists and has all its fields with the right types, the executable exists, its output for `--version` is the
  -- recorded one up to white space, and the command is the executable, its flags and the arguments.
  pub run_tool_iff :
      (sw : Switches) (found : Bool) (config : lib.yaml.Node) (exists : Text → Bool) (child : Child)
      (args words : List Text)
      → (run_tool sw found config exists child args ≡ ([], replaced_by words))
        ↔ (MayRun sw found config exists child × (words ≡ command_of config ++ args))
  run_tool_iff sw found config exists child args words = (
    λ h. let (m, _, w) = run_tool-replaced sw found config exists child args [] words h in (m, w),
    λ p.
        run_tool-MayRun sw found config exists child args p.0
        ∙ ap (λ x. let p : Text × Ended = ([], replaced_by x) in p) (sym p.1),
  )
