-- ===== src/Compiler/Wrapper.antt =====
-- The checks and the flow of src/spock-compiler.C (lines 84-257 and 345-372). The loaded file, what
-- exists, and what the compiler prints for `--version` are inputs.
use rmc_spock.Base.{
  ℕ, Bool, true, false, not, ◌&&◌, List, [], ◌∷◌, ◌++◌, Option, none, some, Text, codes, text_eq,
  if◌then◌else◌,
}
use rmc_spock.Libraries.{Libraries, scalar, sequence}
use rmc_spock.Libraries.Laws.{is_space}
use rmc_spock.Definition.{is_type}
use rmc_spock.Compiler.Quote.{print_command}

-- A call returns, the tool exits with a status, or an exception of the YAML library is not caught.
pub data Call {ℓ} (A : Type ℓ) : Type ℓ where
  returned : A → Call A
  exited : ℕ → Call A
  uncaught : Call A

infixl 5 ◌>>=◌ ◌>>◌
abbrev pub ◌>>=◌ {ℓ κ} : {A : Type ℓ} {B : Type κ} → Call A → (A → Call B) → Call B
returned a >>= f = f a
exited n >>= f = exited n
uncaught >>= f = uncaught

abbrev pub ◌>>◌ {ℓ} : {B : Type ℓ} → Call (Unit {0}) → Call B → Call B
m >> k = m >>= λ _. k

-- The command line's switches, and whether the configuration file and the executable exist.
pub record Switches : Type 0 where
  pub show_triplet : Bool
  pub show_base_exe : Bool
  pub show_base_exe_and_args : Bool

-- The child that runs the compiler for its version: its output if it exits with status 0.
abbrev pub Child : Type 0
Child = List Text → Option Text

-- How the tool goes on when it does not return: `execv` with its words.
pub data Ended : Type 0 where
  exit_status : ℕ → Ended
  replaced_by : List Text → Ended
  returned_zero terminated : Ended

module _ ⦃lib : Libraries⦄ where
  unfoldable pub check_scalar : lib.yaml.Node → Text → Call (Unit {0})
  unfolding is_type
  check_scalar config field_name =
      if is_type scalar (lib.yaml.at_key config field_name) then returned tt else exited 1

  -- The test of "flags" in `readConfigFile`.
  unfoldable pub check_sequence : lib.yaml.Node → Text → Call (Unit {0})
  unfolding is_type
  check_sequence config field_name =
      if is_type sequence (lib.yaml.at_key config field_name) then returned tt else exited 1

  unfoldable pub read_config_file : Bool → lib.yaml.Node → Call lib.yaml.Node
  unfolding check_scalar check_sequence
  read_config_file exists loaded = if not exists then exited 1 else (do
    check_scalar loaded (codes "executable")
    check_scalar loaded (codes "language")
    check_scalar loaded (codes "vendor")
    check_scalar loaded (codes "version")
    check_scalar loaded (codes "version-output")
    check_sequence loaded (codes "flags")
    returned loaded)

  -- `config[name].as<std::string>()`.
  unfoldable pub as_string : lib.yaml.Node → Call Text
  unfolding is_type
  as_string n = if is_type scalar n then returned (lib.yaml.as_text n) else uncaught

  unfoldable pub field : lib.yaml.Node → Text → Call Text
  unfolding as_string
  field config name = as_string (lib.yaml.at_key config name)

  unfoldable pub validate_executable : (Text → Bool) → lib.yaml.Node → Call (Unit {0})
  unfolding field
  validate_executable exists config = do
    exe ← field config (codes "executable")
    if exists exe then returned tt else exited 1

  unfoldable pub flag_texts : List lib.yaml.Node → Call (List Text)
  unfolding as_string
  flag_texts [] = returned []
  flag_texts (flag ∷ flags) =
      let rest = flag_texts flags in do text ← as_string flag; texts ← rest; returned (text ∷ texts)

  -- `buildArgv`, up to the null pointer behind the last word.
  unfoldable pub build_argv : lib.yaml.Node → List Text → Call (List Text)
  unfolding field flag_texts
  build_argv config args = do
    exe ← field config (codes "executable")
    flags ← flag_texts (lib.yaml.items (lib.yaml.at_key config (codes "flags")))
    returned (exe ∷ (flags ++ args))

-- The loops that copy what is no white space.
unfoldable pub stripped : Text → Text
unfolding is_space
stripped [] = []
stripped (ch ∷ s) = let rest = stripped s in if is_space ch then rest else ch ∷ rest

unfoldable pub ending : Call Ended → Ended
ending (returned e) = e
ending (exited n) = exit_status n
ending uncaught = terminated

-- The end of `validateVersion`: the status of the child, and the comparison without white space.
unfoldable pub compare_output : Text → Option Text → Call (Unit {0})
unfolding stripped
compare_output old_output none = exited 1
compare_output old_output (some child_output) =
    if text_eq (stripped child_output) (stripped old_output) then returned tt else exited 1

module _ ⦃lib : Libraries⦄ where
  unfoldable pub validate_version : Child → lib.yaml.Node → Call (Unit {0})
  unfolding field build_argv compare_output
  validate_version child config = do
    old_output ← field config (codes "version-output")
    argv ← build_argv config (codes "--version" ∷ [])
    compare_output old_output (child argv)

  -- `execCompiler`, if `main` calls it.
  unfoldable pub launch : Switches → lib.yaml.Node → List Text → Call Ended
  unfolding build_argv
  launch sw config args =
      let exec_compiler = (do argv ← build_argv config args; returned (replaced_by argv)) in
      if not sw.show_triplet && not sw.show_base_exe then exec_compiler else returned returned_zero

  -- The end of `main`: the two checks, and the compiler.
  unfoldable pub checked : Switches → (Text → Bool) → Child → lib.yaml.Node → List Text → Call Ended
  unfolding validate_executable validate_version launch
  checked sw exists child config args = do
    validate_executable exists config
    validate_version child config
    launch sw config args

  -- What a switch prints, and whether `main` exits then.
  unfoldable pub announce : Switches → lib.yaml.Node → Call (Text × Bool)
  unfolding field build_argv print_command
  announce sw config =
      let triplet = (do
        vendor ← field config (codes "vendor")
        language ← field config (codes "language")
        version ← field config (codes "version")
        returned (
          vendor ++ (codes ":" ++ (language ++ (codes ":" ++ (version ++ (10 ∷ []))))),
          false,
        )) in
      let command = (do
        argv ← build_argv config []
        returned (print_command argv ++ (10 ∷ []), true)) in
      let exe_only = (do
        exe ← field config (codes "executable")
        returned (exe ++ (10 ∷ []), true)) in
      if sw.show_triplet
      then triplet
      else (if sw.show_base_exe_and_args
          then command
          else (if sw.show_base_exe then exe_only else returned ([], false)))

  -- `main` behind the switches' output.
  unfoldable pub after_announcement :
      Switches
      → lib.yaml.Node
      → (Text → Bool)
      → Child
      → List Text
      → Call (Text × Bool)
      → Text × Ended
  unfolding checked ending
  after_announcement sw config exists child args (exited n) = ([], exit_status n)
  after_announcement sw config exists child args uncaught = ([], terminated)
  after_announcement sw config exists child args (returned (out, true)) = (out, exit_status 0)
  after_announcement sw config exists child args (returned (out, false)) =
      (out, ending (checked sw exists child config args))

  unfoldable pub with_configuration :
      Switches → (Text → Bool) → Child → List Text → Call lib.yaml.Node → Text × Ended
  unfolding after_announcement announce
  with_configuration sw exists child args (exited n) = ([], exit_status n)
  with_configuration sw exists child args uncaught = ([], terminated)
  with_configuration sw exists child args (returned config) =
      after_announcement sw config exists child args (announce sw config)

  -- `main` behind the command line: what it prints to the standard output, and how it ends.
  unfoldable pub run_tool :
      Switches → Bool → lib.yaml.Node → (Text → Bool) → Child → List Text → Text × Ended
  unfolding read_config_file with_configuration
  run_tool sw config_exists loaded exists child args =
      with_configuration sw exists child args (read_config_file config_exists loaded)
