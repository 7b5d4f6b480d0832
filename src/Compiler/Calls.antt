-- ===== src/Compiler/Calls.antt =====
-- What the calls of src/spock-compiler.C return, and when.
use rmc_spock.Base.{
  Bool, true, false, List, [], ◌∷◌, ◌++◌, Option, none, some, Text, codes, text_eq, text_eq_refl,
  text_eq_sound, map, if◌then◌else◌, ◌≡◌, ◌≢◌, refl, sym, ap, ◌∙◌, arith, All,
}
use rmc_spock.Libraries.{Libraries, scalar, sequence}
use rmc_spock.Definition.{is_type}
use rmc_spock.Compiler.Wrapper.{
  Call, returned, exited, uncaught, ◌>>=◌, Child, Ended, replaced_by, check_scalar, check_sequence,
  read_config_file, as_string, field, validate_executable, flag_texts, build_argv, compare_output,
  stripped, validate_version, ending,
}

pub bind-returned :
    {A B : Type 0} (m : Call A) (f : A → Call B) (b : B)
    → (m >>= f) ≡ returned b
    → (a : A) × (m ≡ returned a) × (f a ≡ returned b)
bind-returned (returned a) f b h = (a, refl, h)
bind-returned (exited n) f b h = cc
bind-returned uncaught f b h = cc

pub compare_output-returned :
    (old : Text) (o : Option Text) {u : Unit {0}}
    → compare_output old o ≡ returned u
    → (output : Text) × (o ≡ some output) × (stripped output ≡ stripped old)
unfolding compare_output
compare_output-returned old none h = cc
compare_output-returned old (some output) h =
    (output, refl, text_eq_sound (stripped output) (stripped old) (ground arith))

pub compare_output_same :
    (old output : Text)
    → stripped output ≡ stripped old
    → compare_output old (some output) ≡ returned tt
unfolding compare_output
compare_output_same old output e =
    ap (λ b. if b then returned tt else exited 1)
      (ap (λ s. text_eq s (stripped old)) e ∙ text_eq_refl (stripped old))

pub exec-returned :
    (m : Call (List Text)) (words : List Text)
    → (m >>= λ argv. returned (replaced_by argv)) ≡ returned (replaced_by words)
    → m ≡ returned words
exec-returned (returned argv) words h = cc
exec-returned (exited n) words h = cc
exec-returned uncaught words h = cc

pub ending-replaced :
    (m : Call Ended) (words : List Text)
    → ending m ≡ replaced_by words
    → m ≡ returned (replaced_by words)
unfolding ending
ending-replaced (returned e) words h = ap returned h
ending-replaced (exited n) words h = cc
ending-replaced uncaught words h = cc

-- With `--spock-exe-full` the tool prints and exits.
pub printed-exits :
    (m : Call (List Text)) (print : List Text → Text) (out : Text)
    → ◌>>=◌ {B = Text × Bool} m (λ argv. returned (print argv, true)) ≢ returned (out, false)
printed-exits (returned argv) print out h = cc
printed-exits (exited n) print out h = cc
printed-exits uncaught print out h = cc

module _ ⦃lib : Libraries⦄ where
  abbrev pub at : lib.yaml.Node → Text → lib.yaml.Node
  at config name = lib.yaml.at_key config name

  abbrev pub IsScalar : lib.yaml.Node → Type 0
  IsScalar n = is_type scalar n ≡ true

  -- The command that a configuration stands for: the executable and its flags.
  abbrev pub command_of : lib.yaml.Node → List Text
  command_of config =
      lib.yaml.as_text (at config (codes "executable"))
      ∷ map lib.yaml.as_text (lib.yaml.items (at config (codes "flags")))

  -- What is asked of the configuration.
  pub record IsConfiguration (config : lib.yaml.Node) : Type 0 where
    pub executable : IsScalar (at config (codes "executable"))
    pub language : IsScalar (at config (codes "language"))
    pub vendor : IsScalar (at config (codes "vendor"))
    pub version : IsScalar (at config (codes "version"))
    pub version_output : IsScalar (at config (codes "version-output"))
    pub flags : is_type sequence (at config (codes "flags")) ≡ true
    pub flag_items : All IsScalar (lib.yaml.items (at config (codes "flags")))

  pub check_scalar-returned :
      (config : lib.yaml.Node) (name : Text) {u : Unit {0}}
      → check_scalar config name ≡ returned u
      → IsScalar (at config name)
  unfolding check_scalar
  check_scalar-returned config name h = ground arith

  pub read_config_file-returned :
      (e : Bool) (loaded config : lib.yaml.Node)
      → read_config_file e loaded ≡ returned config
      → (e ≡ true)
        × (config ≡ loaded)
        × IsScalar (at loaded (codes "executable"))
        × IsScalar (at loaded (codes "language"))
        × IsScalar (at loaded (codes "vendor"))
        × IsScalar (at loaded (codes "version"))
        × IsScalar (at loaded (codes "version-output"))
        × (is_type sequence (at loaded (codes "flags")) ≡ true)
  unfolding read_config_file check_scalar check_sequence
  read_config_file-returned e loaded config h = ground arith

  pub as_string-returned :
      (n : lib.yaml.Node) (t : Text)
      → as_string n ≡ returned t
      → (t ≡ lib.yaml.as_text n) × IsScalar n
  unfolding as_string
  as_string-returned n t h = ground arith

  pub flag_texts-returned :
      (ns : List lib.yaml.Node) (ts : List Text)
      → flag_texts ns ≡ returned ts
      → (ts ≡ map lib.yaml.as_text ns) × All IsScalar ns
  unfolding flag_texts
  flag_texts-returned [] ts h = (cc, tt)
  flag_texts-returned (n ∷ ns) ts h =
      let (t, e, k) = bind-returned (as_string n) _ ts h in
      let (rest, e', k') = bind-returned (flag_texts ns) (λ texts. returned (t ∷ texts)) ts k in
      let (same, scalars) = flag_texts-returned ns rest e' in
      let (text, scalar_item) = as_string-returned n t e in (cc, (scalar_item, scalars))

  pub build_argv-returned :
      (config : lib.yaml.Node) (args argv : List Text)
      → build_argv config args ≡ returned argv
      → (argv ≡ command_of config ++ args)
        × All IsScalar (lib.yaml.items (at config (codes "flags")))
  unfolding build_argv field
  build_argv-returned config args argv h =
      let (exe, e, k) = bind-returned (as_string (at config (codes "executable"))) _ argv h in
      let items = lib.yaml.items (at config (codes "flags")) in
      let (flags, e', k') =
        bind-returned (flag_texts items) (λ flags. returned (exe ∷ (flags ++ args))) argv k in
      let (same, scalars) = flag_texts-returned items flags e' in
      let (text, s) = as_string-returned (at config (codes "executable")) exe e in (cc, scalars)

  pub validate_version-returned :
      (child : Child) (config : lib.yaml.Node) {u : Unit {0}}
      → validate_version child config ≡ returned u
      → (output : Text) × (child (command_of config ++ codes "--version" ∷ []) ≡ some output)
        × (stripped output ≡ stripped (lib.yaml.as_text (at config (codes "version-output"))))
  unfolding validate_version field
  validate_version-returned child config {u} h =
      let (old, e, k) = bind-returned (as_string (at config (codes "version-output"))) _ u h in
      let (argv, e', k') = bind-returned (build_argv config (codes "--version" ∷ [])) _ u k in
      let words = (build_argv-returned config (codes "--version" ∷ []) argv e').0 in
      let (text, s) = as_string-returned (at config (codes "version-output")) old e in
      let (output, ran, same) = compare_output-returned old (child argv) k' in
      (output, ap child (sym words) ∙ ran, same ∙ ap stripped text)

  pub validate_executable-returned :
      (exists : Text → Bool) (config : lib.yaml.Node) {u : Unit {0}}
      → validate_executable exists config ≡ returned u
      → exists (lib.yaml.as_text (at config (codes "executable"))) ≡ true
  unfolding validate_executable field
  validate_executable-returned exists config {u} h =
      let (exe, e, k) = bind-returned (as_string (at config (codes "executable"))) _ u h in
      let (text, s) = as_string-returned (at config (codes "executable")) exe e in ground arith

  -- The other way: what the calls return for a configuration that is in order.
  pub as_string-scalar :
      (n : lib.yaml.Node) → IsScalar n → as_string n ≡ returned (lib.yaml.as_text n)
  unfolding as_string
  as_string-scalar n h = rw h refl

  pub flag_texts-scalars :
      (ns : List lib.yaml.Node)
      → All IsScalar ns
      → flag_texts ns ≡ returned (map lib.yaml.as_text ns)
  unfolding flag_texts
  flag_texts-scalars [] h = refl
  flag_texts-scalars (n ∷ ns) h = rw (as_string-scalar n h.0) (rw (flag_texts-scalars ns h.1) refl)

  pub build_argv_lem :
      (config : lib.yaml.Node) (args : List Text)
      → IsConfiguration config
      → build_argv config args ≡ returned (command_of config ++ args)
  unfolding build_argv field
  build_argv_lem config args c =
      rw (as_string-scalar (at config (codes "executable")) c.executable)
        (rw (flag_texts-scalars (lib.yaml.items (at config (codes "flags"))) c.flag_items) refl)

  pub read_config_file_lem :
      (config : lib.yaml.Node)
      → IsConfiguration config
      → read_config_file true config ≡ returned config
  unfolding read_config_file check_scalar check_sequence
  read_config_file_lem config c = ground arith
