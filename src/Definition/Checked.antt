-- ===== src/Definition/Checked.antt =====
-- What the constructor and `parasitePatterns` of src/Spock/DefinedPackage.C refuse.
use rmc_spock.Base.{
  Bool, true, false, not, ◌&&◌, List, [], ◌∷◌, Text, codes, text_eq, text_eq_refl, is_empty,
  Outcome, ok, Exception, conflict, syntax_error, if◌then◌else◌, OnOk, OnOk-bind, OnOk-any, All,
  ◌≡◌, ◌≢◌, ◌⊎◌, inl, inr, refl, sym, ap, arith, if_cases, ◌∙◌, text_eq_sound,
}
use rmc_spock.Libraries.{VersionNumber, Libraries, scalar}
use rmc_spock.Version
use rmc_spock.Version.{is_empty_version}
use rmc_spock.Pattern
use rmc_spock.Pattern.{PackagePattern, VersOp, vers_eq, vers_hy}
use rmc_spock.Definition.{
  Location, fail, is_type, is_missing, optional_node, required_node, read_scalar,
  read_list_of_scalars, read_versioned_node, DefinedPackage, section_of,
}
use rmc_spock.Definition.Parasites.{
  fail_if, new_defined_package, insert_versions, wants_other_version, parasite_text, parasite_of,
  parasite_lines, parasite_patterns,
}

version_checked :
    (none_asked : Bool) (op : VersOp)
    → (not none_asked && elim op [ vers_eq ↦ false | vers_hy ↦ false | _ ↦ true ]) ≡ false
    → (none_asked ≡ true) ⊎ ((op ≡ vers_eq) ⊎ (op ≡ vers_hy))
version_checked true op h = inl refl
version_checked false vers_eq h = inr (inl refl)
version_checked false vers_hy h = inr (inr refl)
version_checked false other h = cc

module _ ⦃lib : Libraries⦄ where
  OnOk-fail_if :
      (b : Bool) (e : Text → Exception) (loc : Location) (mesg : Text)
      → OnOk (λ u. b ≡ false) (fail_if b e loc mesg)
  OnOk-fail_if true e loc mesg = tt
  OnOk-fail_if false e loc mesg = refl

  -- A pattern of a parasite: it has a name, another than its host, and asks for a version by `=` or `-` if
  -- it asks for one.
  abbrev pub IsParasite : DefinedPackage → PackagePattern → Type 0
  IsParasite d p =
      (p.name ≢ [])
      × (p.name ≢ d.name)
      × ((is_empty_version p.version ≡ true) ⊎ ((p.vers_op ≡ vers_eq) ⊎ (p.vers_op ≡ vers_hy)))

  IsParasite-checked :
      (d : DefinedPackage) (p : PackagePattern)
      → is_empty p.name ≡ false
      → text_eq p.name d.name ≡ false
      → wants_other_version p ≡ false
      → IsParasite d p
  unfolding wants_other_version
  IsParasite-checked d p named other v = (
    λ e. ground arith,
    λ e. ground (arith, text_eq_refl p.name, ap (λ n. text_eq p.name n) e),
    version_checked (is_empty_version p.version) p.vers_op v,
  )

  parasite_of-IsParasite :
      (d : DefinedPackage) (loc : Location) (words : List Text)
      → OnOk (λ r. IsParasite d r.0) (parasite_of d loc words)
  unfolding parasite_of
  parasite_of-IsParasite d loc [] = tt
  parasite_of-IsParasite d loc (word ∷ words) =
      OnOk-bind (λ p. Unit {0}) (λ (r : PackagePattern × lib.texts.Carrier). IsParasite d r.0)
        (Pattern.parse word) _ (OnOk-any (Pattern.parse word))
        (λ p _.
          OnOk-bind (λ u. is_empty p.name ≡ false)
            (λ (r : PackagePattern × lib.texts.Carrier). IsParasite d r.0)
            (fail_if (is_empty p.name) syntax_error loc (parasite_text p (codes "needs a name"))) _
            (OnOk-fail_if (is_empty p.name) syntax_error loc
              (parasite_text p (codes "needs a name")))
            (λ _ named.
              OnOk-bind (λ u. text_eq p.name d.name ≡ false)
                (λ (r : PackagePattern × lib.texts.Carrier). IsParasite d r.0)
                (fail_if (text_eq p.name d.name) syntax_error loc
                  (parasite_text p (codes "cannot have same name as its host")))
                _
                (OnOk-fail_if (text_eq p.name d.name) syntax_error loc
                  (parasite_text p (codes "cannot have same name as its host")))
                (λ _ other.
                  OnOk-bind (λ u. wants_other_version p ≡ false)
                    (λ (r : PackagePattern × lib.texts.Carrier). IsParasite d r.0)
                    (fail_if (wants_other_version p) syntax_error loc
                      (parasite_text p (codes "must use '=' version")))
                    _
                    (OnOk-fail_if (wants_other_version p) syntax_error loc
                      (parasite_text p (codes "must use '=' version")))
                    (λ _ v. IsParasite-checked d p named other v))))

  parasite_lines-IsParasite :
      (words_of : Text → List Text) (d : DefinedPackage) (loc : Location) (lines : List Text)
      → OnOk
          (All (λ (r : PackagePattern × lib.texts.Carrier). IsParasite d r.0))
          (parasite_lines words_of d loc lines)
  unfolding parasite_lines
  parasite_lines-IsParasite words_of d loc [] = tt
  parasite_lines-IsParasite words_of d loc (line ∷ lines) =
      let P = λ (r : PackagePattern × lib.texts.Carrier). IsParasite d r.0 in
      OnOk-bind P (All P) (parasite_of d loc (words_of (lib.boost.trim line))) _
        (parasite_of-IsParasite d loc (words_of (lib.boost.trim line)))
        (λ r good.
          OnOk-bind (All P) (All P) (parasite_lines words_of d loc lines) _
            (parasite_lines-IsParasite words_of d loc lines) (λ rs all. (good, all)))

  -- The parasites that a definition lists for a version have names, none of them that of the host, and
  -- ask for a version by `=` or `-` or not at all; for any other list no patterns are returned.
  pub parasite_patterns-IsParasite :
      (words_of : Text → List Text) (d : DefinedPackage) (v : VersionNumber)
      → OnOk
          (All (λ (r : PackagePattern × lib.texts.Carrier). IsParasite d r.0))
          (parasite_patterns words_of d v)
  unfolding parasite_patterns
  parasite_patterns-IsParasite words_of d v =
      let P = λ (r : PackagePattern × lib.texts.Carrier). IsParasite d r.0 in
      let found =
        read_versioned_node (section_of d (codes "post-install")) v (codes "parasites")
          optional_node in
      OnOk-bind (λ loc. Unit {0}) (All P) found _ (OnOk-any found)
        (λ loc _.
          let lines =
            read_list_of_scalars (λ t. let o : Outcome Text = ok t in o) loc optional_node in
          OnOk-bind (λ l. Unit {0}) (All P) lines _ (OnOk-any lines)
            (λ l _. parasite_lines-IsParasite words_of d loc l))

  read_scalar-OnOk :
      (loc : Location)
      → OnOk
          (λ t.
            ((is_missing loc.node ≡ true) × (t ≡ []))
            ⊎ ((is_type scalar loc.node ≡ true) × (t ≡ lib.yaml.as_text loc.node)))
          (read_scalar loc optional_node)
  unfolding read_scalar
  read_scalar-OnOk loc =
      let P = λ (t : Text).
        ((is_missing loc.node ≡ true) × (t ≡ []))
        ⊎ ((is_type scalar loc.node ≡ true) × (t ≡ lib.yaml.as_text loc.node)) in
      let read =
        (if is_type scalar loc.node
          then ok (lib.yaml.as_text loc.node)
          else fail syntax_error loc (codes "scalar expected")) in
      if_cases (OnOk P) (is_missing loc.node) (ok []) read (λ m. inl (m, refl))
        (λ _.
          if_cases (OnOk P) (is_type scalar loc.node) (ok (lib.yaml.as_text loc.node))
            (fail syntax_error loc (codes "scalar expected")) (λ s. inr (s, refl)) (λ _. tt))

  -- What the constructor makes of a document.
  abbrev pub IsRead : Text → Text → lib.yaml.Node → DefinedPackage → Type 0
  IsRead pkg_name config_file config d =
      (d.name ≡ pkg_name)
      × (d.config_file ≡ config_file)
      × (d.config ≡ config)
      × ((lib.yaml.as_text (lib.yaml.at_key config (codes "package")) ≡ pkg_name)
          ⊎ ((is_missing (lib.yaml.at_key config (codes "package")) ≡ true)
              ⊎ (lib.yaml.as_text (lib.yaml.at_key config (codes "package")) ≡ [])))
      × ((vv : List VersionNumber) × (vv ≢ [])
          × (d.versions ≡ insert_versions lib.versions.empty vv))

  advertised_checked :
      (t pkg_name : Text) (missing : Bool) (text : Text)
      → ((missing ≡ true) × (t ≡ [])) ⊎ (t ≡ text)
      → (not (is_empty t) && not (text_eq t pkg_name)) ≡ false
      → (text ≡ pkg_name) ⊎ ((missing ≡ true) ⊎ (text ≡ []))
  advertised_checked t pkg_name missing text (inl (m, e)) h = inr (inl m)
  advertised_checked [] pkg_name missing text (inr e) h = inr (inr (sym e))
  advertised_checked (c ∷ t) pkg_name missing text (inr e) h =
      inl (sym e ∙ text_eq_sound (c ∷ t) pkg_name (ground arith))

  -- A definition that is read from a document has the name that was asked for and the document, the
  -- document has no other name for it, and it has the versions of a list that is not empty.
  pub new_defined_package-IsRead :
      (pkg_name config_file : Text) (config : lib.yaml.Node)
      → OnOk (IsRead pkg_name config_file config) (new_defined_package pkg_name config_file config)
  unfolding new_defined_package
  new_defined_package-IsRead pkg_name config_file config =
      let at = λ (key : Text).
        let l : Location = record {
          file_name = config_file;
          node_path = key;
          node = lib.yaml.at_key config key;
        } in
        l in
      let P = IsRead pkg_name config_file config in
      let pkg_node = at (codes "package") in
      let mesg = codes "value conflicts with file name" in
      let versions =
        read_list_of_scalars
          (λ t. let o : Outcome VersionNumber = ok (Version.parse lib.boost t) in o)
          (at (codes "versions")) required_node in
      OnOk-bind
        (λ t.
          ((is_missing pkg_node.node ≡ true) × (t ≡ []))
          ⊎ ((is_type scalar pkg_node.node ≡ true) × (t ≡ lib.yaml.as_text pkg_node.node)))
        P (read_scalar pkg_node optional_node) _ (read_scalar-OnOk pkg_node)
        (λ t advertised.
          OnOk-bind (λ u. (not (is_empty t) && not (text_eq t pkg_name)) ≡ false) P
            (fail_if (not (is_empty t) && not (text_eq t pkg_name)) conflict pkg_node mesg) _
            (OnOk-fail_if (not (is_empty t) && not (text_eq t pkg_name)) conflict pkg_node mesg)
            (λ _ same.
              OnOk-bind (λ vv. Unit {0}) P versions _ (OnOk-any versions)
                (λ vv _.
                  OnOk-bind (λ u. is_empty vv ≡ false) P
                    (fail_if (is_empty vv) syntax_error (at (codes "versions"))
                      (codes "cannot be empty"))
                    _
                    (OnOk-fail_if (is_empty vv) syntax_error (at (codes "versions"))
                      (codes "cannot be empty"))
                    (λ _ some_version. (
                      refl,
                      refl,
                      refl,
                      advertised_checked t pkg_name (is_missing pkg_node.node)
                          (lib.yaml.as_text pkg_node.node)
                          (elim advertised [ inl m ↦ inl m | inr s ↦ inr s.1 ]) same,
                      (vv, (λ e. ground arith), refl),
                    )))))
