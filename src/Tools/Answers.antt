-- ===== src/Tools/Answers.antt =====
-- The questions of src/spock-shell.C are answered, whatever the user types.
use rmc_spock.Base.{
  true, false, ◌==◌, some, List, [], ◌∷◌, Text, Outcome, ok, exhausted, ◌>>=◌, if◌then◌else◌,
  if_cases, ◌≡◌, ◌≢◌, ◌⊎◌, inl, inr, refl, sym, subst, ap, ◌∙◌, All, In,
}
use rmc_spock.Libraries.{Libraries, VersionNumber}
use rmc_spock.Libraries.Laws.{BoostLaws, SetLaws, starts_clean, ends_clean}
use rmc_spock.Version
use rmc_spock.Version.{empty_version}
use rmc_spock.Version.Print.{NoDot, parse-to_string}
use rmc_spock.Package.{Package, versions}
use rmc_spock.Tools.Asking.{
  AutoAnswer, assume_no, assume_yes, ask_user, next_line, says_yes, ask_string, ask_version,
  greatest_version, first_version, ask_user_install, ask_install,
}

module _ ⦃lib : Libraries⦄ where
  -- A version that is read back from its text.
  abbrev pub IsReadable : VersionNumber → Type 0
  IsReadable v =
      (p : Text) × (ps : List Text) × (v.parts ≡ p ∷ ps)
      × All NoDot (p ∷ ps)
      × (Version.to_string lib.boost v ≢ [])
      × (starts_clean (Version.to_string lib.boost v) ≡ true)
      × (ends_clean (Version.to_string lib.boost v) ≡ true)

  -- The call returns a version of the set, or the empty version.
  abbrev pub Answered : lib.versions.Carrier → Outcome VersionNumber → Type 0
  Answered vns o =
      (w : VersionNumber) × (o ≡ ok w) × ((w ≡ empty_version) ⊎ (lib.versions.exists vns w ≡ true))

  module _ (boost_laws : BoostLaws lib.boost) (set_laws : SetLaws lib.versions) where
    default_accepted :
        (vns : lib.versions.Carrier) (v : VersionNumber)
        → lib.versions.exists vns v ≡ true
        → IsReadable v
        → lib.versions.exists vns
            (Version.parse lib.boost (ask_string [] (Version.to_string lib.boost v)))
          ≡ true
    unfolding ask_string
    default_accepted vns v has (p, ps, e, dots, ne, s, t) =
        let text = Version.to_string lib.boost v in
        let asked : ask_string [] text ≡ text =
          rw (ask_string, boost_laws.trim_clean [] refl refl) refl in
        ap (λ a. lib.versions.exists vns (Version.parse lib.boost a)) asked
        ∙ ap (lib.versions.exists vns) (parse-to_string boost_laws v p ps e dots ne s t)
        ∙ has

    ask_version-Answered :
        (vns : lib.versions.Carrier) (v : VersionNumber) (lines : List Text)
        → lib.versions.exists vns v ≡ true
        → IsReadable v
        → Answered vns (ask_version vns (Version.to_string lib.boost v) lines)
    unfolding ask_version
    ask_version-Answered vns v [] has readable =
        let answer = Version.parse lib.boost (ask_string [] (Version.to_string lib.boost v)) in
        let good = default_accepted vns v has readable in
        (answer, ap (λ b. if b then ok answer else exhausted) good, inr good)
    ask_version-Answered vns v (line ∷ lines) has readable =
        let dflt = Version.to_string lib.boost v in
        let answer = Version.parse lib.boost (ask_string line dflt) in
        let again = ask_version-Answered vns v lines has readable in
        if_cases (Answered vns) (lib.versions.exists vns answer) (ok answer)
          (ask_version vns dflt lines) (λ good. (answer, refl, inr good)) (λ _. again)

    first_version-Answered :
        (vns : lib.versions.Carrier) (vs : List VersionNumber)
        → lib.versions.values vns ≡ vs
        → vs ≢ []
        → Answered vns (first_version vs)
    first_version-Answered vns [] e ne = absurd (ne refl)
    first_version-Answered vns (v ∷ vs) e ne =
        (v, refl, inr (set_laws.exists-values vns v (subst (In v) (sym e) (inl refl))))

    ask_user_install-Answered :
        (vns : lib.versions.Carrier) (v : VersionNumber) (lines : List Text)
        → lib.versions.is_empty vns ≡ false
        → lib.versions.greatest vns ≡ some v
        → lib.versions.exists vns v ≡ true
        → IsReadable v
        → Answered vns (ask_user_install vns lines)
    unfolding ask_user_install
    ask_user_install-Answered vns v lines some_version top has readable =
        let values = lib.versions.values vns in
        let asked = (do
          greatest ← greatest_version vns
          ask_version vns (Version.to_string lib.boost greatest) lines) in
        let one = (if says_yes (next_line lines) then first_version values else ok empty_version) in
        let greatest : greatest_version vns ≡ ok v = rw (greatest_version, top) refl in
        if_cases (Answered vns) (lib.versions.size vns == 1) one asked
          (λ _.
            if_cases (Answered vns) (says_yes (next_line lines)) (first_version values)
              (ok empty_version)
              (λ _.
                first_version-Answered vns values refl
                  (λ e. cc ((set_laws.is_empty-values vns).1 e)))
              (λ _. (empty_version, refl, inl refl)))
          (λ _.
            subst
              (λ o. Answered vns (o >>= λ g. ask_version vns (Version.to_string lib.boost g) lines))
              (sym greatest) (ask_version-Answered vns v lines has readable))

    -- If a package has a version, its greatest version is among its versions and is read back from its text,
    -- then `askInstall` returns, whatever lines are typed and also if there are none: one of the versions of
    -- the package, or the empty version, which stands for no.
    pub ask_install-Answered :
        (pkg : Package) (aa : AutoAnswer) (lines : List Text) (v : VersionNumber)
        → lib.versions.is_empty (versions pkg) ≡ false
        → lib.versions.greatest (versions pkg) ≡ some v
        → lib.versions.exists (versions pkg) v ≡ true
        → IsReadable v
        → Answered (versions pkg) (ask_install pkg aa lines)
    unfolding ask_install
    ask_install-Answered pkg assume_no lines v some_version top has readable =
        rw some_version (empty_version, refl, inl refl)
    ask_install-Answered pkg assume_yes lines v some_version top has readable =
        rw some_version (rw (greatest_version, top) (v, refl, inr has))
    ask_install-Answered pkg ask_user lines v some_version top has readable =
        rw some_version
          (ask_user_install-Answered (versions pkg) v lines some_version top has readable)
