-- ===== src/Definition/Recorded.antt =====
-- Which dependencies `installConfigFile` of src/Spock/DefinedPackage.C writes down.
use rmc_spock.Base.{
  true, false, List, [], ◌∷◌, Option, none, some, Text, text_eq, text_lt, text_eq_sound, In, ◌≡◌,
  ◌⊎◌, inl, inr, refl, sym, subst, Option-cases, if◌then◌else◌, if_cases,
}
use rmc_spock.Libraries.{Libraries}
use rmc_spock.Pattern.{PackagePattern}
use rmc_spock.Package
use rmc_spock.Package.{Package}
use rmc_spock.Package.Match.{matches}
use rmc_spock.Definition.Script.{set_insert, first_match, add_found, add_dependencies}

In-set_insert : (a t : Text) (set : List Text) → In a (set_insert t set) → (a ≡ t) ⊎ In a set
unfolding set_insert
In-set_insert a t [] (inl e) = inl e
In-set_insert a t [] (inr h) = inr h
In-set_insert a t (s ∷ set) h =
    let P = λ (l : List Text). In a l → (a ≡ t) ⊎ In a (s ∷ set) in
    let behind = In-set_insert a t set in
    if_cases P (text_lt t s) (t ∷ s ∷ set) (if text_eq t s then s ∷ set else s ∷ set_insert t set)
      (λ _ h. h)
      (λ _.
        if_cases P (text_eq t s) (s ∷ set) (s ∷ set_insert t set) (λ _ h. inr h)
          (λ _ h. elim h [
            | inl e ↦ inr (inl e)
            | inr k ↦ elim (behind k) [ inl e ↦ inl e | inr m ↦ inr (inr m) ]
          ]))
      h

set_insert-keeps : (a t : Text) (set : List Text) → In a set → In a (set_insert t set)
unfolding set_insert
set_insert-keeps a t [] h = absurd h
set_insert-keeps a t (s ∷ set) h =
    let behind = set_insert-keeps a t set in
    if_cases (In a) (text_lt t s) (t ∷ s ∷ set)
      (if text_eq t s then s ∷ set else s ∷ set_insert t set) (λ _. inr h)
      (λ _.
        if_cases (In a) (text_eq t s) (s ∷ set) (s ∷ set_insert t set) (λ _. h)
          (λ _. elim h [ inl e ↦ inl e | inr k ↦ inr (behind k) ]))

set_insert-has : (t : Text) (set : List Text) → In t (set_insert t set)
unfolding set_insert
set_insert-has t [] = inl refl
set_insert-has t (s ∷ set) =
    let behind = set_insert-has t set in
    if_cases (In t) (text_lt t s) (t ∷ s ∷ set)
      (if text_eq t s then s ∷ set else s ∷ set_insert t set) (λ _. inl refl)
      (λ _.
        if_cases (In t) (text_eq t s) (s ∷ set) (s ∷ set_insert t set)
          (λ e. inl (text_eq_sound t s e)) (λ _. inr behind))

module _ ⦃lib : Libraries⦄ where
  -- A package of the list that a pattern matches.
  abbrev pub MatchIn : PackagePattern → List Package → Package → Type 0
  MatchIn pattern pkgs pkg = In pkg pkgs × (matches pattern pkg ≡ true)

  first_match-MatchIn :
      (pattern : PackagePattern) (pkgs : List Package) (pkg : Package)
      → first_match pattern pkgs ≡ some pkg
      → MatchIn pattern pkgs pkg
  unfolding first_match
  first_match-MatchIn pattern [] pkg h = cc
  first_match-MatchIn pattern (p ∷ pkgs) pkg h =
      let later = first_match-MatchIn pattern pkgs pkg in
      if_cases (λ o. o ≡ some pkg → MatchIn pattern (p ∷ pkgs) pkg) (matches pattern p) (some p)
        (first_match pattern pkgs)
        (λ m h.
          let same : pkg ≡ p = cc in (inl same, subst (λ q. matches pattern q ≡ true) (sym same) m))
        (λ _ h. (inr (later h).0, (later h).1)) h

  first_match-none :
      (pattern : PackagePattern) (pkgs : List Package) (pkg : Package)
      → first_match pattern pkgs ≡ none
      → In pkg pkgs
      → matches pattern pkg ≡ false
  unfolding first_match
  first_match-none pattern [] pkg h m = absurd m
  first_match-none pattern (p ∷ pkgs) pkg h m =
      let later = first_match-none pattern pkgs pkg in
      if_cases (λ o. o ≡ none → In pkg (p ∷ pkgs) → matches pattern pkg ≡ false) (matches pattern p)
        (some p) (first_match pattern pkgs) (λ _ h. cc)
        (λ no_match h m. elim m [
          | inl e ↦ subst (λ q. matches pattern q ≡ false) (sym e) no_match
          | inr k ↦ later h k
        ])
        h m

  -- A text that is written for one of the patterns.
  abbrev pub WrittenFor : List PackagePattern → List Package → Text → Type 0
  WrittenFor patterns pkgs t =
      (pattern : PackagePattern) × (pkg : Package) × In pattern patterns
      × MatchIn pattern pkgs pkg
      × (t ≡ Package.to_string pkg)

  add_found-keeps :
      (o : Option Package) (set : List Text) (t : Text) → In t set → In t (add_found o set)
  unfolding add_found
  add_found-keeps none set t h = h
  add_found-keeps (some pkg) set t h = set_insert-keeps t (Package.to_string pkg) set h

  In-add_found :
      (o : Option Package) (set : List Text) (t : Text)
      → In t (add_found o set)
      → ((pkg : Package) × (o ≡ some pkg) × (t ≡ Package.to_string pkg)) ⊎ In t set
  unfolding add_found
  In-add_found none set t h = inr h
  In-add_found (some pkg) set t h = elim (In-set_insert t (Package.to_string pkg) set h) [
    | inl e ↦ inl (pkg, refl, e)
    | inr k ↦ inr k
  ]

  add_dependencies-keeps :
      (patterns : List PackagePattern) (pkgs : List Package) (set : List Text) (t : Text)
      → In t set
      → In t (add_dependencies patterns pkgs set)
  unfolding add_dependencies
  add_dependencies-keeps [] pkgs set t h = h
  add_dependencies-keeps (p ∷ patterns) pkgs set t h =
      add_dependencies-keeps patterns pkgs (add_found (first_match p pkgs) set) t
        (add_found-keeps (first_match p pkgs) set t h)

  In-add_dependencies :
      (patterns : List PackagePattern) (pkgs : List Package) (set : List Text) (t : Text)
      → In t (add_dependencies patterns pkgs set)
      → WrittenFor patterns pkgs t ⊎ In t set
  unfolding add_dependencies
  In-add_dependencies [] pkgs set t h = inr h
  In-add_dependencies (p ∷ patterns) pkgs set t h =
      elim (In-add_dependencies patterns pkgs (add_found (first_match p pkgs) set) t h) [
        | inl (pattern, pkg, m, k, e) ↦ inl (pattern, pkg, inr m, k, e)
        | inr k ↦ elim (In-add_found (first_match p pkgs) set t k) [
          | inl (pkg, found, e) ↦ inl (p, pkg, inl refl, first_match-MatchIn p pkgs pkg found, e)
          | inr m ↦ inr m
        ]
      ]

  add_dependencies-has :
      (patterns : List PackagePattern) (pkgs : List Package) (set : List Text)
      (pattern : PackagePattern) (pkg : Package)
      → In pattern patterns
      → MatchIn pattern pkgs pkg
      → (found : Package) × MatchIn pattern pkgs found
        × In (Package.to_string found) (add_dependencies patterns pkgs set)
  unfolding add_dependencies add_found
  add_dependencies-has [] pkgs set pattern pkg h m = absurd h
  add_dependencies-has (p ∷ patterns) pkgs set pattern pkg (inr k) m =
      add_dependencies-has patterns pkgs (add_found (first_match p pkgs) set) pattern pkg k m
  add_dependencies-has (p ∷ patterns) pkgs set pattern pkg (inl e) m =
      elim (Option-cases (first_match p pkgs)) [
        | inl missing ↦
            let no_match = first_match-none p pkgs pkg missing m.0 in
            let match = subst (λ q. matches q pkg ≡ true) e m.1 in cc
        | inr (found, at) ↦ (
          found,
          subst (λ q. MatchIn q pkgs found) (sym e) (first_match-MatchIn p pkgs found at),
          add_dependencies-keeps patterns pkgs (add_found (first_match p pkgs) set)
              (Package.to_string found)
              (subst (λ o. In (Package.to_string found) (add_found o set)) (sym at)
                (set_insert-has (Package.to_string found) set)),
        )
      ]

  -- The dependencies that are written to the file are those that were in the set before, and the texts of
  -- packages that some dependency pattern matches; the former all stay, and for each pattern that matches a
  -- package there is one of the packages that it matches.
  pub add_dependencies_lem :
      (patterns : List PackagePattern) (pkgs : List Package) (set : List Text)
      → ((t : Text)
          → In t (add_dependencies patterns pkgs set)
          → WrittenFor patterns pkgs t ⊎ In t set)
        × ((t : Text) → In t set → In t (add_dependencies patterns pkgs set))
        × ((pattern : PackagePattern) (pkg : Package)
            → In pattern patterns
            → MatchIn pattern pkgs pkg
            → (found : Package) × MatchIn pattern pkgs found
              × In (Package.to_string found) (add_dependencies patterns pkgs set))
  add_dependencies_lem patterns pkgs set = (
    In-add_dependencies patterns pkgs set,
    add_dependencies-keeps patterns pkgs set,
    add_dependencies-has patterns pkgs set,
  )
