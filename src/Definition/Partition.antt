-- ===== src/Definition/Partition.antt =====
-- The groups that `versionsByDependency` of src/Spock/DefinedPackage.C makes.
use rmc_spock.Base.{
  ℕ, suc, true, false, not, List, [], ◌∷◌, codes, Outcome, ok, threw, aborted, exhausted,
  syntax_error, OnOk, OnOk-bind, All, In, All-In, All-map, ◌++◌, ◌≡◌, ◌⊎◌, inl, inr, refl, subst,
  if_cases, ◌>>=◌, if◌then◌else◌,
}
use rmc_spock.Libraries.{VersionNumber, Libraries, undefined, scalar, sequence}
use rmc_spock.Libraries.Laws.{InsertLaws}
use rmc_spock.Pattern
use rmc_spock.Pattern.{PackagePattern, matches_version}
use rmc_spock.Definition.{Location, fail, is_type, DefinedPackage, section_of}
use rmc_spock.Definition.Taken.{Taken, take_matching-Taken}
use rmc_spock.Definition.Groups.{take_matching, group_items, versions_by_dependency}

module _ ⦃lib : Libraries⦄ where
  -- Groups of versions from `vs`, none of them empty, no two of which have a version in common.
  abbrev pub Parted : List VersionNumber → List lib.versions.Carrier → Type 0
  Parted vs [] = Unit {0}
  Parted vs (g ∷ gs) =
      (lib.versions.is_empty g ≡ false)
      × All (λ v. In v vs) (lib.versions.values g)
      × All (λ h. All (λ v. ¬ In v (lib.versions.values g)) (lib.versions.values h)) gs
      × Parted vs gs

  Parted-weaken :
      (us vs : List VersionNumber) (gs : List lib.versions.Carrier)
      → ((v : VersionNumber) → In v us → In v vs)
      → Parted us gs
      → Parted vs gs
  Parted-weaken us vs [] f h = tt
  Parted-weaken us vs (g ∷ gs) f (some_version, within, apart, h) =
      (some_version, All-map f (lib.versions.values g) within, apart, Parted-weaken us vs gs f h)

  Parted-All :
      (us : List VersionNumber) (gs : List lib.versions.Carrier)
      → Parted us gs
      → All (λ h. All (λ v. In v us) (lib.versions.values h)) gs
  Parted-All us [] h = tt
  Parted-All us (g ∷ gs) (some_version, within, apart, h) = (within, Parted-All us gs h)

  -- Every version that the pattern of an item matches is in a group.
  abbrev pub Grouped : List lib.yaml.Node → List VersionNumber → List lib.versions.Carrier → Type 0
  Grouped items vs gs =
      (item : lib.yaml.Node) (p : PackagePattern) (v : VersionNumber)
      → In item items
      → Pattern.parse (lib.yaml.as_text (lib.yaml.at_key item (codes "version"))) ≡ ok p
      → In v vs
      → matches_version p v ≡ true
      → (g : lib.versions.Carrier) × In g gs × (lib.versions.exists g v ≡ true)

  module _ (laws : InsertLaws lib.versions) where
    OnOk-self : {A : Type 0} (m : Outcome A) → OnOk (λ a. m ≡ ok a) m
    OnOk-self (ok a) = refl
    OnOk-self (threw e) = tt
    OnOk-self aborted = tt
    OnOk-self exhausted = tt

    -- A version that an item matches is in the set of the first item or in a group of the others.
    placed :
        (p : PackagePattern) (item : lib.yaml.Node) (items : List lib.yaml.Node)
        (vs : List VersionNumber) (r : lib.versions.Carrier × List VersionNumber)
        (gs : List lib.versions.Carrier)
        → Pattern.parse (lib.yaml.as_text (lib.yaml.at_key item (codes "version"))) ≡ ok p
        → Taken p lib.versions.empty vs r
        → Grouped items r.1 gs
        → (other : lib.yaml.Node) (q : PackagePattern) (v : VersionNumber) → In other (item ∷ items)
        → Pattern.parse (lib.yaml.as_text (lib.yaml.at_key other (codes "version"))) ≡ ok q
        → In v vs
        → matches_version q v ≡ true
        → (lib.versions.exists r.0 v ≡ true)
          ⊎ ((g : lib.versions.Carrier) × In g gs × (lib.versions.exists g v ≡ true))
    placed p item items vs r gs e h grouped other q v m parsed iv mv = elim (h.decided v iv) [
      | inl k ↦ inl k
      | inr k ↦ elim m [
        | inl same ↦ (let refused = (h.left v k).1 in cc)
        | inr later ↦ inr (grouped other q v later parsed k mv)
      ]
    ]

    module _ (p : PackagePattern) (item : lib.yaml.Node) (items : List lib.yaml.Node)
        (vs : List VersionNumber) (r : lib.versions.Carrier × List VersionNumber)
        (gs : List lib.versions.Carrier)
        (e : Pattern.parse (lib.yaml.as_text (lib.yaml.at_key item (codes "version"))) ≡ ok p)
        (h : Taken p lib.versions.empty vs r) (parted : Parted r.1 gs)
        (grouped : Grouped items r.1 gs) where
      dropped : lib.versions.is_empty r.0 ≡ true → Parted vs gs × Grouped (item ∷ items) vs gs
      dropped none_taken = (
        Parted-weaken r.1 vs gs (λ v m. (h.left v m).0) parted,
        λ other q v m parsed iv mv.
            elim (placed p item items vs r gs e h grouped other q v m parsed iv mv) [
              | inl k ↦ (let no = laws.exists-is_empty r.0 v none_taken in cc)
              | inr k ↦ k
            ],
      )

      taken_matches :
          (b : VersionNumber)
          → In b (lib.versions.values r.0)
          → In b vs × (matches_version p b ≡ true)
      taken_matches b m = elim (h.taken b m) [
        | inl k ↦ absurd (subst (In b) laws.values-empty k)
        | inr k ↦ k
      ]

      added :
          lib.versions.is_empty r.0 ≡ false
          → Parted vs (r.0 ∷ gs) × Grouped (item ∷ items) vs (r.0 ∷ gs)
      added some_taken = (
        (
          some_taken,
          All-In (λ b. In b vs) (lib.versions.values r.0) (λ b m. (taken_matches b m).0),
          All-map
              (λ g within.
                All-map
                  (λ v m in_first.
                    (let refused = (h.left v m).1 in
                      let wanted = (taken_matches v in_first).1 in cc))
                  (lib.versions.values g) within)
              gs (Parted-All r.1 gs parted),
          Parted-weaken r.1 vs gs (λ v m. (h.left v m).0) parted,
        ),
        λ other q v m parsed iv mv.
            elim (placed p item items vs r gs e h grouped other q v m parsed iv mv) [
              | inl k ↦ (r.0, inl refl, k)
              | inr k ↦ (k.0, inr k.1, k.2)
            ],
      )

    group_items-Parted :
        (loc : Location) (n : ℕ) (items : List lib.yaml.Node) (vs : List VersionNumber)
        → OnOk (λ gs. Parted vs gs × Grouped items vs gs) (group_items loc n items vs)
    unfolding group_items
    group_items-Parted loc n [] vs = (tt, λ item p v m. absurd m)
    group_items-Parted loc n (item ∷ items) [] = (tt, λ other p v m parsed iv. absurd iv)
    group_items-Parted loc n (item ∷ items) (v ∷ vs) =
        let version = lib.yaml.at_key item (codes "version") in
        let Q = λ (gs : List lib.versions.Carrier).
          Parted (v ∷ vs) gs × Grouped (item ∷ items) (v ∷ vs) gs in
        elim (is_type scalar version)
          as (λ b. OnOk Q (elim b [
            | false ↦
                fail syntax_error loc
                  (codes "expected scalar version property in item #" ++ lib.boost.lexical_cast n)
            | true ↦ (do
              pattern ← Pattern.parse (lib.yaml.as_text version)
              groups ←
                  group_items loc (suc n) items
                    (take_matching pattern lib.versions.empty (v ∷ vs)).1
              ok (
                  if lib.versions.is_empty (take_matching pattern lib.versions.empty (v ∷ vs)).0
                  then groups
                  else (take_matching pattern lib.versions.empty (v ∷ vs)).0 ∷ groups))
          ])) [
            | false ↦ tt
            | true ↦
                OnOk-bind (λ p. Pattern.parse (lib.yaml.as_text version) ≡ ok p) Q
                  (Pattern.parse (lib.yaml.as_text version)) _
                  (OnOk-self (Pattern.parse (lib.yaml.as_text version)))
                  (λ p e.
                    let r = take_matching p lib.versions.empty (v ∷ vs) in
                    let h = take_matching-Taken laws p lib.versions.empty (v ∷ vs) in
                    OnOk-bind (λ gs. Parted r.1 gs × Grouped items r.1 gs) Q
                      (group_items loc (suc n) items r.1) _
                      (group_items-Parted loc (suc n) items r.1)
                      (λ gs k.
                        if_cases Q (lib.versions.is_empty r.0) gs (r.0 ∷ gs)
                          (dropped p item items (v ∷ vs) r gs e h k.0 k.1)
                          (added p item items (v ∷ vs) r gs e h k.0 k.1)))
          ]

    -- The groups that `versionsByDependency` returns are not empty, hold versions of the definition only,
    -- and no two of them have a version in common; and each version of the definition that the version
    -- pattern of some item of the dependencies matches is in a group.
    pub versions_by_dependency-Parted :
        (d : DefinedPackage)
        → OnOk
            (λ gs.
              Parted (lib.versions.values d.versions) gs
              × Grouped
                  (lib.yaml.items (section_of d (codes "dependencies")).node)
                  (lib.versions.values d.versions)
                  gs)
            (versions_by_dependency d)
    unfolding versions_by_dependency
    versions_by_dependency-Parted d =
        let loc = section_of d (codes "dependencies") in
        let vs = lib.versions.values d.versions in
        let Q = λ (gs : List lib.versions.Carrier).
          Parted vs gs × Grouped (lib.yaml.items loc.node) vs gs in
        if_cases (OnOk Q) (is_type undefined loc.node) _ _ (λ _. tt)
          (λ _.
            if_cases (OnOk Q) (not (is_type sequence loc.node)) _ _ (λ _. tt)
              (λ _. group_items-Parted loc 0 (lib.yaml.items loc.node) vs))
