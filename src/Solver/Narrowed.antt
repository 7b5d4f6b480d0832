-- ===== src/Solver/Narrowed.antt =====
-- What `extendLists` of src/Spock/Solver.C makes of the packages that were found for a pattern.
use rmc_spock.Base.{
  ◌≡◌, refl, subst, ◌∙◌, ◌⊎◌, inl, inr, true, not, [], ◌∷◌, All, All-map, In, assert,
}
use rmc_spock.Libraries.{VersionNumber, Libraries}
use rmc_spock.Libraries.Laws.{SetLaws}
use rmc_spock.Version.{is_empty_version}
use rmc_spock.Pattern.{PackagePattern}
use rmc_spock.Package.{Package, Kind, Ghost, installed, ghost, ghost_with_versions}
use rmc_spock.PackageLists.{Packages}
use rmc_spock.Solver.State.{pure, lift, new_address}
use rmc_spock.Solver.Extend.{matching_versions, narrow, narrow_all}
use rmc_spock.Solver.Relation.{IsSound, IsSoundKind}
use rmc_spock.Solver.Triple.{
  Fields, Ensures, Any, OnOk-Any, bind_rule, pure_rule, lift_rule, if_rule, address_rule,
}
use rmc_spock.Solver.Candidates.{ghost_with_versions-OnOk}

module _ ⦃lib : Libraries⦄ where
  -- A found package, a ghost with only versions that match the pattern.
  abbrev pub NarrowedTo : PackagePattern → Package → Kind → Package → Type 0
  NarrowedTo pattern p (installed i) q = q ≡ p
  NarrowedTo pattern p (ghost g) q =
      (h : Ghost) × (q.kind ≡ ghost h)
      × (q.name ≡ p.name)
      × (h.definition ≡ g.definition)
      × ((v : VersionNumber)
          → lib.versions.exists h.versions v ≡ true
          → lib.versions.exists
              (matching_versions pattern lib.versions.empty (lib.versions.values g.versions)) v
            ≡ true)

  abbrev pub Narrowed : PackagePattern → Packages → Package → Type 0
  Narrowed pattern found q = (p : Package) × In p found × NarrowedTo pattern p p.kind q

  -- What the loop makes of the packages that were found.
  abbrev pub Chosen : PackagePattern → Packages → Package → Type 0
  Chosen pattern found q =
      ((is_empty_version pattern.version ≡ true) × In q found) ⊎ Narrowed pattern found q

  module _ (laws : SetLaws lib.versions) (J : Fields) where
    open laws use {same_sound}

    narrow-NarrowedTo :
        (pattern : PackagePattern) (p : Package) (k : Kind)
        → p.kind ≡ k
        → IsSound p
        → Ensures J (narrow pattern p k) (NarrowedTo pattern p k)
    unfolding narrow
    narrow-NarrowedTo pattern p (installed i) e s = pure_rule J (λ q. q ≡ p) p refl
    narrow-NarrowedTo pattern p (ghost g) e s =
        let R = NarrowedTo pattern p (ghost g) in
        let matching =
          matching_versions pattern lib.versions.empty (lib.versions.values g.versions) in
        bind_rule J Any R (lift (assert (not (lib.versions.is_empty matching)))) _
          (lift_rule J Any (assert (not (lib.versions.is_empty matching)))
            (OnOk-Any (assert (not (lib.versions.is_empty matching)))))
          (λ u q.
            if_rule J R (lib.versions.same matching g.versions) (pure p) _
              (λ e'.
                pure_rule J R p (g, e, refl, refl, λ v m. same_sound matching g.versions e' v ∙ m))
              (λ e'. bind_rule J Any R new_address _ (address_rule J) (λ address q'.
                lift_rule J R (ghost_with_versions address p g matching) (
                  ghost_with_versions-OnOk laws R address p g matching (subst (IsSoundKind p) e s)
                    (λ fine. (
                      record { definition = g.definition; versions = matching },
                      refl,
                      refl,
                      refl,
                      λ v m. m,
                    ))))))

    pub narrow_all-Narrowed :
        (pattern : PackagePattern) (ps : Packages)
        → All IsSound ps
        → Ensures J (narrow_all pattern ps) (All (Narrowed pattern ps))
    unfolding narrow_all
    narrow_all-Narrowed pattern [] s = pure_rule J (All (Narrowed pattern [])) [] tt
    narrow_all-Narrowed pattern (p ∷ ps) (s, t) =
        bind_rule J _ (All (Narrowed pattern (p ∷ ps))) (narrow pattern p p.kind) _
          (narrow-NarrowedTo pattern p p.kind refl s)
          (λ q to.
            bind_rule J _ (All (Narrowed pattern (p ∷ ps))) (narrow_all pattern ps) _
              (narrow_all-Narrowed pattern ps t)
              (λ qs more.
                pure_rule J (All (Narrowed pattern (p ∷ ps))) (q ∷ qs)
                  ((p, inl refl, to), All-map (λ r (p', m, n). (p', inr m, n)) qs more)))
