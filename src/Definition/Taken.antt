-- ===== src/Definition/Taken.antt =====
-- What the inner loop of `versionsByDependency` of src/Spock/DefinedPackage.C does with the versions.
use rmc_spock.Base.{
  true, false, List, [], ◌∷◌, In, ◌≡◌, ◌⊎◌, inl, inr, ap, subst⁻¹, ◌∙◌, Bool-cases,
}
use rmc_spock.Libraries.{VersionNumber, Libraries}
use rmc_spock.Libraries.Laws.{InsertLaws}
use rmc_spock.Pattern.{PackagePattern, matches_version}
use rmc_spock.Definition.Groups.{take_matching}

module _ ⦃lib : Libraries⦄ where
  -- What the loop over the versions takes and leaves.
  pub record Taken (p : PackagePattern) (set : lib.versions.Carrier) (vs : List VersionNumber)
      (r : lib.versions.Carrier × List VersionNumber) : Type 0 where
    pub taken :
        (b : VersionNumber)
        → In b (lib.versions.values r.0)
        → In b (lib.versions.values set) ⊎ (In b vs × (matches_version p b ≡ true))
    pub left : (b : VersionNumber) → In b r.1 → In b vs × (matches_version p b ≡ false)
    pub kept :
        (b : VersionNumber) → lib.versions.exists set b ≡ true → lib.versions.exists r.0 b ≡ true
    pub decided : (b : VersionNumber) → In b vs → (lib.versions.exists r.0 b ≡ true) ⊎ In b r.1

  module _ (laws : InsertLaws lib.versions) where
    Taken-inserted :
        (p : PackagePattern) (set : lib.versions.Carrier) (v : VersionNumber)
        (vs : List VersionNumber) (r : lib.versions.Carrier × List VersionNumber)
        → matches_version p v ≡ true
        → Taken p (lib.versions.insert set v) vs r
        → Taken p set (v ∷ vs) r
    Taken-inserted p set v vs r e h = record {
      taken = λ b m. elim (h.taken b m) [
        | inl k ↦ elim (laws.values-insert set v b k) [
          | inl old ↦ inl old
          | inr new ↦ inr (inl new, ap (matches_version p) new ∙ e)
        ]
        | inr k ↦ inr (inr k.0, k.1)
      ];
      left = λ b m. (inr (h.left b m).0, (h.left b m).1);
      kept = λ b k. h.kept b (laws.exists-insert_kept set v b k);
      decided = λ b m. elim m [
        | inl same ↦ inl (
            h.kept b (
              subst⁻¹ (λ x. lib.versions.exists (lib.versions.insert set v) x ≡ true) same
                (laws.exists-insert set v)))
        | inr later ↦ h.decided b later
      ];
    }

    Taken-left :
        (p : PackagePattern) (set : lib.versions.Carrier) (v : VersionNumber)
        (vs : List VersionNumber) (r : lib.versions.Carrier × List VersionNumber)
        → matches_version p v ≡ false
        → Taken p set vs r
        → Taken p set (v ∷ vs) (r.0, v ∷ r.1)
    Taken-left p set v vs r e h = record {
      taken = λ b m. elim (h.taken b m) [ inl k ↦ inl k | inr k ↦ inr (inr k.0, k.1) ];
      left = λ b m. elim m [
        | inl same ↦ (inl same, ap (matches_version p) same ∙ e)
        | inr later ↦ (inr (h.left b later).0, (h.left b later).1)
      ];
      kept = h.kept;
      decided = λ b m. elim m [
        | inl same ↦ inr (inl same)
        | inr later ↦ elim (h.decided b later) [ inl k ↦ inl k | inr k ↦ inr (inr k) ]
      ];
    }

    pub take_matching-Taken :
        (p : PackagePattern) (set : lib.versions.Carrier) (vs : List VersionNumber)
        → Taken p set vs (take_matching p set vs)
    unfolding take_matching
    take_matching-Taken p set [] = record {
      taken = λ b m. inl m;
      left = λ b m. absurd m;
      kept = λ b k. k;
      decided = λ b m. absurd m;
    }
    take_matching-Taken p set (v ∷ vs) =
        let insert_it = take_matching-Taken p (lib.versions.insert set v) vs in
        let leave_it = take_matching-Taken p set vs in
        elim (Bool-cases (matches_version p v)) [
          | inl e ↦
              rw (take_matching, e)
                (Taken-inserted p set v vs (take_matching p (lib.versions.insert set v) vs) e
                  insert_it)
          | inr e ↦
              rw (take_matching, e) (Taken-left p set v vs (take_matching p set vs) e leave_it)
        ]
