-- ===== src/Solver/Candidates.antt =====
-- What `extendLists` of src/Spock/Solver.C keeps and adds: the lists stay, and the new ones hold
-- sound packages, where the packages that the context finds are sound.
use rmc_spock.Base.{
  OnOk, ℕ, ◌≡◌, refl, sym, subst, subst⁻¹, if_intro, inl, inr, Bool, true, false, not, List, [],
  ◌∷◌, ◌++◌, codes, append-nil, append_assoc, All, All-append, All-sort_by, is_empty, Bool-cases,
  assert, if◌then◌else◌, all,
}
use rmc_spock.Libraries.{Libraries}
use rmc_spock.Libraries.Laws.{SetLaws}
use rmc_spock.Version.{is_empty_version}
use rmc_spock.Pattern
use rmc_spock.Pattern.{PackagePattern}
use rmc_spock.Package.{Package, Kind, Ghost, installed, ghost, to_string, ghost_with_versions}
use rmc_spock.PackageLists.{Packages, PackageLists, insert, sort, list_exists}
use rmc_spock.Solver.State.{SolverContext, pure, ◌>>=◌, ◌>>◌, lift, insert_message, new_address}
use rmc_spock.Solver.Extend.{
  matching_versions, narrow, narrow_all, find_excluding, remove_conflicting, is_constraint,
  extend_with, extend_by, extend_lists,
}
use rmc_spock.Solver.Relation.{
  IsSound, IsSoundKind, all_at, ghost_with_versions_lem, ghost_with_versions_unsupported,
}
use rmc_spock.Definition.{is_supported_version}
use rmc_spock.Solver.Triple.{
  Fields, Ensures, Any, OnOk-Any, bind_rule, pure_rule, lift_rule, elim_rule, option_rule, if_rule,
  message_rule, address_rule, weaken_rule,
}

module _ ⦃lib : Libraries⦄ where
  -- The packages that the context finds are sound.
  abbrev pub FindsSound : SolverContext → Type 0
  FindsSound ctx = (pattern : PackagePattern) → OnOk (All IsSound) (ctx.find_packages pattern)

  -- `plists` with lists of sound packages behind it.
  abbrev pub Longer : PackageLists → PackageLists → Type 0
  Longer plists ls = (more : PackageLists) × (ls ≡ plists ++ more) × All (All IsSound) more

  pub Longer-refl : (plists : PackageLists) → Longer plists plists
  Longer-refl plists = ([], sym (append-nil plists), tt)

  pub Longer-trans : (a b c : PackageLists) → Longer a b → Longer b c → Longer a c
  Longer-trans a b c (m, e, s) (n, f, t) =
      (m ++ n, rw (f, e) (append_assoc a m n), All-append (All IsSound) m n s t)

  Longer-insert :
      (plists : PackageLists) (ps : Packages) → All IsSound ps → Longer plists (insert plists ps)
  unfolding insert
  Longer-insert plists ps s = (ps ∷ [], refl, (s, tt))

  abbrev LongerResult : PackageLists → PackageLists × Bool → Type 0
  LongerResult plists r = Longer plists r.0

  extend_with-Longer :
      (constraints : Packages) (plists : PackageLists) (ps : Packages)
      → All IsSound ps
      → Longer plists (extend_with constraints plists ps).0
  unfolding extend_with sort
  extend_with-Longer constraints plists [] s = Longer-insert plists [] tt
  extend_with-Longer constraints plists (p ∷ ps) s =
      if_intro (LongerResult plists) (is_constraint constraints (p ∷ ps)) (plists, true) _
        (Longer-refl plists)
        (if_intro (LongerResult plists) (list_exists plists (sort (p ∷ ps))) (plists, true)
          (insert plists (sort (p ∷ ps)), true) (Longer-refl plists)
          (Longer-insert plists (sort (p ∷ ps)) (All-sort_by IsSound _ (p ∷ ps) s)))

  module _ (laws : SetLaws lib.versions) where
    open laws use {exists_all_iff}

    -- The ghost that is made from a sound one, if it is made.
    pub ghost_with_versions-OnOk :
        (R : Package → Type 0) (address : ℕ) (p : Package) (g : Ghost) (vs : lib.versions.Carrier)
        → IsSoundKind p (ghost g)
        → (all (is_supported_version g.definition) (lib.versions.values vs) ≡ true
            → R (record {
              address = address;
              hash = [];
              name = p.name;
              aliases = p.aliases;
              kind = ghost (record { definition = g.definition; versions = vs });
            }))
        → OnOk R (ghost_with_versions address p g vs)
    unfolding ghost_with_versions
    ghost_with_versions-OnOk R address p g vs s made =
        elim (Bool-cases (lib.versions.is_empty vs)) [
          | inl e ↦ rw e tt
          | inr e ↦ elim (Bool-cases (lib.versions.exists_all g.versions vs)) [
            | inl f ↦
                let sub = (exists_all_iff g.versions vs).0 f in
                elim (Bool-cases
                  (all (is_supported_version g.definition) (lib.versions.values vs))) [
                    | inl fine ↦
                        subst⁻¹ (OnOk R) (ghost_with_versions_lem laws address p g vs s e sub fine)
                          (made fine)
                    | inr fails ↦
                        subst⁻¹ (OnOk R)
                          (ghost_with_versions_unsupported laws address p g vs e sub fails) tt
                  ]
            | inr f ↦ rw (e, f) tt
          ]
        ]

    ghost_with_versions-IsSound :
        (address : ℕ) (p : Package) (g : Ghost) (vs : lib.versions.Carrier)
        → IsSoundKind p (ghost g)
        → OnOk IsSound (ghost_with_versions address p g vs)
    ghost_with_versions-IsSound address p g vs s =
        ghost_with_versions-OnOk IsSound address p g vs s (λ fine.
          (s.0, s.1, all_at (is_supported_version g.definition) (lib.versions.values vs) fine))

    module _ (J : Fields) where
      narrow_rule :
          (pattern : PackagePattern) (p : Package) (k : Kind)
          → p.kind ≡ k
          → IsSound p
          → Ensures J (narrow pattern p k) IsSound
      unfolding narrow
      narrow_rule pattern p (installed i) e s = pure_rule J IsSound p s
      narrow_rule pattern p (ghost g) e s =
          let matching =
            matching_versions pattern lib.versions.empty (lib.versions.values g.versions) in
          bind_rule J Any IsSound (lift (assert (not (lib.versions.is_empty matching)))) _
            (lift_rule J Any (assert (not (lib.versions.is_empty matching)))
              (OnOk-Any (assert (not (lib.versions.is_empty matching)))))
            (λ u q.
              if_rule J IsSound (lib.versions.same matching g.versions) (pure p) _
                (λ e'. pure_rule J IsSound p s)
                (λ e'. bind_rule J Any IsSound new_address _ (address_rule J) (λ address q'.
                  lift_rule J IsSound (ghost_with_versions address p g matching) (
                    ghost_with_versions-IsSound address p g matching (subst (IsSoundKind p) e s)))))

      narrow_all_rule :
          (pattern : PackagePattern) (ps : Packages)
          → All IsSound ps
          → Ensures J (narrow_all pattern ps) (All IsSound)
      unfolding narrow_all
      narrow_all_rule pattern [] s = pure_rule J (All IsSound) [] tt
      narrow_all_rule pattern (p ∷ ps) (s, t) =
          bind_rule J IsSound (All IsSound) (narrow pattern p p.kind) _
            (narrow_rule pattern p p.kind refl s)
            (λ q sq.
              bind_rule J (All IsSound) (All IsSound) (narrow_all pattern ps) _
                (narrow_all_rule pattern ps t)
                (λ qs sqs. pure_rule J (All IsSound) (q ∷ qs) (sq, sqs)))

      pub remove_conflicting_rule :
          (P : Package → Type 0) (constraints ps : Packages)
          → All P ps
          → Ensures J (remove_conflicting constraints ps) (All P)
      unfolding remove_conflicting
      remove_conflicting_rule P constraints [] s = pure_rule J (All P) [] tt
      remove_conflicting_rule P constraints (p ∷ ps) (s, t) =
          let rest = remove_conflicting_rule P constraints ps t in
          option_rule J (All P) (find_excluding constraints p) _ _
            (bind_rule J (All P) (All P) (remove_conflicting constraints ps) _ rest
              (λ kept sk. pure_rule J (All P) (p ∷ kept) (s, sk)))
            (λ c.
              bind_rule J Any (All P)
                (insert_message (to_string p ++ (codes " conflicts with " ++ to_string c))) _
                (message_rule J (to_string p ++ (codes " conflicts with " ++ to_string c)))
                (λ u q. rest))

      module _ (ctx : SolverContext) (finds : FindsSound ctx) where
        use_found :
            (constraints : Packages) (plists : PackageLists) (pattern : PackagePattern)
            (found : Packages)
            → All IsSound found
            → Ensures {A = PackageLists × Bool} J
                (elim found [
                  | [] ↦ (do
                    insert_message
                        (codes "no matching packages for " ++ Pattern.to_string lib.boost pattern)
                    pure (insert plists [], false))
                  | p ∷ ps ↦ (do
                    usable ← remove_conflicting constraints (p ∷ ps)
                    pure (extend_with constraints plists usable))
                ])
                (LongerResult plists)
        use_found constraints plists pattern [] s =
            let mesg = codes "no matching packages for " ++ Pattern.to_string lib.boost pattern in
            bind_rule J Any (LongerResult plists) (insert_message mesg) _ (message_rule J mesg)
              (λ u q.
                pure_rule J (LongerResult plists) (insert plists [], false)
                  (Longer-insert plists [] tt))
        use_found constraints plists pattern (p ∷ ps) s =
            bind_rule J (All IsSound) (LongerResult plists)
              (remove_conflicting constraints (p ∷ ps)) _
              (remove_conflicting_rule IsSound constraints (p ∷ ps) s)
              (λ usable su.
                pure_rule J (LongerResult plists) (extend_with constraints plists usable)
                  (extend_with-Longer constraints plists usable su))

        extend_by_rule :
            (constraints : Packages) (plists : PackageLists) (pattern : PackagePattern)
            → Ensures J (extend_by ctx constraints plists pattern) (LongerResult plists)
        unfolding extend_by
        extend_by_rule constraints plists pattern =
            if_rule J (LongerResult plists) (is_empty pattern.name) _ _
              (λ e. record { run = λ s i. (i, tt) })
              (λ e.
                bind_rule J (All IsSound) (LongerResult plists) (lift (ctx.find_packages pattern)) _
                  (lift_rule J (All IsSound) (ctx.find_packages pattern) (finds pattern))
                  (λ found sound.
                    bind_rule J (All IsSound) (LongerResult plists)
                      (if is_empty_version pattern.version
                        then pure found
                        else narrow_all pattern found)
                      _
                      (if_rule J (All IsSound) (is_empty_version pattern.version) (pure found)
                        (narrow_all pattern found) (λ f. pure_rule J (All IsSound) found sound)
                        (λ f. narrow_all_rule pattern found sound))
                      (λ narrowed sound'. use_found constraints plists pattern narrowed sound')))

        -- The new lists are behind the old ones.
        pub extend_lists_rule :
            (constraints : Packages) (plists : PackageLists) (patterns : List PackagePattern)
            → Ensures J (extend_lists ctx constraints plists patterns) (Longer plists)
        unfolding extend_lists
        extend_lists_rule constraints plists [] =
            pure_rule J (Longer plists) plists (Longer-refl plists)
        extend_lists_rule constraints plists (pattern ∷ patterns) =
            bind_rule J (LongerResult plists) (Longer plists)
              (extend_by ctx constraints plists pattern) _
              (extend_by_rule constraints plists pattern)
              (λ r longer.
                elim_rule J (Longer plists) r.1 _ (pure r.0)
                  (λ e.
                    weaken_rule J (Longer r.0) (Longer plists)
                      (extend_lists ctx constraints r.0 patterns)
                      (extend_lists_rule constraints r.0 patterns)
                      (λ ls. Longer-trans plists r.0 ls longer))
                  (λ e. pure_rule J (Longer plists) r.0 longer))
