-- ===== src/Solver/Answers.antt =====
-- What the lists that `extendLists` of src/Spock/Solver.C makes have to do with the patterns.
use rmc_spock.Base.{
  ◌≡◌, refl, subst⁻¹, ◌⊎◌, inl, inr, Bool, true, false, ◌&&◌, List, [], ◌∷◌, ◌++◌, codes, OnOk, All,
  All-map, All-In, All-sort_by, In, In-left, In-middle, any, length, ◌==◌, ==_iff, is_empty,
  Bool-cases, Outcome, ok, threw, aborted, exhausted, arith, if◌then◌else◌, if_cases,
}
use rmc_spock.Libraries.{Libraries}
use rmc_spock.Libraries.Laws.{SetLaws}
use rmc_spock.Version.{is_empty_version}
use rmc_spock.Pattern
use rmc_spock.Pattern.{PackagePattern}
use rmc_spock.Package.{Package, identical}
use rmc_spock.PackageLists.{Packages, PackageLists, all_identical, list_exists, insert, sort}
use rmc_spock.Solver.State.{SolverContext, pure, ◌>>=◌, ◌>>◌, lift, insert_message}
use rmc_spock.Solver.Extend.{
  narrow_all, remove_conflicting, is_constraint, extend_with, extend_by, extend_lists,
}
use rmc_spock.Solver.Search.{initial_lists}
use rmc_spock.Solver.Relation.{IsSound}
use rmc_spock.Solver.Triple.{
  Fields, Ensures, Any, OnOk-Any, bind_rule, pure_rule, lift_rule, elim_rule, if_rule, message_rule,
  weaken_rule, both_rule,
}
use rmc_spock.Solver.Candidates.{
  FindsSound, Longer, Longer-refl, extend_lists_rule, remove_conflicting_rule,
}
use rmc_spock.Solver.Narrowed.{Narrowed, Chosen, narrow_all-Narrowed}

module _ ⦃lib : Libraries⦄ where
  any_holds :
      {A : Type 0} (f : A → Bool) (xs : List A) → any f xs ≡ true → (x : A) × In x xs × (f x ≡ true)
  any_holds f [] e = cc
  any_holds f (x ∷ xs) e = elim (Bool-cases (f x)) [
    | inl h ↦ (x, inl refl, h)
    | inr h ↦ let (y, m, k) = any_holds f xs (ground (arith, e, h)) in (y, inr m, k)
  ]

  identical_refl : (p : Package) → identical p p ≡ true
  unfolding identical
  identical_refl p = rw ((==_iff p.address p.address).1 refl) refl

  module _ (ctx : SolverContext) where
    -- The context finds the package for the pattern, or one that is identical with it.
    abbrev pub Suitable : PackagePattern → Package → Type 0
    Suitable pattern q =
        (found : Packages) × (p : Package) × (ctx.find_packages pattern ≡ ok found)
        × Chosen pattern found p
        × (identical p q ≡ true)

    -- A list or a constraint stands for the pattern.
    abbrev pub Answers : Packages → PackageLists → PackagePattern → Type 0
    Answers constraints lists pattern =
        ((l : Packages) × In l lists × All (Suitable pattern) l)
        ⊎ ((c : Package) × In c constraints × Suitable pattern c)

    -- An empty list or an answer to every pattern.
    abbrev pub AnswersAll : Packages → List PackagePattern → PackageLists → Type 0
    AnswersAll constraints patterns ls = In [] ls ⊎ All (Answers constraints ls) patterns

    -- An empty list ends the loop over the patterns.
    abbrev AnswersOne : Packages → PackagePattern → PackageLists × Bool → Type 0
    AnswersOne constraints pattern r =
        (r.1 ≡ true → Answers constraints r.0 pattern) × (r.1 ≡ false → In [] r.0)

    module _ (pattern : PackagePattern) (found : Packages)
        (known : ctx.find_packages pattern ≡ ok found) where
      all_identical-Suitable :
          (ps bs : Packages)
          → All (Chosen pattern found) ps
          → length ps ≡ length bs
          → all_identical ps bs ≡ true
          → All (Suitable pattern) bs
      unfolding all_identical
      all_identical-Suitable ps [] h n e = tt
      all_identical-Suitable [] (b ∷ bs) h n e = absurd (omega (arith, n))
      all_identical-Suitable (p ∷ ps) (b ∷ bs) (h, hs) n e =
          let both : (identical p b ≡ true) × (all_identical ps bs ≡ true) = ground (arith, e) in
          ((found, p, known, h, both.0), all_identical-Suitable ps bs hs (omega (arith, n)) both.1)

      is_constraint-Answers :
          (constraints : Packages) (plists : PackageLists) (ps : Packages)
          → All (Chosen pattern found) ps
          → is_constraint constraints ps ≡ true
          → Answers constraints plists pattern
      unfolding is_constraint
      is_constraint-Answers constraints plists [] h e = cc
      is_constraint-Answers constraints plists (p ∷ []) (h, u) e =
          let (c, m, same) = any_holds (identical p) constraints e in
          inr (c, m, (found, p, known, h, same))
      is_constraint-Answers constraints plists (p ∷ q ∷ ps) h e = cc

      list_exists-Answers :
          (constraints : Packages) (plists : PackageLists) (ps : Packages)
          → All (Chosen pattern found) ps
          → list_exists plists ps ≡ true
          → Answers constraints plists pattern
      unfolding list_exists
      list_exists-Answers constraints plists ps h e =
          let (l, m, same) =
            any_holds (λ b. length ps == length b && all_identical ps b) plists e in
          let both : ((length ps == length l) ≡ true) × (all_identical ps l ≡ true) =
            ground (arith, same) in
          inl
            (l, m, all_identical-Suitable ps l h ((==_iff (length ps) (length l)).0 both.0) both.1)

      extend_with-Answers :
          (constraints : Packages) (plists : PackageLists) (ps : Packages)
          → All (Chosen pattern found) ps
          → AnswersOne constraints pattern (extend_with constraints plists ps)
      unfolding extend_with insert sort
      extend_with-Answers constraints plists [] h = ((λ e. cc), λ e. In-middle plists [] [])
      extend_with-Answers constraints plists (p ∷ ps) h =
          let sorted = All-sort_by (Chosen pattern found) _ (p ∷ ps) h in
          if_cases (AnswersOne constraints pattern) (is_constraint constraints (p ∷ ps))
            (plists, true) _
            (λ e. ((λ t. is_constraint-Answers constraints plists (p ∷ ps) h e), λ t. cc))
            (λ n.
              if_cases (AnswersOne constraints pattern) (list_exists plists (sort (p ∷ ps)))
                (plists, true) (insert plists (sort (p ∷ ps)), true)
                (λ e.
                  ((λ t. list_exists-Answers constraints plists (sort (p ∷ ps)) sorted e), λ t. cc))
                (λ e. (
                  (λ t. inl (
                    sort (p ∷ ps),
                    In-middle plists (sort (p ∷ ps)) [],
                    All-map (λ q c. (found, q, known, c, identical_refl q)) (sort (p ∷ ps)) sorted,
                  )),
                  λ t. cc,
                )))

    module _ (laws : SetLaws lib.versions) (finds : FindsSound ctx) (J : Fields) where
      use_found-Answers :
          (constraints : Packages) (plists : PackageLists) (pattern : PackagePattern)
          (found chosen : Packages)
          → ctx.find_packages pattern ≡ ok found
          → All (Chosen pattern found) chosen
          → Ensures {A = PackageLists × Bool} J
              (elim chosen [
                | [] ↦ (do
                  insert_message
                      (codes "no matching packages for " ++ Pattern.to_string lib.boost pattern)
                  pure (insert plists [], false))
                | p ∷ ps ↦ (do
                  usable ← remove_conflicting constraints (p ∷ ps)
                  pure (extend_with constraints plists usable))
              ])
              (AnswersOne constraints pattern)
      unfolding insert
      use_found-Answers constraints plists pattern found [] known h =
          let mesg = codes "no matching packages for " ++ Pattern.to_string lib.boost pattern in
          bind_rule J Any (AnswersOne constraints pattern) (insert_message mesg) _
            (message_rule J mesg)
            (λ u q.
              pure_rule J (AnswersOne constraints pattern) (insert plists [], false)
                ((λ e. cc), λ e. In-middle plists [] []))
      use_found-Answers constraints plists pattern found (p ∷ ps) known h =
          bind_rule J (All (Chosen pattern found)) (AnswersOne constraints pattern)
            (remove_conflicting constraints (p ∷ ps)) _
            (remove_conflicting_rule laws J (Chosen pattern found) constraints (p ∷ ps) h)
            (λ usable su.
              pure_rule J (AnswersOne constraints pattern) (extend_with constraints plists usable)
                (extend_with-Answers pattern found known constraints plists usable su))

      -- What was found, with the call that found it.
      find-known :
          (pattern : PackagePattern)
          → OnOk
              (λ found. (ctx.find_packages pattern ≡ ok found) × All IsSound found)
              (ctx.find_packages pattern)
      find-known pattern = known (ctx.find_packages pattern) (finds pattern)
        where
          known :
              (r : Outcome Packages)
              → OnOk (All IsSound) r
              → OnOk (λ found. (r ≡ ok found) × All IsSound found) r
          known (ok found) s = (refl, s)
          known (threw e) s = tt
          known aborted s = tt
          known exhausted s = tt

      extend_by-Answers :
          (constraints : Packages) (plists : PackageLists) (pattern : PackagePattern)
          → Ensures J (extend_by ctx constraints plists pattern) (AnswersOne constraints pattern)
      unfolding extend_by
      extend_by-Answers constraints plists pattern =
          let R = AnswersOne constraints pattern in
          if_rule J R (is_empty pattern.name) _ _ (λ e. record { run = λ s i. (i, tt) })
            (λ e.
              bind_rule J _ R (lift (ctx.find_packages pattern)) _
                (lift_rule J _ (ctx.find_packages pattern) (find-known pattern))
                (λ found (known, sound).
                  bind_rule J (All (Chosen pattern found)) R
                    (if is_empty_version pattern.version
                      then pure found
                      else narrow_all pattern found)
                    _
                    (if_rule J (All (Chosen pattern found)) (is_empty_version pattern.version)
                      (pure found) (narrow_all pattern found)
                      (λ f.
                        pure_rule J (All (Chosen pattern found)) found
                          (All-In (Chosen pattern found) found (λ p m. inl (f, m))))
                      (λ f.
                        weaken_rule J (All (Narrowed pattern found)) (All (Chosen pattern found))
                          (narrow_all pattern found)
                          (narrow_all-Narrowed laws J pattern found sound)
                          (λ qs h. All-map (λ q n. inr n) qs h)))
                    (λ chosen h.
                      use_found-Answers constraints plists pattern found chosen known h)))

      Answers-Longer :
          (constraints : Packages) (plists ls : PackageLists) (pattern : PackagePattern)
          → Longer plists ls
          → Answers constraints plists pattern
          → Answers constraints ls pattern
      Answers-Longer constraints plists ls pattern (more, e, s) (inl (l, m, h)) =
          inl (l, subst⁻¹ (In l) e (In-left plists l more m), h)
      Answers-Longer constraints plists ls pattern longer (inr h) = inr h

      extend_lists-Answers :
          (constraints : Packages) (plists : PackageLists) (patterns : List PackagePattern)
          → Ensures J
              (extend_lists ctx constraints plists patterns)
              (AnswersAll constraints patterns)
      unfolding extend_lists
      extend_lists-Answers constraints plists [] =
          pure_rule J (AnswersAll constraints []) plists (inr tt)
      extend_lists-Answers constraints plists (pattern ∷ patterns) =
          let R = AnswersAll constraints (pattern ∷ patterns) in
          bind_rule J _ R (extend_by ctx constraints plists pattern) _
            (extend_by-Answers constraints plists pattern)
            (λ r (here, stuck).
              elim_rule J R r.1 (extend_lists ctx constraints r.0 patterns) (pure r.0)
                (λ e.
                  weaken_rule J _ R (extend_lists ctx constraints r.0 patterns)
                    (both_rule J _ _ (extend_lists ctx constraints r.0 patterns)
                      (extend_lists_rule laws J ctx finds constraints r.0 patterns)
                      (extend_lists-Answers constraints r.0 patterns))
                    (λ ls (longer, rest). elim rest [
                      | inl hole ↦ inl hole
                      | inr all_of ↦
                          inr (Answers-Longer constraints r.0 ls pattern longer (here e), all_of)
                    ]))
                (λ e. pure_rule J R r.0 (inl (stuck e))))

      -- Unless a list is empty, the lists that the search begins with answer every pattern.
      pub initial_lists-Answers :
          (constraints : Packages) (patterns : List PackagePattern)
          → Ensures J (initial_lists ctx constraints patterns) (AnswersAll constraints patterns)
      unfolding initial_lists
      initial_lists-Answers constraints patterns =
          let name = codes "code-generation" in
          let R = AnswersAll constraints patterns in
          bind_rule J Any R (lift (Pattern.parse name)) _
            (lift_rule J Any (Pattern.parse name) (OnOk-Any (Pattern.parse name)))
            (λ code_generation q.
              bind_rule J Any R (lift (ctx.find_installed code_generation)) _
                (lift_rule J Any (ctx.find_installed code_generation)
                  (OnOk-Any (ctx.find_installed code_generation)))
                (λ generators q'.
                  bind_rule J (Longer []) R
                    (if is_empty generators
                      then pure []
                      else extend_lists ctx constraints [] (code_generation ∷ []))
                    _
                    (if_rule J (Longer []) (is_empty generators) (pure [])
                      (extend_lists ctx constraints [] (code_generation ∷ []))
                      (λ e. pure_rule J (Longer []) [] (Longer-refl []))
                      (λ e.
                        extend_lists_rule laws J ctx finds constraints [] (code_generation ∷ [])))
                    (λ plists longer. extend_lists-Answers constraints plists patterns)))
