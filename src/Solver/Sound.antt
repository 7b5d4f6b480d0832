-- ===== src/Solver/Sound.antt =====
-- The rules of the internal `solve` of src/Spock/Solver.C: what its levels keep and leave behind.
use rmc_spock.Base.{
  OnOk, ℕ, zero, suc, ◌≡◌, refl, sym, ap, subst, subst⁻¹, ◌∙◌, ◌⊎◌, inl, inr, Bool, true, false,
  none, some, List, [], ◌∷◌, ◌++◌, All, All-append, All-get_elem?, All-at, In, length, take,
  get_elem?, leb, ◌==◌, ==_iff, length-append, length-take, take-append, is_empty, Bool-cases, ok,
  aborted, exhausted, assert, arith,
}
use rmc_spock.Libraries.{Libraries}
use rmc_spock.Libraries.Laws.{SetLaws}
use rmc_spock.Pattern.{PackagePattern}
use rmc_spock.Package.{Package, dependency_patterns}
use rmc_spock.PackageLists.{Packages, PackageLists, nth_list, is_any_list_empty, resize}
use rmc_spock.Solver.State.{Solver, SolverContext, M, pure, ◌>>=◌, ◌>>◌, lift, get, modify}
use rmc_spock.Solver.Constraint.{append_constraint}
use rmc_spock.Solver.Search.{
  enough, record_solution, Level, with_dependencies, attempt, try_each, solve_within,
}
use rmc_spock.Solver.Relation.{IsSound}
use rmc_spock.Solver.Tighten.{AppendPost}
use rmc_spock.Solver.Triple.{
  Fields, Ensures, Any, OnOk-Any, bind_rule, pure_rule, lift_rule, bind_run, elim_run, elim_rule,
  append_rule,
}
use rmc_spock.Solver.Candidates.{FindsSound, Longer, Longer-refl, Longer-trans, extend_lists_rule}
use rmc_spock.Solver.Choice.{
  IsChoice, IsChoice-append, IsFirst, Inv, IsPartial, Grown, record_solution_run,
}

module _ ⦃lib : Libraries⦄ where
  nth_list-OnOk :
      (plists : PackageLists) (n : ℕ) → OnOk (λ l. get_elem? plists n ≡ some l) (nth_list plists n)
  unfolding nth_list
  nth_list-OnOk plists n =
      elim (get_elem? plists n)
        as (λ o. OnOk (λ l. o ≡ some l) (elim o [ none ↦ aborted | some pkgs ↦ ok pkgs ])) [
          | none ↦ tt
          | some l ↦ refl
        ]

  assert-OnOk : (b : Bool) → OnOk (λ u. b ≡ true) (assert b)
  assert-OnOk true = refl
  assert-OnOk false = tt

  -- Cutting grown lists to their former number gives the former lists.
  resize-OnOk :
      (plists ls : PackageLists)
      → Longer plists ls
      → OnOk (λ r. r ≡ plists) (resize ls (length plists))
  unfolding resize
  resize-OnOk plists ls (more, e, s) = elim (Bool-cases (leb (length plists) (length ls))) [
    | inl b ↦ rw (b, e) (take-append plists more)
    | inr b ↦ rw b tt
  ]

  -- Constraints that are not empty are as `AppendPost` says.
  pub appended :
      (cs : Packages) (p : Package) (ds : Packages)
      → (ds ≡ []) ⊎ AppendPost cs p ds
      → is_empty ds ≡ false
      → AppendPost cs p ds
  appended cs p ds (inl e) n = absurd (empty (ap is_empty (sym e) ∙ n))
    where
      empty : true ≡ false → ⊥
      empty e = cc
  appended cs p ds (inr post) n = post

  module _ (ctx : SolverContext) (patterns : List PackagePattern) (origin : Solver)
      (laws : SetLaws lib.versions) (finds : FindsSound ctx) (m : ℕ) (f : Bool)
      (first : PackageLists) (is_first : IsFirst ctx patterns origin first) where
    abbrev pub I : Fields
    I = Inv ctx patterns origin laws finds m f first is_first

    abbrev pub Partial : Packages → PackageLists → ℕ → Type 0
    Partial = IsPartial ctx patterns origin laws finds m f first is_first

    abbrev pub G : PackageLists → Level ctx → Type 0
    G = Grown ctx patterns origin laws finds m f first is_first

    Partial-append :
        (cs ds : Packages) (plists longer : PackageLists) (n : ℕ) (l : Packages) (p : Package)
        → Partial cs plists n
        → get_elem? plists n ≡ some l
        → In p l
        → AppendPost cs p ds
        → Longer plists longer
        → Partial ds longer (suc n)
    Partial-append cs ds plists longer n l p h at mem post (more, e, s) = record {
      choice =
          subst⁻¹ (λ ls. IsChoice (ctx.employed ++ is_first.0) (take (suc n) ls) ds) e
            (IsChoice-append (ctx.employed ++ is_first.0) plists more n l cs ds p h.choice at mem
              post);
      extended = Longer-trans first plists longer h.extended (more, e, s);
      candidates =
          subst⁻¹ (All (All IsSound)) e (All-append (All IsSound) plists more h.candidates s);
    }

    pub get_rule : Ensures I get Any
    get_rule = record { run = λ s i. (i, tt) }

    module _ (again : Packages → PackageLists → List ℕ → M (Level ctx))
        (again_rule : (cs : Packages) (plists : PackageLists) (indexes : List ℕ)
          → Partial cs plists (length indexes)
          → Ensures I (again cs plists indexes) (G plists)) where
      with_dependencies_rule :
          (cs : Packages) (trying : Package) (need : Bool) (plists : PackageLists)
          → Ensures I (with_dependencies ctx cs trying need plists) (Longer plists)
      unfolding with_dependencies
      with_dependencies_rule cs trying false plists =
          pure_rule I (Longer plists) plists (Longer-refl plists)
      with_dependencies_rule cs trying true plists =
          bind_rule I Any (Longer plists) (lift (dependency_patterns trying)) _
            (lift_rule I Any (dependency_patterns trying) (OnOk-Any (dependency_patterns trying)))
            (λ ps q. extend_lists_rule laws I ctx finds cs plists ps)

      -- The attempt once the package was appended.
      appended_rule :
          (cs ds : Packages) (need : Bool) (trying : Package) (plists : PackageLists)
          (indexes : List ℕ) (n : ℕ) (l : Packages)
          → Partial cs plists n
          → length indexes ≡ suc n
          → get_elem? plists n ≡ some l
          → In trying l
          → AppendPost cs trying ds
          → Ensures {A = Level ctx} I
              (do
                longer ← with_dependencies ctx ds trying need plists
                elim (is_any_list_empty longer) [
                  | true ↦ pure (record { stop = false; lists = longer; indexes = indexes })
                  | false ↦ (do
                    level ← again ds longer indexes
                    s ← get
                    pure (record level { stop = enough s }))
                ])
              (G plists)
      appended_rule cs ds need trying plists indexes n l h len at mem post =
          bind_rule I (Longer plists) (G plists) (with_dependencies ctx ds trying need plists) _
            (with_dependencies_rule ds trying need plists)
            (λ longer grown.
              elim_rule I (G plists) (is_any_list_empty longer)
                (pure (record { stop = false; lists = longer; indexes = indexes })) _
                (λ e.
                  pure_rule I (G plists)
                    (record { stop = false; lists = longer; indexes = indexes }) grown)
                (λ e.
                  bind_rule I (G longer) (G plists) (again ds longer indexes) _
                    (again_rule ds longer indexes (
                      subst⁻¹ (Partial ds longer) len
                        (Partial-append cs ds plists longer n l trying h at mem post grown)))
                    (λ level g. bind_rule I Any (G plists) get _ get_rule (λ s q.
                      pure_rule I (G plists) (record level { stop = enough s })
                        (Longer-trans plists longer level.lists grown g)))))

      attempt_rule :
          (cs : Packages) (trying : Package) (plists : PackageLists) (indexes : List ℕ) (n : ℕ)
          (l : Packages)
          → Partial cs plists n
          → length indexes ≡ suc n
          → get_elem? plists n ≡ some l
          → In trying l
          → Ensures I (attempt ctx again cs trying plists indexes) (G plists)
      unfolding attempt
      attempt_rule cs trying plists indexes n l h len at mem =
          let sound =
            All-at IsSound l trying (All-get_elem? (All IsSound) plists n l h.candidates at) mem in
          bind_rule I (λ a. (a.0 ≡ []) ⊎ AppendPost cs trying a.0) (G plists)
            (append_constraint cs trying) _
            (append_rule I laws cs trying h.choice.consistent h.choice.sound sound)
            (λ r post.
              elim_rule I (G plists) (is_empty r.0)
                (pure (record { stop = false; lists = plists; indexes = indexes })) _
                (λ e.
                  pure_rule I (G plists)
                    (record { stop = false; lists = plists; indexes = indexes })
                    (Longer-refl plists))
                (λ e.
                  appended_rule cs r.0 r.1 trying plists indexes n l h len at mem
                    (appended cs trying r.0 post e)))

      try_each_rule :
          (cs : Packages) (n i : ℕ) (packages : Packages) (plists : PackageLists) (indexes : List ℕ)
          (l : Packages)
          → Partial cs plists n
          → length indexes ≡ n
          → get_elem? plists n ≡ some l
          → ((p : Package) → In p packages → In p l)
          → Ensures I (try_each ctx again cs n (length plists) i packages plists indexes) (G plists)
      unfolding try_each
      try_each_rule cs n i [] plists indexes l h len at mem =
          pure_rule I (G plists) (record { stop = false; lists = plists; indexes = indexes })
            (Longer-refl plists)
      try_each_rule cs n i (trying ∷ more) plists indexes l h len at mem =
          bind_rule I (G plists) (G plists)
            (attempt ctx again cs trying plists (indexes ++ (i ∷ []))) _
            (attempt_rule cs trying plists (indexes ++ (i ∷ [])) n l h
              (omega (arith, length-append indexes (i ∷ []), len)) at (mem trying (inl refl)))
            (λ level g.
              elim_rule I (G plists) level.stop (pure level) _ (λ e. pure_rule I (G plists) level g)
                (λ e.
                  bind_rule I (λ r. r ≡ plists) (G plists)
                    (lift (resize level.lists (length plists))) _
                    (lift_rule I (λ r. r ≡ plists) (resize level.lists (length plists))
                      (resize-OnOk plists level.lists g))
                    (λ ls same.
                      bind_rule I (λ u. leb n (length level.indexes) ≡ true) (G plists)
                        (lift (assert (leb n (length level.indexes)))) _
                        (lift_rule I _ (assert (leb n (length level.indexes)))
                          (assert-OnOk (leb n (length level.indexes))))
                        (λ u b.
                          subst⁻¹
                            (λ ks.
                              Ensures I
                                (try_each ctx again cs n (length plists) (suc i) more ks
                                  (take n level.indexes))
                                (G plists))
                            same
                            (try_each_rule cs n (suc i) more plists (take n level.indexes) l h
                              (length-take n level.indexes b) at (λ p k. mem p (inr k)))))))

    -- The body of the internal solver behind its assertion.
    chosen_rule :
        (again : Packages → PackageLists → List ℕ → M (Level ctx))
        → ((cs : Packages) (plists : PackageLists) (indexes : List ℕ)
            → Partial cs plists (length indexes)
            → Ensures I (again cs plists indexes) (G plists))
        → (cs : Packages) (plists : PackageLists) (indexes : List ℕ)
        → Partial cs plists (length indexes)
        → Ensures {A = Level ctx} I
            (do
              s ← get
              elim (enough s) [
                | true ↦ pure (record { stop = false; lists = plists; indexes = indexes })
                | false ↦ elim (length indexes == length plists) [
                  | true ↦ (do
                    record_solution ctx cs plists indexes
                    pure (record { stop = false; lists = plists; indexes = indexes }))
                  | false ↦ (do
                    packages ← lift (nth_list plists (length indexes))
                    try_each ctx again cs
                        (length indexes)
                        (length plists)
                        0
                        packages
                        plists
                        indexes)
                ]
              ])
            (G plists)
    chosen_rule again again_rule cs plists indexes h = record {
      run = λ s i.
          let here : Level ctx = record { stop = false; lists = plists; indexes = indexes } in
          let record_it : M (Level ctx) = record_solution ctx cs plists indexes >> pure here in
          let go_on : M (Level ctx) = lift (nth_list plists (length indexes)) >>= λ packages.
          try_each ctx again cs (length indexes) (length plists) 0 packages plists indexes in
          elim_run I (G plists) (enough s) (pure here)
            (elim (length indexes == length plists) as (λ x. M (Level ctx)) [
              | true ↦ record_it
              | false ↦ go_on
            ])
            s (λ e. (pure_rule I (G plists) here (Longer-refl plists)).run s i)
            (λ e.
              elim_run I (G plists) (length indexes == length plists) record_it go_on s
                (λ b.
                  bind_run I Any (G plists) (record_solution ctx cs plists indexes) (λ w. pure here)
                    s
                    (
                      record_solution_run ctx patterns origin laws finds m f first is_first cs
                          plists indexes s
                          (subst (Partial cs plists) ((==_iff (length indexes) (length plists)).0 b)
                            h)
                          i e,
                      OnOk-Any (record_solution ctx cs plists indexes s).0,
                    )
                    (λ w z. pure_rule I (G plists) here (Longer-refl plists)))
                (λ b.
                  (bind_rule I (λ l. get_elem? plists (length indexes) ≡ some l) (G plists)
                      (lift (nth_list plists (length indexes))) _
                      (lift_rule I _ (nth_list plists (length indexes))
                        (nth_list-OnOk plists (length indexes)))
                      (λ l at.
                        try_each_rule again again_rule cs (length indexes) 0 l plists indexes l h
                          refl at (λ p k. k))).run
                    s i));
    }

    -- The internal solver keeps what it has recorded sound, however it ends.
    pub solve_within_rule :
        (fuel : ℕ) (cs : Packages) (plists : PackageLists) (indexes : List ℕ)
        → Partial cs plists (length indexes)
        → Ensures I (solve_within ctx fuel cs plists indexes) (G plists)
    unfolding solve_within
    solve_within_rule zero cs plists indexes h = lift_rule I (G plists) exhausted tt
    solve_within_rule (suc k) cs plists indexes h =
        bind_rule I Any (G plists) (lift (assert (leb (length indexes) (length plists)))) _
          (lift_rule I Any (assert (leb (length indexes) (length plists)))
            (OnOk-Any (assert (leb (length indexes) (length plists)))))
          (λ u q.
            bind_rule I Any (G plists) (modify (λ s. record s { n_steps = suc s.n_steps })) _
              (record { run = λ s i. (i, tt) })
              (λ v q'. chosen_rule (solve_within ctx k) (solve_within_rule k) cs plists indexes h))
