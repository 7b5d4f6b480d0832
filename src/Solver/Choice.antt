-- ===== src/Solver/Choice.antt =====
-- What the solutions of src/Spock/Solver.C stand for: choices of packages that can be used together
-- and that serve every list of candidates, and how a choice grows and is recorded.
use rmc_spock.Base.{
  OnOk, All-at, All-right, inl, inr, ℕ, suc, ◌≤◌, ◌≡◌, refl, sym, subst, ◌∙◌, Bool, true, false,
  Option, some, List, [], ◌∷◌, ◌++◌, All, All-append, All-left, All-map, All-take_next, In, length,
  take, get_elem?, leb-false, length-append, take-length, sort_by, unique_by, Outcome, ok, threw,
  aborted, exhausted, arith, if◌then◌else◌,
}
use rmc_spock.Libraries.{Libraries}
use rmc_spock.Libraries.Laws.{SetLaws}
use rmc_spock.Pattern.{PackagePattern}
use rmc_spock.Package.{Package}
use rmc_spock.PackageLists.{Packages, PackageLists}
use rmc_spock.Solver.State.{Solver, SolverContext, pure, and_then, ◌>>=◌, lift, modify}
use rmc_spock.Solver.Search.{
  sort_by_string, same_string, selected, enough, record_solution, Level, employ, reset,
  initial_lists,
}
use rmc_spock.Solver.Relation.{IsConsistent, IsSound}
use rmc_spock.Solver.Tighten.{Keeps-Meets, KeptIn, MetIn, AppendPost}
use rmc_spock.Solver.Triple.{Fields, At}
use rmc_spock.Solver.Answers.{Suitable, AnswersAll, initial_lists-Answers}
use rmc_spock.Solver.Candidates.{FindsSound, Longer}

module _ ⦃lib : Libraries⦄ where
  -- A package of the list is met by one of the constraints.
  abbrev pub Served : Packages → Packages → Type 0
  Served cs l = (p : Package) × In p l × MetIn cs p

  -- Constraints that can be used together, that meet the packages in use and that serve the lists.
  pub record IsChoice (employed : Packages) (lists : PackageLists) (cs : Packages) : Type 0 where
    pub consistent : IsConsistent cs
    pub sound : All IsSound cs
    pub employed_met : All (MetIn cs) employed
    pub served : All (Served cs) lists

  pub MetIn-kept :
      (cs ds : Packages)
      → ((c : Package) → In c cs → KeptIn ds c)
      → (p : Package) → MetIn cs p
      → MetIn ds p
  MetIn-kept cs ds kept p (c, m, meets) =
      let (d, n, keep) = kept c m in (d, n, Keeps-Meets d c p keep meets)

  Served-kept :
      (cs ds : Packages)
      → ((c : Package) → In c cs → KeptIn ds c)
      → (l : Packages) → Served cs l
      → Served ds l
  Served-kept cs ds kept l (p, m, met) = (p, m, MetIn-kept cs ds kept p met)

  -- After a package was appended, the lists that were served still are, and so is its own.
  pub IsChoice-append :
      (e : Packages) (plists more : PackageLists) (n : ℕ) (l cs ds : Packages) (p : Package)
      → IsChoice e (take n plists) cs
      → get_elem? plists n ≡ some l
      → In p l
      → AppendPost cs p ds
      → IsChoice e (take (suc n) (plists ++ more)) ds
  IsChoice-append e plists more n l cs ds p h at m post = record {
    consistent = post.consistent;
    sound = post.sound;
    employed_met = All-map (λ q. MetIn-kept cs ds post.kept q) e h.employed_met;
    served =
        All-take_next (Served ds) plists more n l
          (All-map (λ k. Served-kept cs ds post.kept k) (take n plists) h.served) at
          (p, m, post.met);
  }

  module _ (ctx : SolverContext) (patterns : List PackagePattern) (origin : Solver) where
    -- What becomes of the packages in use at the beginning of `solve`.
    abbrev pub employed_first : Outcome (Option Packages) × Solver
    employed_first = employ ctx [] ctx.employed (reset ctx origin)

    -- The lists with which `solve` begins its search where it starts in the state `origin`: those that
    -- it makes for the constraints, and in the state, that the packages in use have led to.
    abbrev pub IsFirst : PackageLists → Type 0
    IsFirst lists =
        (constraints : Packages) × (employed_first.0 ≡ ok (some constraints))
        × ((initial_lists ctx constraints patterns employed_first.1).0 ≡ ok lists)

    -- One of the constraints meets a package that the context finds for the pattern.
    abbrev pub AnsweredBy : Packages → PackagePattern → Type 0
    AnsweredBy cs pattern = (q : Package) × Suitable ctx pattern q × MetIn cs q

    -- A solution is what `std::sort`, `std::unique` and the dependency lattice make of such
    -- constraints.
    abbrev pub IsSolution : Packages → Type 0
    IsSolution soln =
        (cs : Packages) × (lists : PackageLists) × (first : IsFirst lists) × IsChoice
          (ctx.employed ++ first.0) lists cs
        × All (AnsweredBy cs) patterns
        × (ctx.sort_by_dependency_lattice (unique_by same_string (sort_by sort_by_string cs))
            ≡ ok soln)

    -- No more solutions than wanted, each of them sound where they are full.
    abbrev pub Recorded : ℕ → Bool → Fields
    Recorded m f max full sols =
        (max ≡ m) × (full ≡ f) × (length sols ≤ m) × (f ≡ true → All IsSolution sols)

    module _ (laws : SetLaws lib.versions) (finds : FindsSound ctx) (m : ℕ) (f : Bool)
        (first : PackageLists) (is_first : IsFirst first) where
      abbrev pub Inv : Fields
      Inv = Recorded m f

      -- What the search knows where it has chosen from the first `n` lists.
      pub record IsPartial (cs : Packages) (plists : PackageLists) (n : ℕ) : Type 0 where
        pub choice : IsChoice (ctx.employed ++ is_first.0) (take n plists) cs
        pub extended : Longer first plists
        pub candidates : All (All IsSound) plists

      abbrev pub Grown : PackageLists → Level ctx → Type 0
      Grown plists level = Longer plists level.lists

      first-Answers : AnswersAll ctx is_first.0 patterns first
      first-Answers =
          subst (OnOk (AnswersAll ctx is_first.0 patterns)) is_first.2
            ((initial_lists-Answers ctx laws finds (λ max full sols. Unit {0}) is_first.0
                patterns).run
              (employed_first.1) tt).1

      -- Constraints that serve the lists and meet the constraints at the beginning answer the patterns.
      answered :
          (cs : Packages)
          → All (Served cs) first
          → All (MetIn cs) is_first.0
          → AnswersAll ctx is_first.0 patterns first
          → All (AnsweredBy cs) patterns
      answered cs served met (inl hole) =
          let (p, m, k) = All-at (Served cs) first [] served hole in absurd m
      answered cs served met (inr answers) =
          All-map
            (λ pattern answer. elim answer [
              | inl (l, m, suitable) ↦
                  let (p, in_l, k) = All-at (Served cs) first l served m in
                  (p, All-at (Suitable ctx pattern) l p suitable in_l, k)
              | inr (c, m, suitable) ↦ (c, suitable, All-at (MetIn cs) is_first.0 c met m)
            ])
            patterns answers

      IsSolution-full :
          (cs : Packages) (plists : PackageLists) (soln : Packages)
          → IsPartial cs plists (length plists)
          → ctx.sort_by_dependency_lattice (unique_by same_string (sort_by sort_by_string cs))
            ≡ ok soln
          → IsSolution soln
      IsSolution-full cs plists soln h e =
          let (more, longer, sound) = h.extended in
          let served : All (Served cs) first =
            All-left (Served cs) first more
              (subst (All (Served cs)) (take-length plists ∙ longer) h.choice.served) in
          (
            cs,
            first,
            is_first,
            record {
              consistent = h.choice.consistent;
              sound = h.choice.sound;
              employed_met = h.choice.employed_met;
              served = served;
            },
            answered cs served (All-right (MetIn cs) ctx.employed is_first.0 h.choice.employed_met)
                first-Answers,
            e,
          )

      abbrev add_solution : Packages → Solver → Solver
      add_solution sorted t = record t { solutions = t.solutions ++ (sorted ∷ []) }

      abbrev arrange : Packages → Outcome Packages
      arrange soln =
          ctx.sort_by_dependency_lattice (unique_by same_string (sort_by sort_by_string soln))

      add_solution-Inv :
          (sorted : Packages) (s : Solver)
          → (f ≡ true → IsSolution sorted)
          → At Inv s
          → enough s ≡ false
          → At Inv (add_solution sorted s)
      unfolding enough
      add_solution-Inv sorted s sol (a, b, c, d) e = (
        a,
        b,
        omega (
          arith,
          length-append s.solutions (sorted ∷ []),
          leb-false s.max_solutions (length s.solutions) e,
        ),
        λ full. All-append IsSolution s.solutions (sorted ∷ []) (d full) (sol full, tt),
      )

      arranged :
          (soln : Packages) (r : Outcome Packages) (s : Solver)
          → ((sorted : Packages) → r ≡ ok sorted → f ≡ true → IsSolution sorted)
          → At Inv s
          → enough s ≡ false
          → At Inv (and_then r (λ sorted. modify (add_solution sorted)) s).1
      arranged soln (ok sorted) s sol i e = add_solution-Inv sorted s (sol sorted refl) i e
      arranged soln (threw x) s sol i e = i
      arranged soln aborted s sol i e = i
      arranged soln exhausted s sol i e = i

      -- Where only the chosen packages are wanted, nothing is said of a solution.
      picked :
          (r : Outcome Packages) (s : Solver)
          → f ≡ false
          → At Inv s
          → enough s ≡ false
          → At Inv
              (and_then r
                (λ soln. lift (arrange soln) >>= λ sorted. modify (add_solution sorted))
                s).1
      picked (ok soln) s n i e =
          arranged soln (arrange soln) s (λ sorted q full. absurd (true_false (sym full ∙ n))) i e
        where
          true_false : true ≡ false → ⊥
          true_false e = cc
      picked (threw x) s n i e = i
      picked aborted s n i e = i
      picked exhausted s n i e = i

      recorded :
          (b : Bool) (cs : Packages) (plists : PackageLists) (indexes : List ℕ) (s : Solver)
          → f ≡ b
          → IsPartial cs plists (length plists)
          → At Inv s
          → enough s ≡ false
          → At Inv
              (((if b then pure cs else lift (selected plists indexes)) >>= λ soln.
                  lift (arrange soln) >>= λ sorted. modify (add_solution sorted))
                s).1
      recorded true cs plists indexes s b h i e =
          arranged cs (arrange cs) s (λ sorted q full. IsSolution-full cs plists sorted h q) i e
      recorded false cs plists indexes s b h i e = picked (selected plists indexes) s b i e

      -- The end of the lists keeps the invariant.
      pub record_solution_run :
          (cs : Packages) (plists : PackageLists) (indexes : List ℕ) (s : Solver)
          → IsPartial cs plists (length plists)
          → At Inv s
          → enough s ≡ false
          → At Inv (record_solution ctx cs plists indexes s).1
      unfolding record_solution
      record_solution_run cs plists indexes s h i e =
          recorded s.full_solutions cs plists indexes s (sym i.1) h i e
