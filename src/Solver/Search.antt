-- ===== src/Solver/Search.antt =====
-- The two `solve` functions of src/Spock/Solver.C.
use rmc_spock.Base.{
  ℕ, zero, suc, Bool, true, false, Option, none, some, List, [], ◌∷◌, ◌++◌, codes, text_eq, text_lt,
  is_empty, length, take, get_elem?, leb, ◌==◌, sort_by, unique_by, Outcome, ok, aborted, exhausted,
  assert, if◌then◌else◌,
}
use rmc_spock.Libraries.{Libraries}
use rmc_spock.Pattern
use rmc_spock.Pattern.{PackagePattern}
use rmc_spock.Package.{Package, to_string, dependency_patterns}
use rmc_spock.PackageLists.{Packages, PackageLists, nth_list, is_any_list_empty, resize}
use rmc_spock.Solver.State.{Solver, SolverContext, M, pure, ◌>>=◌, ◌>>◌, lift, get, modify}
use rmc_spock.Solver.Constraint.{append_constraint}
use rmc_spock.Solver.Extend.{extend_lists}

module _ ⦃lib : Libraries⦄ where
  unfoldable pub sort_by_string : Package → Package → Bool
  sort_by_string a b = text_lt (to_string a) (to_string b)

  unfoldable pub same_string : Package → Package → Bool
  same_string a b = text_eq (to_string a) (to_string b)

  -- The packages that the indexes select, from the first list.
  unfoldable pub selected : PackageLists → List ℕ → Outcome Packages
  selected lists [] = ok []
  selected [] (i ∷ is) = aborted
  selected (l ∷ lists) (i ∷ is) =
      let rest = selected lists is in
      elim (get_elem? l i) [
        | none ↦ aborted
        | some p ↦ elim rest [ ok ps ↦ ok (p ∷ ps) | _ ↦ aborted ]
      ]

  -- Whether as many solutions as wanted are recorded.
  unfoldable pub enough : Solver → Bool
  enough s = leb s.max_solutions (length s.solutions)

  module _ (ctx : SolverContext) where
    -- The end of the lists: one more solution.
    unfoldable pub record_solution : Packages → PackageLists → List ℕ → M (Unit {0})
    unfolding selected sort_by_string same_string
    record_solution constraints plists indexes = do
      s ← get
      soln ← if s.full_solutions then pure constraints else lift (selected plists indexes)
      sorted ←
          lift
            (ctx.sort_by_dependency_lattice (unique_by same_string (sort_by sort_by_string soln)))
      modify (λ t. record t { solutions = t.solutions ++ (sorted ∷ []) })

    -- What a level leaves behind: whether it stops at once, the lists and the indexes.
    pub record Level : Type 0 where
      pub stop : Bool
      pub lists : PackageLists
      pub indexes : List ℕ

    -- The lists with those of the dependencies, if they are needed.
    unfoldable pub with_dependencies : Packages → Package → Bool → PackageLists → M PackageLists
    with_dependencies constraints trying need plists = elim need [
      | true ↦ (do
        patterns ← lift (dependency_patterns trying)
        extend_lists ctx constraints plists patterns)
      | false ↦ pure plists
    ]

    -- The attempt to extend the partial solution with one package, where `again` is the recursive
    -- call.
    unfoldable pub attempt :
        (Packages → PackageLists → List ℕ → M Level)
        → Packages
        → Package
        → PackageLists
        → List ℕ
        → M Level
    unfolding enough with_dependencies
    attempt again constraints trying plists indexes = do
      r ← append_constraint constraints trying
      elim (is_empty r.0) [
        | true ↦ pure (record { stop = false; lists = plists; indexes = indexes })
        | false ↦ (do
          longer ← with_dependencies r.0 trying r.1 plists
          elim (is_any_list_empty longer) [
            | true ↦ pure (record { stop = false; lists = longer; indexes = indexes })
            | false ↦ (do
              level ← again r.0 longer indexes
              s ← get
              pure (record level { stop = enough s }))
          ])
      ]

    -- The loop over the packages of list `n`, from package `i`. The lists before `size` are the same
    -- in each round, so the packages of list `n` are those that it had at the beginning.
    unfoldable pub try_each :
        (Packages → PackageLists → List ℕ → M Level)
        → Packages
        → (n size i : ℕ) → Packages
        → PackageLists
        → List ℕ
        → M Level
    unfolding attempt
    try_each again constraints n size i [] plists indexes =
        pure (record { stop = false; lists = plists; indexes = indexes })
    try_each again constraints n size i (trying ∷ more) plists indexes = do
      level ← attempt again constraints trying plists (indexes ++ (i ∷ []))
      elim level.stop [
        | true ↦ pure level
        | false ↦ (do
          lists ← lift (resize level.lists size)
          lift (assert (leb n (length level.indexes)))
          try_each again constraints n size (suc i) more lists (take n level.indexes))
      ]

    -- The internal solver. The first argument bounds the depth of the recursion.
    unfoldable pub solve_within : ℕ → Packages → PackageLists → List ℕ → M Level
    unfolding enough try_each record_solution
    solve_within zero constraints plists indexes = lift exhausted
    solve_within (suc f) constraints plists indexes = do
      lift (assert (leb (length indexes) (length plists)))
      modify (λ s. record s { n_steps = suc s.n_steps })
      s ← get
      elim (enough s) [
        | true ↦ pure (record { stop = false; lists = plists; indexes = indexes })
        | false ↦ elim (length indexes == length plists) [
          | true ↦ (do
            record_solution constraints plists indexes
            pure (record { stop = false; lists = plists; indexes = indexes }))
          | false ↦ (do
            packages ← lift (nth_list plists (length indexes))
            try_each (solve_within f) constraints (length indexes) (length plists) 0 packages plists
                indexes)
        ]
      ]

    -- The packages in use, as constraints; `none` if they are not compatible.
    unfoldable pub employ : Packages → Packages → M (Option Packages)
    employ constraints [] = pure (some constraints)
    employ constraints (p ∷ ps) = do
      r ← append_constraint constraints p
      elim (is_empty r.0) [ true ↦ pure none | false ↦ employ r.0 ps ]

    unfoldable pub reset : Solver → Solver
    reset s = record s {
      solutions = [];
      messages = lib.texts.empty;
      latest_message = [];
      n_steps = 0;
    }

    -- The lists of the code generators, if one is installed, and of the patterns.
    unfoldable pub initial_lists : Packages → List PackagePattern → M PackageLists
    initial_lists constraints patterns = do
      code_generation ← lift (Pattern.parse (codes "code-generation"))
      generators ← lift (ctx.find_installed code_generation)
      plists ←
          if is_empty generators
          then pure []
          else extend_lists ctx constraints [] (code_generation ∷ [])
      extend_lists ctx constraints plists patterns

    -- The public `solve`, on fuel, with the number of solutions.
    unfoldable pub solve : ℕ → List PackagePattern → M ℕ
    unfolding employ reset initial_lists solve_within
    solve fuel patterns = do
      modify reset
      employed ← employ [] ctx.employed
      elim employed [
        | none ↦ pure 0
        | some constraints ↦ (do
          plists ← initial_lists constraints patterns
          elim (is_any_list_empty plists) [
            | true ↦ pure 0
            | false ↦ (do
              level ← solve_within fuel constraints plists []
              s ← get
              pure (length s.solutions))
          ])
      ]
