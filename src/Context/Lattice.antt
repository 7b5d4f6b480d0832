-- ===== src/Context/Lattice.antt =====
-- `dependencyLattice` and `sortByDependencyLattice` of src/Spock/Context.C.
use rmc_spock.Base.{
  ℕ, zero, suc, Bool, true, false, not, none, some, List, [], ◌∷◌, Text, all, length, ltb, ◌==◌,
  keep, sort_by, Outcome, ok, exhausted, ◌>>=◌, ◌>>◌, assert, if◌then◌else◌,
}
use rmc_spock.Libraries.{Libraries}
use rmc_spock.Libraries.Graphs.{GraphOps}
use rmc_spock.Pattern.{PackagePattern}
use rmc_spock.Package.{Package, to_string, dependency_patterns}
use rmc_spock.Package.Match.{matches}
use rmc_spock.PackageLists.{Packages}

module _ ⦃lib : Libraries⦄ ⦃graphs : GraphOps⦄ where
  -- The loop over the packages for one pattern of `pkg`.
  unfoldable pub match_edges : graphs.Carrier → Package → PackagePattern → Packages → graphs.Carrier
  match_edges lattice pkg pattern [] = lattice
  match_edges lattice pkg pattern (dep ∷ deps) =
      match_edges
        (if matches pattern dep
          then graphs.insert_edge_with_vertices lattice (to_string pkg) (to_string dep)
          else lattice)
        pkg pattern deps

  -- The loop over the patterns of `pkg`.
  unfoldable pub pattern_edges :
      graphs.Carrier → Package → Packages → List PackagePattern → graphs.Carrier
  unfolding match_edges
  pattern_edges lattice pkg packages [] = lattice
  pattern_edges lattice pkg packages (pattern ∷ patterns) =
      pattern_edges (match_edges lattice pkg pattern packages) pkg packages patterns

  -- The loop over the packages, of which `todo` are left.
  unfoldable pub lattice_of : graphs.Carrier → Packages → Packages → Outcome graphs.Carrier
  unfolding pattern_edges
  lattice_of lattice packages [] = ok lattice
  lattice_of lattice packages (pkg ∷ todo) = do
    patterns ← dependency_patterns pkg
    lattice_of
        (pattern_edges (graphs.insert_vertex_maybe lattice (to_string pkg)) pkg packages patterns)
        packages todo

  unfoldable pub dependency_lattice : Packages → Outcome graphs.Carrier
  unfolding lattice_of
  dependency_lattice packages = do
    lattice ← lattice_of graphs.empty packages packages
    assert (not (graphs.contains_cycle lattice))
    ok (graphs.erase_parallel_edges lattice)

  -- The vertices that have no predecessors.
  unfoldable pub heads_of : graphs.Carrier → List Text
  heads_of lattice = keep (λ v. graphs.n_in_edges lattice v == 0) (graphs.vertices lattice)

  -- The loop over the edges that leave a head.
  unfoldable pub push_targets : graphs.Carrier → List Text → List Text → List Text
  push_targets lattice heads [] = heads
  push_targets lattice heads (target ∷ targets) =
      push_targets lattice (if graphs.n_in_edges lattice target == 1 then target ∷ heads else heads)
        targets

  abbrev pub PackageOrder : Type 0
  PackageOrder = (lib.maps ℕ).Carrier

  abbrev pub is_ordered : PackageOrder → Text → Bool
  is_ordered order v = elim ((lib.maps ℕ).get order v) [ none ↦ false | some i ↦ true ]

  -- The loop that removes heads. The first argument bounds the rounds.
  unfoldable pub remove_heads :
      ℕ → graphs.Carrier → List Text → PackageOrder → Outcome (graphs.Carrier × PackageOrder)
  unfolding push_targets
  remove_heads f lattice [] order = ok (lattice, order)
  remove_heads zero lattice (head ∷ heads) order = exhausted
  remove_heads (suc f) lattice (head ∷ heads) order = do
    assert (not (is_ordered order head))
    remove_heads f (graphs.erase_vertex lattice head)
        (push_targets lattice heads (graphs.out_edges lattice head))
        ((lib.maps ℕ).insert order head ((lib.maps ℕ).size order))

  -- `packageOrder[text]`, which fails where there is none; `sort_by_dependency_lattice` tests this first.
  abbrev pub place : PackageOrder → Text → ℕ
  place order text = elim ((lib.maps ℕ).get order text) [ none ↦ 0 | some i ↦ i ]

  -- `SortByDependencyLattice`.
  abbrev pub sorts_before : PackageOrder → Package → Package → Bool
  sorts_before order a b = ltb (place order (to_string b)) (place order (to_string a))

  unfoldable pub sort_by_dependency_lattice : Packages → Outcome Packages
  unfolding dependency_lattice heads_of remove_heads
  sort_by_dependency_lattice packages = do
    lattice ← dependency_lattice packages
    r ←
        remove_heads (length (graphs.vertices lattice)) lattice (heads_of lattice)
          (lib.maps ℕ).empty
    assert (graphs.is_empty r.0)
    assert (all (λ pkg. is_ordered r.1 (to_string pkg)) packages)
    ok (sort_by (sorts_before r.1) packages)
