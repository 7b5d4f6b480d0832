-- ===== src/Context/Ordered.antt =====
-- `sortByDependencyLattice` of src/Spock/Context.C puts a package behind those on which it depends.
use rmc_spock.Base.{
  ℕ, ◌≡◌, ◌<◌, refl, sym, ap, subst, ◌∙◌, Bool, true, false, not, Option, none, some, [], ◌∷◌, Text,
  In, All, All-In, All-zip, Perm, length, AllDistinct, all, sort_by, Falling, sort_by-Falling,
  sort_by-perm, All-sort_by, Outcome, ok, threw, aborted, exhausted, ◌>>=◌, ◌>>◌, assert, arith,
}
use rmc_spock.Libraries.{Libraries}
use rmc_spock.Libraries.Laws.{MapLaws}
use rmc_spock.Libraries.Graphs.{GraphOps, GraphLaws}
use rmc_spock.Package.{Package, to_string}
use rmc_spock.PackageLists.{Packages}
use rmc_spock.Context.Lattice.{
  lattice_of, dependency_lattice, heads_of, remove_heads, PackageOrder, is_ordered, place,
  sorts_before, sort_by_dependency_lattice,
}
use rmc_spock.Context.InEdges.{Edge}
use rmc_spock.Context.Heads.{heads_of-AreHeads}
use rmc_spock.Context.Removal.{PlaceOf, remove_heads-Placed}
use rmc_spock.Context.Covers.{DependsOn, lattice_of-Covers}

module _ ⦃lib : Libraries⦄ where
  -- No package depends on one that stands behind it.
  abbrev pub InDependencyOrder : Packages → Type 0
  InDependencyOrder [] = Unit {0}
  InDependencyOrder (pkg ∷ pkgs) = All (λ dep. ¬ DependsOn pkg dep) pkgs × InDependencyOrder pkgs

module _ ⦃lib : Libraries⦄ ⦃graphs : GraphOps⦄ where
  -- Where a lattice comes from.
  abbrev Origin : Packages → graphs.Carrier → Type 0
  Origin packages lattice =
      (raw : graphs.Carrier) × (lattice_of graphs.empty packages packages ≡ ok raw)
      × (graphs.contains_cycle raw ≡ false)
      × (lattice ≡ graphs.erase_parallel_edges raw)

  origin :
      (packages : Packages) (lattice : graphs.Carrier)
      → dependency_lattice packages ≡ ok lattice
      → Origin packages lattice
  unfolding dependency_lattice
  origin packages lattice e = of_raw (lattice_of graphs.empty packages packages) refl e
    where
      checked :
          (raw : graphs.Carrier) (b : Bool)
          → (do assert (not b); ok (graphs.erase_parallel_edges raw)) ≡ ok lattice
          → (b ≡ false) × (lattice ≡ graphs.erase_parallel_edges raw)
      checked raw true k = cc
      checked raw false k = (refl, cc)

      of_raw :
          (o : Outcome graphs.Carrier)
          → lattice_of graphs.empty packages packages ≡ o
          → (do
            raw ← o
            assert (not (graphs.contains_cycle raw))
            ok (graphs.erase_parallel_edges raw))
            ≡ ok lattice
          → Origin packages lattice
      of_raw (ok raw) q k =
          let (h, same) = checked raw (graphs.contains_cycle raw) k in (raw, q, h, same)
      of_raw (threw x) q k = cc
      of_raw aborted q k = cc
      of_raw exhausted q k = cc

  all_hold : (p : Package → Bool) (pkgs : Packages) → All (λ x. p x ≡ true) pkgs → all p pkgs ≡ true
  all_hold p [] h = refl
  all_hold p (x ∷ pkgs) h = ground (arith, h.0, all_hold p pkgs h.1)

  -- With places that rise along the edges, packages in the falling order of their places are in the
  -- order of their dependencies.
  Falling-InDependencyOrder :
      (order : PackageOrder) (packages : Packages)
      → ((pkg dep : Package)
          → In pkg packages
          → In dep packages
          → DependsOn pkg dep
          → place order (to_string pkg) < place order (to_string dep))
      → (sorted : Packages) → All (λ pkg. In pkg packages) sorted
      → Falling (λ pkg. place order (to_string pkg)) sorted
      → InDependencyOrder sorted
  Falling-InDependencyOrder order packages rises [] known h = tt
  Falling-InDependencyOrder order packages rises (pkg ∷ sorted) (m, known) (below, h) = (
    All-zip (λ dep le n d. (let lt = rises pkg dep m n d in absurd (omega arith))) sorted below
        known,
    Falling-InDependencyOrder order packages rises sorted known h,
  )

  module _ (laws : GraphLaws graphs) (map_laws : MapLaws (lib.maps ℕ)) where
    place_lem : (order : PackageOrder) (v : Text) (i : ℕ) → PlaceOf order v i → place order v ≡ i
    place_lem order v i e = ap (λ (o : Option ℕ). elim o [ none ↦ 0 | some i ↦ i ]) e

    sort_placed :
        (packages : Packages) (lattice : graphs.Carrier) (r : graphs.Carrier × PackageOrder)
        → dependency_lattice packages ≡ ok lattice
        → remove_heads
            (length (graphs.vertices lattice))
            lattice
            (heads_of lattice)
            (lib.maps ℕ).empty
          ≡ ok r
        → graphs.is_empty r.0 ≡ true
        → all (λ pkg. is_ordered r.1 (to_string pkg)) packages ≡ true
        → sort_by_dependency_lattice packages ≡ ok (sort_by (sorts_before r.1) packages)
    unfolding sort_by_dependency_lattice
    sort_placed packages lattice r e k empty_now placed =
        ap
          (λ (o : Outcome graphs.Carrier). o >>= λ l.
            remove_heads (length (graphs.vertices l)) l (heads_of l) (lib.maps ℕ).empty >>= λ q.
            assert (graphs.is_empty q.0)
            >> (assert (all (λ pkg. is_ordered q.1 (to_string pkg)) packages)
                >> ok (sort_by (sorts_before q.1) packages)))
          e
        ∙ (ap
              (λ (o : Outcome (graphs.Carrier × PackageOrder)). o >>= λ q.
                assert (graphs.is_empty q.0)
                >> (assert (all (λ pkg. is_ordered q.1 (to_string pkg)) packages)
                    >> ok (sort_by (sorts_before q.1) packages)))
              k
            ∙ (ap
                  (λ b.
                    assert b
                    >> (assert (all (λ pkg. is_ordered r.1 (to_string pkg)) packages)
                        >> ok (sort_by (sorts_before r.1) packages)))
                  empty_now
                ∙ ap (λ b. assert b >> ok (sort_by (sorts_before r.1) packages)) placed))

    -- If the lattice of the packages can be made, because their dependency patterns can be read and no
    -- dependencies among them form a cycle, then `sortByDependencyLattice` ends without a failed assertion,
    -- and it puts the packages in an order in which no package depends on one that stands behind it.
    pub sort_by_dependency_lattice-InDependencyOrder :
        (packages : Packages) (lattice : graphs.Carrier)
        → dependency_lattice packages ≡ ok lattice
        → (sorted : Packages) × (sort_by_dependency_lattice packages ≡ ok sorted)
          × Perm sorted packages
          × InDependencyOrder sorted
    sort_by_dependency_lattice-InDependencyOrder packages lattice e =
        let (raw, made, acyclic, same) = origin packages lattice e in
        let covers = (lattice_of-Covers laws graphs.empty raw packages packages made).1 in
        let (rank, falls) = laws.contains_cycle_sound raw acyclic in
        let to_raw : (s t : Text) → Edge lattice s t → Edge raw s t =
          λ s t m. (laws.edges-erase_parallel raw (s, t)).0 (subst (λ l. Edge l s t) same m) in
        let from_raw : (s t : Text) → Edge raw s t → Edge lattice s t = λ s t m.
          subst (λ l. Edge l s t) (sym same) ((laws.edges-erase_parallel raw (s, t)).1 m) in
        let (r, removed, placed) =
          remove_heads-Placed laws map_laws (length (graphs.vertices lattice)) lattice
            (heads_of lattice) (lib.maps ℕ).empty rank (omega arith)
            (subst (λ l. AllDistinct (graphs.edges l)) (sym same) (laws.edges-AllDistinct raw))
            (λ s t m. falls s t (to_raw s t m)) (heads_of-AreHeads laws lattice)
            (λ v m. map_laws.get-empty v) in
        let ordered : all (λ pkg. is_ordered r.1 (to_string pkg)) packages ≡ true =
          all_hold (λ pkg. is_ordered r.1 (to_string pkg)) packages
            (All-In (λ pkg. is_ordered r.1 (to_string pkg) ≡ true) packages
              (λ pkg m.
                let vertex =
                  subst (λ l. In (to_string pkg) (graphs.vertices l)) (sym same)
                    (subst (In (to_string pkg)) (sym (laws.vertices-erase_parallel raw))
                      (covers.covered pkg m)) in
                let (i, k, le) = placed.placed (to_string pkg) vertex in
                ap (λ (o : Option ℕ). elim o [ none ↦ false | some i ↦ true ]) k)) in
        let key : Package → ℕ = λ pkg. place r.1 (to_string pkg) in
        (
          sort_by (sorts_before r.1) packages,
          sort_placed packages lattice r e removed (laws.is_empty-vertices r.0 placed.emptied)
              ordered,
          sort_by-perm (sorts_before r.1) packages,
          Falling-InDependencyOrder r.1 packages
              (λ pkg dep m n d.
                let (i, j, at_i, at_j, lt) =
                  placed.ordered (to_string pkg) (to_string dep)
                    (from_raw (to_string pkg) (to_string dep) (covers.depending pkg dep m n d)) in
                let first = place_lem r.1 (to_string pkg) i at_i in
                let second = place_lem r.1 (to_string dep) j at_j in omega arith)
              (sort_by (sorts_before r.1) packages)
              (All-sort_by (λ pkg. In pkg packages) (sorts_before r.1) packages
                (All-In (λ pkg. In pkg packages) packages (λ pkg m. m)))
              (sort_by-Falling key packages),
        )
