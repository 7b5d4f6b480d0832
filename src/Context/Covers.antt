-- ===== src/Context/Covers.antt =====
-- The lattice that `dependencyLattice` of src/Spock/Context.C makes has an edge for each dependency.
use rmc_spock.Base.{
  ◌≡◌, refl, sym, ap, subst, ◌∙◌, inl, inr, Bool, true, false, List, [], ◌∷◌, Text, In,
  if◌then◌else◌, Outcome, ok, threw, aborted, exhausted, ◌>>=◌,
}
use rmc_spock.Libraries.{Libraries}
use rmc_spock.Libraries.Graphs.{GraphOps, GraphLaws}
use rmc_spock.Pattern.{PackagePattern}
use rmc_spock.Package.{Package, to_string, dependency_patterns}
use rmc_spock.Package.Match.{matches}
use rmc_spock.PackageLists.{Packages}
use rmc_spock.Context.Lattice.{match_edges, pattern_edges, lattice_of}
use rmc_spock.Context.InEdges.{Edge}

module _ ⦃lib : Libraries⦄ where
  -- One of the package's dependency patterns matches the other package.
  abbrev pub DependsOn : Package → Package → Type 0
  DependsOn pkg dep =
      (patterns : List PackagePattern) × (pattern : PackagePattern) × (dependency_patterns pkg
        ≡ ok patterns)
      × In pattern patterns
      × (matches pattern dep ≡ true)

module _ ⦃lib : Libraries⦄ ⦃graphs : GraphOps⦄ where
  pub record Extends (from to : graphs.Carrier) : Type 0 where
    pub vertices_kept : (u : Text) → In u (graphs.vertices from) → In u (graphs.vertices to)
    pub edges_kept : (s t : Text) → Edge from s t → Edge to s t

  Extends-refl : (g : graphs.Carrier) → Extends g g
  Extends-refl g = record { vertices_kept = λ u m. m; edges_kept = λ s t m. m }

  Extends-trans : (g h k : graphs.Carrier) → Extends g h → Extends h k → Extends g k
  Extends-trans g h k a b = record {
    vertices_kept = λ u m. b.vertices_kept u (a.vertices_kept u m);
    edges_kept = λ s t m. b.edges_kept s t (a.edges_kept s t m);
  }

  module _ (laws : GraphLaws graphs) where
    edge-Extends :
        (b : Bool) (g : graphs.Carrier) (s t : Text)
        → Extends g (if b then graphs.insert_edge_with_vertices g s t else g)
    edge-Extends true g s t = record {
      vertices_kept = laws.vertex-insert_edge_kept g s t;
      edges_kept = λ a b m. laws.edge-insert_edge_kept g s t (a, b) m;
    }
    edge-Extends false g s t = Extends-refl g

    vertex-Extends : (g : graphs.Carrier) (s : Text) → Extends g (graphs.insert_vertex_maybe g s)
    vertex-Extends g s = record {
      vertices_kept = laws.vertex-insert_vertex_kept g s;
      edges_kept = λ a b m. laws.edge-insert_vertex_kept g s (a, b) m;
    }

    -- The edges for one pattern.
    match_edges-Extends :
        (g : graphs.Carrier) (pkg : Package) (pattern : PackagePattern) (deps : Packages)
        → Extends g (match_edges g pkg pattern deps)
          × ((dep : Package)
              → In dep deps
              → matches pattern dep ≡ true
              → Edge (match_edges g pkg pattern deps) (to_string pkg) (to_string dep))
    unfolding match_edges
    match_edges-Extends g pkg pattern [] = (Extends-refl g, λ dep m. absurd m)
    match_edges-Extends g pkg pattern (d ∷ deps) =
        let edged = λ (b : Bool).
          if b then graphs.insert_edge_with_vertices g (to_string pkg) (to_string d) else g in
        let next = edged (matches pattern d) in
        let (grows, found) = match_edges-Extends next pkg pattern deps in
        (
          Extends-trans g next (match_edges next pkg pattern deps)
              (edge-Extends (matches pattern d) g (to_string pkg) (to_string d)) grows,
          λ dep m e. elim m [
            | inl same ↦ grows.edges_kept (to_string pkg) (to_string dep) (
                subst (λ x. Edge next (to_string pkg) (to_string x)) (sym same)
                  (subst (λ b. Edge (edged b) (to_string pkg) (to_string d))
                    (sym (ap (matches pattern) (sym same) ∙ e))
                    (laws.edge-insert_edge g (to_string pkg) (to_string d))))
            | inr later ↦ found dep later e
          ],
        )

    -- The edges of one package.
    pattern_edges-Extends :
        (g : graphs.Carrier) (pkg : Package) (packages : Packages) (patterns : List PackagePattern)
        → Extends g (pattern_edges g pkg packages patterns)
          × ((pattern : PackagePattern) (dep : Package)
              → In pattern patterns
              → In dep packages
              → matches pattern dep ≡ true
              → Edge (pattern_edges g pkg packages patterns) (to_string pkg) (to_string dep))
    unfolding pattern_edges
    pattern_edges-Extends g pkg packages [] = (Extends-refl g, λ pattern dep m. absurd m)
    pattern_edges-Extends g pkg packages (p ∷ patterns) =
        let next = match_edges g pkg p packages in
        let (grows, found) = match_edges-Extends g pkg p packages in
        let (grows_more, found_more) = pattern_edges-Extends next pkg packages patterns in
        (
          Extends-trans g next (pattern_edges next pkg packages patterns) grows grows_more,
          λ pattern dep m n e. elim m [
            | inl same ↦
                grows_more.edges_kept (to_string pkg) (to_string dep)
                  (found dep n (ap (λ x. matches x dep) (sym same) ∙ e))
            | inr later ↦ found_more pattern dep later n e
          ],
        )

    -- The lattice holds what is left to do: the packages as vertices, and their dependencies as edges.
    pub record Covers (packages todo : Packages) (lattice : graphs.Carrier) : Type 0 where
      pub covered : (pkg : Package) → In pkg todo → In (to_string pkg) (graphs.vertices lattice)
      pub depending :
          (pkg dep : Package)
          → In pkg todo
          → In dep packages
          → DependsOn pkg dep
          → Edge lattice (to_string pkg) (to_string dep)

    pub lattice_of-Covers :
        (g lattice : graphs.Carrier) (packages todo : Packages)
        → lattice_of g packages todo ≡ ok lattice
        → Extends g lattice × Covers packages todo lattice
    unfolding lattice_of
    lattice_of-Covers g lattice packages [] e = (
      subst (Extends g) (ok-inj g lattice e) (Extends-refl g),
      record { covered = λ pkg m. absurd m; depending = λ pkg dep m. absurd m },
    )
      where
        ok-inj : (a b : graphs.Carrier) → ok a ≡ ok b → a ≡ b
        ok-inj a b q = cc
    lattice_of-Covers g lattice packages (p ∷ todo) e =
        go (dependency_patterns p) refl
          (λ patterns.
            lattice_of-Covers
              (pattern_edges (graphs.insert_vertex_maybe g (to_string p)) p packages patterns)
              lattice packages todo)
          e
      where
        same_patterns :
            (o : Outcome (List PackagePattern)) (a b : List PackagePattern)
            → o ≡ ok a
            → o ≡ ok b
            → b ≡ a
        same_patterns o a b h k = cc

        go :
            (o : Outcome (List PackagePattern))
            → dependency_patterns p ≡ o
            → ((patterns : List PackagePattern)
                → lattice_of
                    (pattern_edges (graphs.insert_vertex_maybe g (to_string p)) p packages patterns)
                    packages
                    todo
                  ≡ ok lattice
                → Extends
                    (pattern_edges (graphs.insert_vertex_maybe g (to_string p)) p packages patterns)
                    lattice
                  × Covers packages todo lattice)
            → (do
              patterns ← o
              lattice_of
                  (pattern_edges (graphs.insert_vertex_maybe g (to_string p)) p packages patterns)
                  packages
                  todo)
              ≡ ok lattice
            → Extends g lattice × Covers packages (p ∷ todo) lattice
        go (ok patterns) q rest k =
            let with_vertex = graphs.insert_vertex_maybe g (to_string p) in
            let with_edges = pattern_edges with_vertex p packages patterns in
            let (grows, found) = pattern_edges-Extends with_vertex p packages patterns in
            let (later, covers) = rest patterns k in
            let up = Extends-trans with_vertex with_edges lattice grows later in
            (
              Extends-trans g with_vertex lattice (vertex-Extends g (to_string p)) up,
              record {
                covered = λ pkg m. elim m [
                  | inl same ↦ up.vertices_kept (to_string pkg) (
                      subst (λ x. In (to_string x) (graphs.vertices with_vertex)) (sym same)
                        (laws.vertex-insert_vertex g (to_string p)))
                  | inr other ↦ covers.covered pkg other
                ];
                depending = λ pkg dep m n d. elim m [
                  | inl same ↦
                      (let (patterns', pattern, r, w, x) = d in
                        let listed =
                          subst (In pattern)
                            (same_patterns (dependency_patterns p) patterns patterns' q
                              (ap dependency_patterns (sym same) ∙ r))
                            w in
                        later.edges_kept (to_string pkg) (to_string dep) (
                          subst (λ y. Edge with_edges (to_string y) (to_string dep)) (sym same)
                            (found pattern dep listed n x)))
                  | inr other ↦ covers.depending pkg dep other n d
                ];
              },
            )
        go (threw x) q rest k = cc
        go aborted q rest k = cc
        go exhausted q rest k = cc
