-- ===== src/Libraries/ListGraphLaws.antt =====
-- The graphs of ListGraphs meet the laws of graphs.
use rmc_spock.Base.{
  ℕ, ◌<◌, ◌≡◌, ◌≢◌, refl, sym, ap, subst, ◌∙◌, ◌↔◌, inl, inr, Bool, true, false, not, List, map, [],
  ◌∷◌, Text, text_eq, text_eq_refl, text_eq_sound, In, all, keep, In-keep, keep-In,
  keep-AllDistinct, length, AllDistinct, ltb→lt, if_cases, arith,
}
use rmc_spock.Libraries.Graphs.{GraphLaws}
use rmc_spock.Libraries.ListGraphs.{
  ListGraph, list_graphs, dedupe, dedupe-AllDistinct, In-dedupe, dedupe-In, length-dedupe,
  length-keep_lt, any-In, In-any, text_ne, ne_text, pair_eq, pair_eq_iff, text_iff, ends_in, apart,
  vertices_of, edges_of, level_of, falls,
}

-- The ends of an edge are vertices.
ends-In : (nodes : List Text) (s t : Text) → ends_in nodes (s, t) ≡ true → In s nodes × In t nodes
ends-In nodes s t h = (In-any nodes s (ground arith), In-any nodes t (ground arith))

In-ends : (nodes : List Text) (s t : Text) → In s nodes → In t nodes → ends_in nodes (s, t) ≡ true
In-ends nodes s t m n = ground (arith, any-In nodes s m, any-In nodes t n)

edge_ends_lem : (g : ListGraph) (s t : Text) → In (s, t) (edges_of g) → In s g.nodes × In t g.nodes
edge_ends_lem g s t m = ends-In g.nodes s t (keep-In (ends_in g.nodes) g.arcs (s, t) m).1

-- More nodes and more arcs keep an edge.
edge_kept :
    (g h : ListGraph)
    → ((u : Text) → In u g.nodes → In u h.nodes)
    → ((e : Text × Text) → In e g.arcs → In e h.arcs)
    → (e : Text × Text) → In e (edges_of g)
    → In e (edges_of h)
edge_kept g h more_nodes more_arcs (s, t) m =
    let (arc, ends) = keep-In (ends_in g.nodes) g.arcs (s, t) m in
    let (a, b) = ends-In g.nodes s t ends in
    In-keep (ends_in h.nodes) h.arcs (s, t) (more_arcs (s, t) arc)
      (In-ends h.nodes s t (more_nodes s a) (more_nodes t b))

erased : ListGraph → Text → ListGraph
erased g s = record {
  nodes = keep (λ u. not (text_eq u s)) (vertices_of g);
  arcs = keep (apart s) (edges_of g);
}

vertices-erased :
    (g : ListGraph) (s u : Text)
    → In u (vertices_of (erased g s)) ↔ (In u (vertices_of g) × (u ≢ s))
unfolding erased
vertices-erased g s u = (
  λ m.
      let (k, h) =
        keep-In (λ u. not (text_eq u s)) (vertices_of g) u
          (dedupe-In text_eq text_iff (keep (λ u. not (text_eq u s)) (vertices_of g)) u m) in
      (k, ne_text u s (ground arith)),
  λ r.
      In-dedupe text_eq text_iff (keep (λ u. not (text_eq u s)) (vertices_of g)) u
        (In-keep (λ u. not (text_eq u s)) (vertices_of g) u r.0 (ap not (text_ne u s r.1))),
)

node-erased : (g : ListGraph) (s u : Text) → In u (erased g s).nodes ↔ (In u g.nodes × (u ≢ s))
unfolding erased
node-erased g s u = (
  λ m.
      let (k, h) = keep-In (λ u. not (text_eq u s)) (vertices_of g) u m in
      (dedupe-In text_eq text_iff g.nodes u k, ne_text u s (ground arith)),
  λ r.
      In-keep (λ u. not (text_eq u s)) (vertices_of g) u (In-dedupe text_eq text_iff g.nodes u r.0)
        (ap not (text_ne u s r.1)),
)

edges-erased :
    (g : ListGraph) (s a b : Text)
    → In (a, b) (edges_of (erased g s)) ↔ (In (a, b) (edges_of g) × (a ≢ s) × (b ≢ s))
unfolding erased
edges-erased g s a b = (
  λ m.
      let (k, h) = keep-In (ends_in (erased g s).nodes) (erased g s).arcs (a, b) m in
      let (n, far) = keep-In (apart s) (edges_of g) (a, b) k in
      (n, ne_text a s (ground arith), ne_text b s (ground arith)),
  λ r.
      let (na, nb) = edge_ends_lem g a b r.0 in
      In-keep (ends_in (erased g s).nodes) (erased g s).arcs (a, b)
        (In-keep (apart s) (edges_of g) (a, b) r.0
          (ground (arith, text_ne a s r.1, text_ne b s r.2)))
        (In-ends (erased g s).nodes a b ((node-erased g s a).1 (na, r.1))
          ((node-erased g s b).1 (nb, r.2))),
)

fewer-erased :
    (g : ListGraph) (s : Text)
    → In s (vertices_of g)
    → length (vertices_of (erased g s)) < length (vertices_of g)
unfolding erased
fewer-erased g s m = omega (
  arith,
  length-dedupe text_eq text_iff (keep (λ u. not (text_eq u s)) (vertices_of g)),
  length-keep_lt (λ u. not (text_eq u s)) (vertices_of g) s m (ap not (text_eq_refl s)),
)

-- The targets of the edges that leave a vertex.
targets-In :
    (s : Text) (es : List (Text × Text)) (t : Text)
    → In t (map (λ e. e.1) (keep (λ e. text_eq e.0 s) es)) ↔ In (s, t) es
targets-In s [] t = (λ m. m, λ m. m)
targets-In s ((a, b) ∷ es) t =
    let (to, from) = targets-In s es t in
    if_cases (λ l. In t (map (λ e. e.1) l) ↔ In (s, t) ((a, b) ∷ es)) (text_eq a s)
      ((a, b) ∷ keep (λ e. text_eq e.0 s) es) (keep (λ e. text_eq e.0 s) es)
      (λ h. (
        λ m. elim m [
          | inl same ↦ inl (let same_source = text_eq_sound a s h in cc)
          | inr k ↦ inr (to k)
        ],
        λ m. elim m [ inl same ↦ inl (ap (λ (e : Text × Text). e.1) same) | inr k ↦ inr (from k) ],
      ))
      (λ h. (
        λ m. inr (to m),
        λ m. elim m [
          | inl same ↦ absurd (ne_text a s h (sym (ap (λ (e : Text × Text). e.0) same)))
          | inr k ↦ from k
        ],
      ))

targets-AllDistinct :
    (s : Text) (es : List (Text × Text))
    → AllDistinct es
    → AllDistinct (map (λ e. e.1) (keep (λ e. text_eq e.0 s) es))
targets-AllDistinct s [] d = tt
targets-AllDistinct s ((a, b) ∷ es) (fresh, d) =
    if_cases (λ l. AllDistinct (map (λ e. e.1) l)) (text_eq a s)
      ((a, b) ∷ keep (λ e. text_eq e.0 s) es) (keep (λ e. text_eq e.0 s) es)
      (λ h. (
        λ m.
            fresh (subst (λ x. In (x, b) es) (sym (text_eq_sound a s h)) ((targets-In s es b).0 m)),
        targets-AllDistinct s es d,
      ))
      (λ _. targets-AllDistinct s es d)

all-In :
    (p : Text × Text → Bool) (es : List (Text × Text)) (e : Text × Text)
    → all p es ≡ true
    → In e es
    → p e ≡ true
all-In p [] e h m = absurd m
all-In p (x ∷ es) e h (inl same) = ap p same ∙ ground arith
all-In p (x ∷ es) e h (inr m) = all-In p es e (ground arith) m

falls_sound :
    (g : ListGraph)
    → not (all (falls g) (edges_of g)) ≡ false
    → (rank : Text → ℕ) × ((s t : Text) → In (s, t) (edges_of g) → rank t < rank s)
falls_sound g h = (
  level_of g,
  λ s t m.
      ltb→lt (level_of g t) (level_of g s) (all-In (falls g) (edges_of g) (s, t) (ground arith) m),
)

pub list_graph_laws : GraphLaws list_graphs
unfolding erased
list_graph_laws = record {
  is_empty-vertices = λ g e. cc;
  vertices-AllDistinct = λ g. dedupe-AllDistinct text_eq text_iff g.nodes;
  edge_ends = λ g s t m.
      let (a, b) = edge_ends_lem g s t m in
      (In-dedupe text_eq text_iff g.nodes s a, In-dedupe text_eq text_iff g.nodes t b);
  vertex-insert_vertex = λ g s. inl refl;
  vertex-insert_vertex_kept = λ g s u m.
      In-dedupe text_eq text_iff (s ∷ g.nodes) u (inr (dedupe-In text_eq text_iff g.nodes u m));
  edge-insert_vertex_kept =
      λ g s. edge_kept g (record g { nodes = s ∷ g.nodes }) (λ u m. inr m) (λ e m. m);
  edge-insert_edge = λ g s t.
      In-keep (ends_in (s ∷ t ∷ g.nodes)) ((s, t) ∷ g.arcs) (s, t) (inl refl)
        (In-ends (s ∷ t ∷ g.nodes) s t (inl refl) (inr (inl refl)));
  edge-insert_edge_kept = λ g s t.
      edge_kept g (record { nodes = s ∷ t ∷ g.nodes; arcs = (s, t) ∷ g.arcs }) (λ u m. inr (inr m))
        (λ e m. inr m);
  vertex-insert_edge_kept = λ g s t u m.
      In-dedupe text_eq text_iff (s ∷ t ∷ g.nodes) u
        (inr (inr (dedupe-In text_eq text_iff g.nodes u m)));
  vertices-erase_parallel = λ g. refl;
  edges-erase_parallel = λ g e. (
    edge_kept (record g { arcs = dedupe pair_eq g.arcs }) g (λ u m. m)
        (dedupe-In pair_eq pair_eq_iff g.arcs) e,
    edge_kept g (record g { arcs = dedupe pair_eq g.arcs }) (λ u m. m)
        (In-dedupe pair_eq pair_eq_iff g.arcs) e,
  );
  edges-AllDistinct = λ g.
      keep-AllDistinct (ends_in g.nodes) (dedupe pair_eq g.arcs)
        (dedupe-AllDistinct pair_eq pair_eq_iff g.arcs);
  vertices-erase_vertex = vertices-erased;
  fewer-erase_vertex = fewer-erased;
  edges-erase_vertex = edges-erased;
  AllDistinct-erase_vertex = λ g s d.
      keep-AllDistinct (ends_in (erased g s).nodes) (erased g s).arcs
        (keep-AllDistinct (apart s) (edges_of g) d);
  out_edges_iff = λ g s t. targets-In s (edges_of g) t;
  out_edges-AllDistinct = λ g s d. targets-AllDistinct s (edges_of g) d;
  n_in_edges_lem = λ g t. refl;
  contains_cycle_sound = falls_sound;
}
