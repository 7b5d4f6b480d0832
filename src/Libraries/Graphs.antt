-- ===== src/Libraries/Graphs.antt =====
-- `Sawyer::Container::Graph` with texts as vertices, and the algorithms on graphs that
-- src/Spock/Context.C calls.
use rmc_spock.Base.{
  ℕ, ◌≡◌, ◌≢◌, ◌↔◌, ◌<◌, Bool, true, false, List, [], Text, text_eq, In, keep, length, AllDistinct,
}

-- `vertices` and `edges` list a graph in its order of iteration, `out_edges` the targets of the edges
-- that leave a vertex.
pub record GraphOps : Type 1 where
  pub Carrier : Type 0
  pub empty : Carrier
  pub insert_vertex_maybe : Carrier → Text → Carrier
  pub insert_edge_with_vertices : Carrier → Text → Text → Carrier
  pub erase_parallel_edges : Carrier → Carrier
  pub erase_vertex : Carrier → Text → Carrier
  pub contains_cycle : Carrier → Bool
  pub is_empty : Carrier → Bool
  pub vertices : Carrier → List Text
  pub edges : Carrier → List (Text × Text)
  pub out_edges : Carrier → Text → List Text
  pub n_in_edges : Carrier → Text → ℕ

-- A graph without a cycle has ranks that fall along each edge.
pub record GraphLaws (g : GraphOps) : Type 0 where
  pub is_empty-vertices : (c : g.Carrier) → g.vertices c ≡ [] → g.is_empty c ≡ true
  pub vertices-AllDistinct : (c : g.Carrier) → AllDistinct (g.vertices c)
  pub edge_ends :
      (c : g.Carrier) (s t : Text)
      → In (s, t) (g.edges c)
      → In s (g.vertices c) × In t (g.vertices c)
  pub vertex-insert_vertex :
      (c : g.Carrier) (s : Text) → In s (g.vertices (g.insert_vertex_maybe c s))
  pub vertex-insert_vertex_kept :
      (c : g.Carrier) (s u : Text)
      → In u (g.vertices c)
      → In u (g.vertices (g.insert_vertex_maybe c s))
  pub edge-insert_vertex_kept :
      (c : g.Carrier) (s : Text) (e : Text × Text)
      → In e (g.edges c)
      → In e (g.edges (g.insert_vertex_maybe c s))
  pub edge-insert_edge :
      (c : g.Carrier) (s t : Text) → In (s, t) (g.edges (g.insert_edge_with_vertices c s t))
  pub edge-insert_edge_kept :
      (c : g.Carrier) (s t : Text) (e : Text × Text)
      → In e (g.edges c)
      → In e (g.edges (g.insert_edge_with_vertices c s t))
  pub vertex-insert_edge_kept :
      (c : g.Carrier) (s t u : Text)
      → In u (g.vertices c)
      → In u (g.vertices (g.insert_edge_with_vertices c s t))
  pub vertices-erase_parallel :
      (c : g.Carrier) → g.vertices (g.erase_parallel_edges c) ≡ g.vertices c
  pub edges-erase_parallel :
      (c : g.Carrier) (e : Text × Text)
      → In e (g.edges (g.erase_parallel_edges c)) ↔ In e (g.edges c)
  pub edges-AllDistinct : (c : g.Carrier) → AllDistinct (g.edges (g.erase_parallel_edges c))
  pub vertices-erase_vertex :
      (c : g.Carrier) (s u : Text)
      → In u (g.vertices (g.erase_vertex c s)) ↔ (In u (g.vertices c) × (u ≢ s))
  pub fewer-erase_vertex :
      (c : g.Carrier) (s : Text)
      → In s (g.vertices c)
      → length (g.vertices (g.erase_vertex c s)) < length (g.vertices c)
  pub edges-erase_vertex :
      (c : g.Carrier) (s a b : Text)
      → In (a, b) (g.edges (g.erase_vertex c s)) ↔ (In (a, b) (g.edges c) × (a ≢ s) × (b ≢ s))
  pub AllDistinct-erase_vertex :
      (c : g.Carrier) (s : Text)
      → AllDistinct (g.edges c)
      → AllDistinct (g.edges (g.erase_vertex c s))
  pub out_edges_iff : (c : g.Carrier) (s t : Text) → In t (g.out_edges c s) ↔ In (s, t) (g.edges c)
  pub out_edges-AllDistinct :
      (c : g.Carrier) (s : Text) → AllDistinct (g.edges c) → AllDistinct (g.out_edges c s)
  pub n_in_edges_lem :
      (c : g.Carrier) (t : Text) → g.n_in_edges c t ≡ length (keep (λ e. text_eq e.1 t) (g.edges c))
  pub contains_cycle_sound :
      (c : g.Carrier)
      → g.contains_cycle c ≡ false
      → (rank : Text → ℕ) × ((s t : Text) → In (s, t) (g.edges c) → rank t < rank s)
