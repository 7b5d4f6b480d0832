-- ===== src/Context/Removal.antt =====
-- The loop of `sortByDependencyLattice` of src/Spock/Context.C ends with nothing left, and gives each
-- vertex its place.
use rmc_spock.Base.{
  ℕ, zero, suc, ◌≡◌, ◌≢◌, ◌<◌, ◌≤◌, refl, sym, ap, subst, ◌∙◌, inl, inr, true, false, not, Option,
  none, some, List, [], ◌∷◌, Text, text_eq, text_eq_sound, text_eq_refl, true-false, In, length,
  AllDistinct, Bool-cases, leb, leb-false, ok, ◌>>◌, assert, arith,
}
use rmc_spock.Libraries.{Libraries}
use rmc_spock.Libraries.Laws.{MapLaws}
use rmc_spock.Libraries.Graphs.{GraphOps, GraphLaws}
use rmc_spock.Context.Lattice.{push_targets, remove_heads, PackageOrder, is_ordered}
use rmc_spock.Context.InEdges.{Edge, n_in_edges-zero, source_of}
use rmc_spock.Context.Heads.{AreHeads, erase_vertex-AreHeads}

-- Of a list that is not empty, an element of greatest rank.
greatest_rank :
    (rank : Text → ℕ) (v : Text) (vs : List Text)
    → (top : Text) × In top (v ∷ vs) × ((u : Text) → In u (v ∷ vs) → rank u ≤ rank top)
greatest_rank rank v [] = (
  v,
  inl refl,
  λ u m. elim m [ inl e ↦ subst (λ x. rank x ≤ rank v) (sym e) (omega arith) | inr n ↦ absurd n ],
)
greatest_rank rank v (w ∷ ws) =
    let (top, m, h) = greatest_rank rank w ws in
    elim (Bool-cases (leb (rank v) (rank top))) [
      | inl e ↦ (
        top,
        inr m,
        λ u k. elim k [
          | inl same ↦ subst (λ x. rank x ≤ rank top) (sym same) (ground arith)
          | inr later ↦ h u later
        ],
      )
      | inr e ↦ (
        v,
        inl refl,
        λ u k. elim k [
          | inl same ↦ subst (λ x. rank x ≤ rank v) (sym same) (omega arith)
          | inr later ↦
              (let below = h u later in let less = leb-false (rank v) (rank top) e in omega arith)
        ],
      )
    ]

module _ ⦃lib : Libraries⦄ ⦃graphs : GraphOps⦄ where
  -- The ranks fall along the edges.
  abbrev pub Falls : graphs.Carrier → (Text → ℕ) → Type 0
  Falls lattice rank = (s t : Text) → Edge lattice s t → rank t < rank s

  abbrev pub PlaceOf : PackageOrder → Text → ℕ → Type 0
  PlaceOf order v i = (lib.maps ℕ).get order v ≡ some i

  -- What the loop has made of a lattice and an order.
  pub record Placed (lattice : graphs.Carrier) (order : PackageOrder)
      (r : graphs.Carrier × PackageOrder) : Type 0 where
    pub emptied : graphs.vertices r.0 ≡ []
    pub kept : (v : Text) (i : ℕ) → PlaceOf order v i → PlaceOf r.1 v i
    pub placed :
        (v : Text)
        → In v (graphs.vertices lattice)
        → (i : ℕ) × PlaceOf r.1 v i × ((lib.maps ℕ).size order ≤ i)
    pub ordered :
        (s t : Text)
        → Edge lattice s t
        → (i : ℕ) × (j : ℕ) × PlaceOf r.1 s i × PlaceOf r.1 t j × (i < j)

  module _ (laws : GraphLaws graphs) (map_laws : MapLaws (lib.maps ℕ)) where
    -- A lattice without heads has no vertices.
    no_heads :
        (lattice : graphs.Carrier) (rank : Text → ℕ)
        → Falls lattice rank
        → AreHeads lattice []
        → graphs.vertices lattice ≡ []
    no_heads lattice rank falls h = go (graphs.vertices lattice) refl
      where
        go : (vs : List Text) → graphs.vertices lattice ≡ vs → graphs.vertices lattice ≡ []
        go [] e = e
        go (v ∷ vs) e =
            let (top, m, above) = greatest_rank rank v vs in
            let top_vertex = subst (In top) (sym e) m in
            let (s, edge) = source_of laws lattice top (λ z. h.vertex_head top top_vertex z) in
            let low = above s (subst (In s) e (laws.edge_ends lattice s top edge).0) in
            let high = falls s top edge in absurd (omega arith)

    ended :
        (lattice : graphs.Carrier) (order : PackageOrder)
        → graphs.vertices lattice ≡ []
        → Placed lattice order (lattice, order)
    ended lattice order e = record {
      emptied = e;
      kept = λ v i k. k;
      placed = λ v m. absurd (subst (In v) e m);
      ordered = λ s t m. absurd (subst (In s) e (laws.edge_ends lattice s t m).0);
    }

    -- One head more.
    head_placed :
        (lattice : graphs.Carrier) (head : Text) (order : PackageOrder)
        (r : graphs.Carrier × PackageOrder)
        → ((s : Text) → ¬ Edge lattice s head)
        → ((v : Text) → In v (graphs.vertices lattice) → (lib.maps ℕ).get order v ≡ none)
        → In head (graphs.vertices lattice)
        → Placed
            (graphs.erase_vertex lattice head)
            ((lib.maps ℕ).insert order head ((lib.maps ℕ).size order))
            r
        → Placed lattice order r
    head_placed lattice head order r none_enters open_place head_vertex h =
        let n = (lib.maps ℕ).size order in
        let next = (lib.maps ℕ).insert order head n in
        let larger : (lib.maps ℕ).size next ≡ suc n =
          map_laws.size-insert order head n (open_place head head_vertex) in
        let at_head : PlaceOf r.1 head n = h.kept head n (map_laws.get-insert order head n) in
        let later : (v : Text)
            → In v (graphs.vertices lattice)
            → text_eq v head ≡ false
            → (i : ℕ) × PlaceOf r.1 v i × (n < i) =
          λ v m other.
            let (i, k, le) = h.placed v (
              (laws.vertices-erase_vertex lattice head v).1 (
                m,
                λ e.
                    true-false
                      (sym (text_eq_refl head) ∙ (ap (λ x. text_eq x head) (sym e) ∙ other)),
              )) in
            (i, k, omega arith) in
        record {
          emptied = h.emptied;
          kept = λ v i k. h.kept v i (elim (Bool-cases (text_eq head v)) [
            | inl same ↦
                (let no_place = open_place v (
                    subst (λ x. In x (graphs.vertices lattice)) (text_eq_sound head v same)
                      head_vertex) in
                  cc)
            | inr other ↦ map_laws.get-insert_other order head v n other ∙ k
          ]);
          placed = λ v m. elim (Bool-cases (text_eq v head)) [
            | inl same ↦
                (n, ap ((lib.maps ℕ).get r.1) (text_eq_sound v head same) ∙ at_head, omega arith)
            | inr other ↦ (let (i, k, lt) = later v m other in (i, k, omega arith))
          ];
          ordered = λ s t m.
              let t_other : t ≢ head = λ e. none_enters s (subst (Edge lattice s) e m) in
              elim (Bool-cases (text_eq s head)) [
                | inl same ↦
                    (let (j, k, lt) =
                        later t (laws.edge_ends lattice s t m).1 (not_same t head t_other) in
                      (
                        n,
                        j,
                        ap ((lib.maps ℕ).get r.1) (text_eq_sound s head same) ∙ at_head,
                        k,
                        lt,
                      ))
                | inr other ↦ h.ordered s t (
                    (laws.edges-erase_vertex lattice head s t).1 (
                      m,
                      (λ e.
                          true-false
                            (sym (text_eq_refl head) ∙ (ap (λ x. text_eq x head) (sym e) ∙ other))),
                      t_other,
                    ))
              ];
        }
      where
        not_same : (a b : Text) → a ≢ b → text_eq a b ≡ false
        not_same a b ne = elim (Bool-cases (text_eq a b)) [
          | inl e ↦ absurd (ne (text_eq_sound a b e))
          | inr e ↦ e
        ]

    -- The rounds suffice, the assertion in the loop holds, and the loop ends with nothing left.
    pub remove_heads-Placed :
        (f : ℕ) (lattice : graphs.Carrier) (heads : List Text) (order : PackageOrder)
        (rank : Text → ℕ)
        → length (graphs.vertices lattice) ≤ f
        → AllDistinct (graphs.edges lattice)
        → Falls lattice rank
        → AreHeads lattice heads
        → ((v : Text) → In v (graphs.vertices lattice) → (lib.maps ℕ).get order v ≡ none)
        → (r : graphs.Carrier × PackageOrder) × (remove_heads f lattice heads order ≡ ok r)
          × Placed lattice order r
    unfolding remove_heads
    remove_heads-Placed zero lattice [] order rank le simple falls h open_place =
        ((lattice, order), refl, ended lattice order (no_heads lattice rank falls h))
    remove_heads-Placed (suc f) lattice [] order rank le simple falls h open_place =
        ((lattice, order), refl, ended lattice order (no_heads lattice rank falls h))
    remove_heads-Placed zero lattice (head ∷ heads) order rank le simple falls h open_place =
        let fewer = laws.fewer-erase_vertex lattice head (h.head_vertex head (inl refl)).0 in
        absurd (omega arith)
    remove_heads-Placed (suc f) lattice (head ∷ heads) order rank le simple falls h open_place =
        let less = graphs.erase_vertex lattice head in
        let (m, z) = h.head_vertex head (inl refl) in
        let fewer = laws.fewer-erase_vertex lattice head m in
        let next = (lib.maps ℕ).insert order head ((lib.maps ℕ).size order) in
        let more = push_targets lattice heads (graphs.out_edges lattice head) in
        let still_open : (v : Text) → In v (graphs.vertices less) → (lib.maps ℕ).get next v ≡ none =
          λ v k.
            let (old, other) = (laws.vertices-erase_vertex lattice head v).0 k in
            map_laws.get-insert_other order head v ((lib.maps ℕ).size order)
              (elim (Bool-cases (text_eq head v)) [
                | inl e ↦ absurd (other (sym (text_eq_sound head v e)))
                | inr e ↦ e
              ])
            ∙ open_place v old in
        let (r, e, k) =
          remove_heads-Placed f less more next rank (omega arith)
            (laws.AllDistinct-erase_vertex lattice head simple)
            (λ s t edge. falls s t ((laws.edges-erase_vertex lattice head s t).0 edge).0)
            (erase_vertex-AreHeads laws lattice head heads simple h) still_open in
        let unplaced : is_ordered order head ≡ false =
          ap (λ (o : Option ℕ). elim o [ none ↦ false | some i ↦ true ]) (open_place head m) in
        (
          r,
          ap (λ b. assert (not b) >> remove_heads f less more next) unplaced ∙ e,
          head_placed lattice head order r (n_in_edges-zero laws lattice head z) open_place m k,
        )
