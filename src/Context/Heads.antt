-- ===== src/Context/Heads.antt =====
-- The loop of `sortByDependencyLattice` of src/Spock/Context.C that removes the heads of a lattice.
use rmc_spock.Base.{
  ◌≡◌, ◌≢◌, refl, sym, ap, subst, ◌∙◌, ◌⊎◌, inl, inr, List, [], ◌∷◌, Text, text_eq, text_eq_sound,
  text_eq_refl, true-false, In, keep-In, In-keep, keep-AllDistinct, AllDistinct, Bool-cases, ◌==◌,
  ==_iff, if_cases, if◌then◌else◌, arith,
}
use rmc_spock.Libraries.{Libraries}
use rmc_spock.Libraries.Graphs.{GraphOps, GraphLaws}
use rmc_spock.Context.Lattice.{push_targets, heads_of}
use rmc_spock.Context.InEdges.{
  Edge, n_in_edges-zero, zero-n_in_edges, source_of, n_in_edges-one, one-n_in_edges,
}

module _ ⦃lib : Libraries⦄ ⦃graphs : GraphOps⦄ where
  -- The heads are the vertices that no edge enters, each once.
  pub record AreHeads (lattice : graphs.Carrier) (heads : List Text) : Type 0 where
    pub distinct : AllDistinct heads
    pub head_vertex :
        (v : Text) → In v heads → In v (graphs.vertices lattice) × (graphs.n_in_edges lattice v ≡ 0)
    pub vertex_head :
        (v : Text) → In v (graphs.vertices lattice) → graphs.n_in_edges lattice v ≡ 0 → In v heads

  pub heads_of-AreHeads :
      GraphLaws graphs → (lattice : graphs.Carrier) → AreHeads lattice (heads_of lattice)
  unfolding heads_of
  heads_of-AreHeads laws lattice = record {
    distinct =
        keep-AllDistinct (λ v. graphs.n_in_edges lattice v == 0) (graphs.vertices lattice)
          (laws.vertices-AllDistinct lattice);
    head_vertex = λ v m.
        let (k, e) =
          keep-In (λ v. graphs.n_in_edges lattice v == 0) (graphs.vertices lattice) v m in
        (k, (==_iff (graphs.n_in_edges lattice v) 0).0 e);
    vertex_head = λ v m e.
        In-keep (λ v. graphs.n_in_edges lattice v == 0) (graphs.vertices lattice) v m
          ((==_iff (graphs.n_in_edges lattice v) 0).1 e);
  }

  -- What the loop over the targets adds to the heads.
  push_targets-In :
      (lattice : graphs.Carrier) (heads targets : List Text) (v : Text)
      → In v (push_targets lattice heads targets)
      → In v heads ⊎ (In v targets × (graphs.n_in_edges lattice v ≡ 1))
  unfolding push_targets
  push_targets-In lattice heads [] v m = inl m
  push_targets-In lattice heads (t ∷ ts) v m =
      let one = graphs.n_in_edges lattice t == 1 in
      elim (push_targets-In lattice (if one then t ∷ heads else heads) ts v m) [
        | inl k ↦
            if_cases
              (λ l. In v l → In v heads ⊎ (In v (t ∷ ts) × (graphs.n_in_edges lattice v ≡ 1))) one
              (t ∷ heads) heads
              (λ e n. elim n [
                | inl same ↦ inr (
                  inl same,
                  ap (graphs.n_in_edges lattice) same
                      ∙ (==_iff (graphs.n_in_edges lattice t) 1).0 e,
                )
                | inr old ↦ inl old
              ])
              (λ e n. inl n) k
        | inr k ↦ inr (inr k.0, k.1)
      ]

  push_targets-kept :
      (lattice : graphs.Carrier) (heads targets : List Text) (v : Text)
      → In v heads
      → In v (push_targets lattice heads targets)
  unfolding push_targets
  push_targets-kept lattice heads [] v m = m
  push_targets-kept lattice heads (t ∷ ts) v m =
      push_targets-kept lattice (if graphs.n_in_edges lattice t == 1 then t ∷ heads else heads) ts v
        (if_cases (In v) (graphs.n_in_edges lattice t == 1) (t ∷ heads) heads (λ _. inr m) (λ _. m))

  push_targets-pushed :
      (lattice : graphs.Carrier) (heads targets : List Text) (v : Text)
      → In v targets
      → graphs.n_in_edges lattice v ≡ 1
      → In v (push_targets lattice heads targets)
  unfolding push_targets
  push_targets-pushed lattice heads [] v m e = absurd m
  push_targets-pushed lattice heads (t ∷ ts) v (inl same) e =
      let yes_one =
        (==_iff (graphs.n_in_edges lattice t) 1).1
          (ap (graphs.n_in_edges lattice) (sym same) ∙ e) in
      push_targets-kept lattice (if graphs.n_in_edges lattice t == 1 then t ∷ heads else heads) ts v
        (if_cases (In v) (graphs.n_in_edges lattice t == 1) (t ∷ heads) heads (λ _. inl same)
          (λ no. cc))
  push_targets-pushed lattice heads (t ∷ ts) v (inr m) e =
      push_targets-pushed lattice (if graphs.n_in_edges lattice t == 1 then t ∷ heads else heads) ts
        v m e

  push_targets-AllDistinct :
      (lattice : graphs.Carrier) (heads targets : List Text)
      → AllDistinct heads
      → AllDistinct targets
      → ((v : Text) → In v heads → ¬ In v targets)
      → AllDistinct (push_targets lattice heads targets)
  unfolding push_targets
  push_targets-AllDistinct lattice heads [] d e apart = d
  push_targets-AllDistinct lattice heads (t ∷ ts) d (fresh, e) apart =
      let more = if graphs.n_in_edges lattice t == 1 then t ∷ heads else heads in
      push_targets-AllDistinct lattice more ts
        (if_cases AllDistinct (graphs.n_in_edges lattice t == 1) (t ∷ heads) heads
          (λ _. (λ m. apart t m (inl refl), d)) (λ _. d))
        e
        (if_cases (λ l. (v : Text) → In v l → ¬ In v ts) (graphs.n_in_edges lattice t == 1)
          (t ∷ heads) heads
          (λ _ v m n. elim m [
            | inl same ↦ fresh (subst (λ x. In x ts) same n)
            | inr old ↦ apart v old (inr n)
          ])
          (λ _ v m n. apart v m (inr n)))

  -- A vertex that only the head enters is pushed, and one that none enters is a head already.
  vertex_pushed :
      GraphLaws graphs
      → (lattice : graphs.Carrier) (head : Text) (heads : List Text)
      → AllDistinct (graphs.edges lattice)
      → AreHeads lattice (head ∷ heads)
      → (v : Text) → In v (graphs.vertices lattice) × (v ≢ head)
      → ((s : Text) → ¬ Edge (graphs.erase_vertex lattice head) s v)
      → In v (push_targets lattice heads (graphs.out_edges lattice head))
  vertex_pushed laws lattice head heads simple h v (m, other) none_left =
      let targets = graphs.out_edges lattice head in
      elim (Bool-cases (graphs.n_in_edges lattice v == 0)) [
        | inl e ↦ elim (h.vertex_head v m ((==_iff (graphs.n_in_edges lattice v) 0).0 e)) [
          | inl same ↦ absurd (other same)
          | inr old ↦ push_targets-kept lattice heads targets v old
        ]
        | inr e ↦
            (let from_head : (s : Text) → Edge lattice s v → s ≡ head = λ s n.
                elim (Bool-cases (text_eq s head)) [
                  | inl k ↦ text_eq_sound s head k
                  | inr k ↦ absurd (
                      none_left s (
                        (laws.edges-erase_vertex lattice head s v).1 (
                          n,
                          λ q.
                              true-false
                                (sym (text_eq_refl head) ∙ (ap (λ x. text_eq x head) (sym q) ∙ k)),
                          other,
                        )))
                ] in
              let (s, n) = source_of laws lattice v (λ z. ground arith) in
              let edge = subst (λ x. Edge lattice x v) (from_head s n) n in
              push_targets-pushed lattice heads targets v
                ((laws.out_edges_iff lattice head v).1 edge)
                (one-n_in_edges laws lattice v simple head edge from_head))
      ]

  -- One round of the loop keeps the heads.
  pub erase_vertex-AreHeads :
      GraphLaws graphs
      → (lattice : graphs.Carrier) (head : Text) (heads : List Text)
      → AllDistinct (graphs.edges lattice)
      → AreHeads lattice (head ∷ heads)
      → AreHeads
          (graphs.erase_vertex lattice head)
          (push_targets lattice heads (graphs.out_edges lattice head))
  erase_vertex-AreHeads laws lattice head heads simple h =
      let fewer = graphs.erase_vertex lattice head in
      let targets = graphs.out_edges lattice head in
      let is_head = h.head_vertex head (inl refl) in
      let none_enters : (s : Text) → ¬ Edge lattice s head =
        n_in_edges-zero laws lattice head is_head.1 in
      let kept : (s t : Text) → Edge fewer s t → Edge lattice s t × (s ≢ head) × (t ≢ head) =
        λ s t m. (laws.edges-erase_vertex lattice head s t).0 m in
      record {
        distinct =
            push_targets-AllDistinct lattice heads targets h.distinct.1
              (laws.out_edges-AllDistinct lattice head simple)
              (λ v m n.
                n_in_edges-zero laws lattice v (h.head_vertex v (inr m)).1 head
                  ((laws.out_edges_iff lattice head v).0 n));
        head_vertex = λ v m. elim (push_targets-In lattice heads targets v m) [
          | inl old ↦
              (let (k, z) = h.head_vertex v (inr old) in
                (
                  (laws.vertices-erase_vertex lattice head v).1
                      (k, λ e. h.distinct.0 (subst (λ x. In x heads) e old)),
                  zero-n_in_edges laws fewer v
                      (λ s n. n_in_edges-zero laws lattice v z s (kept s v n).0),
                ))
          | inr new ↦
              (let edge = (laws.out_edges_iff lattice head v).0 new.0 in
                (
                  (laws.vertices-erase_vertex lattice head v).1 (
                    (laws.edge_ends lattice head v edge).1,
                    λ e. none_enters head (subst (λ x. Edge lattice head x) e edge),
                  ),
                  zero-n_in_edges laws fewer v (λ s n.
                      (kept s v n).1
                        (n_in_edges-one laws lattice v new.1 s head (kept s v n).0 edge)),
                ))
        ];
        vertex_head = λ v m z.
            vertex_pushed laws lattice head heads simple h v
              ((laws.vertices-erase_vertex lattice head v).0 m)
              (λ s n. n_in_edges-zero laws fewer v z s n);
      }
