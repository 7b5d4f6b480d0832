-- ===== src/Context/InEdges.antt =====
-- The number of edges that enter a vertex, by which `sortByDependencyLattice` of src/Spock/Context.C
-- decides which vertex is a head.
use rmc_spock.Base.{
  ◌≡◌, ◌≢◌, refl, sym, ap, subst, ◌∙◌, inl, inr, Bool, List, [], ◌∷◌, Text, text_eq, text_eq_refl,
  text_eq_sound, In, keep, length, AllDistinct, In-keep, keep-In, keep-AllDistinct, arith,
}
use rmc_spock.Libraries.Graphs.{GraphOps, GraphLaws}

module _ {A : Type 0} where
  length-ne-zero : (xs : List A) (a : A) → In a xs → length xs ≢ 0
  length-ne-zero [] a m e = absurd m
  length-ne-zero (x ∷ xs) a m e = omega arith

  length-zero : (xs : List A) → ((a : A) → ¬ In a xs) → length xs ≡ 0
  length-zero [] h = refl
  length-zero (x ∷ xs) h = absurd (h x (inl refl))

  some_element : (xs : List A) → length xs ≢ 0 → (a : A) × In a xs
  some_element [] h = absurd (h refl)
  some_element (x ∷ xs) h = (x, inl refl)

  one_element : (xs : List A) (a b : A) → length xs ≡ 1 → In a xs → In b xs → a ≡ b
  one_element [] a b e m n = absurd m
  one_element (x ∷ []) a b e (inl p) (inl q) = p ∙ sym q
  one_element (x ∷ []) a b e (inr m) n = absurd m
  one_element (x ∷ []) a b e (inl p) (inr n) = absurd n
  one_element (x ∷ y ∷ xs) a b e m n = absurd (omega arith)

  length-one :
      (xs : List A) (a : A) → AllDistinct xs → In a xs → ((b : A) → In b xs → b ≡ a) → length xs ≡ 1
  length-one [] a d m h = absurd m
  length-one (x ∷ []) a d m h = refl
  length-one (x ∷ y ∷ xs) a d m h = absurd (d.0 (inl (h x (inl refl) ∙ sym (h y (inr (inl refl))))))

module _ ⦃graphs : GraphOps⦄ where
  abbrev pub Edge : graphs.Carrier → Text → Text → Type 0
  Edge lattice s t = In (s, t) (graphs.edges lattice)

  module _ (laws : GraphLaws graphs) (lattice : graphs.Carrier) (t : Text) where
    abbrev enters : Text × Text → Bool
    enters e = text_eq e.1 t

    entering : (s : Text) → Edge lattice s t → In (s, t) (keep enters (graphs.edges lattice))
    entering s m = In-keep enters (graphs.edges lattice) (s, t) m (text_eq_refl t)

    entering-Edge :
        (e : Text × Text)
        → In e (keep enters (graphs.edges lattice))
        → Edge lattice e.0 t × (e ≡ (e.0, t))
    entering-Edge e m =
        let (k, h) = keep-In enters (graphs.edges lattice) e m in
        let same : e ≡ (e.0, t) = ap (λ x. (e.0, x)) (text_eq_sound e.1 t h) in
        (subst (λ x. In x (graphs.edges lattice)) same k, same)

    pub n_in_edges-zero : graphs.n_in_edges lattice t ≡ 0 → (s : Text) → ¬ Edge lattice s t
    n_in_edges-zero none_enters s m =
        length-ne-zero (keep enters (graphs.edges lattice)) (s, t) (entering s m)
          (sym (laws.n_in_edges_lem lattice t) ∙ none_enters)

    pub zero-n_in_edges : ((s : Text) → ¬ Edge lattice s t) → graphs.n_in_edges lattice t ≡ 0
    zero-n_in_edges h =
        laws.n_in_edges_lem lattice t
        ∙ length-zero (keep enters (graphs.edges lattice)) (λ e m. h e.0 (entering-Edge e m).0)

    pub source_of : graphs.n_in_edges lattice t ≢ 0 → (s : Text) × Edge lattice s t
    source_of h =
        let (e, m) =
          some_element (keep enters (graphs.edges lattice))
            (λ k. h (laws.n_in_edges_lem lattice t ∙ k)) in
        (e.0, (entering-Edge e m).0)

    pub n_in_edges-one :
        graphs.n_in_edges lattice t ≡ 1 → (s u : Text) → Edge lattice s t → Edge lattice u t → s ≡ u
    n_in_edges-one e s u m n =
        ap (λ p. p.0)
          (one_element (keep enters (graphs.edges lattice)) (s, t) (u, t)
            (sym (laws.n_in_edges_lem lattice t) ∙ e) (entering s m) (entering u n))

    pub one-n_in_edges :
        AllDistinct (graphs.edges lattice)
        → (s : Text) → Edge lattice s t
        → ((u : Text) → Edge lattice u t → u ≡ s)
        → graphs.n_in_edges lattice t ≡ 1
    one-n_in_edges d s m h =
        laws.n_in_edges_lem lattice t
        ∙ length-one (keep enters (graphs.edges lattice)) (s, t)
            (keep-AllDistinct enters (graphs.edges lattice) d) (entering s m)
            (λ e k. (entering-Edge e k).1 ∙ ap (λ x. (x, t)) (h e.0 (entering-Edge e k).0))
