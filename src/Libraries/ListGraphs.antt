-- ===== src/Libraries/ListGraphs.antt =====
-- A small implementation of the operations on graphs: it shows that their laws can be met, and runs the
-- tests.
use rmc_spock.Base.{
  ℕ, zero, suc, ◌<◌, ◌≤◌, ◌≡◌, ◌≢◌, refl, sym, ap, ◌∙◌, ◌↔◌, inl, inr, Bool, true, false, not, ◌&&◌,
  List, map, [], ◌∷◌, Text, text_eq, text_eq_refl, text_eq_sound, true-false, In, any, all, keep,
  In-keep, keep-In, keep-AllDistinct, length, is_empty, AllDistinct, ltb, leb, Bool-cases,
  if◌then◌else◌, arith,
}
use rmc_spock.Libraries.Graphs.{GraphOps}

length-keep : {A : Type 0} (p : A → Bool) (xs : List A) → length (keep p xs) ≤ length xs
length-keep p [] = omega arith
length-keep p (x ∷ xs) = ground (arith, length-keep p xs)

module _ {A : Type 0} (eq : A → A → Bool) where
  -- The list without repetitions.
  abbrev pub dedupe : List A → List A
  dedupe [] = []
  dedupe (x ∷ xs) = x ∷ keep (λ y. not (eq x y)) (dedupe xs)

  module _ (eq_iff : (a b : A) → (eq a b ≡ true) ↔ (a ≡ b)) where
    not-In : (a : A) (xs : List A) → ¬ In a (keep (λ y. not (eq a y)) xs)
    not-In a xs m =
        let (k, h) = keep-In (λ y. not (eq a y)) xs a m in
        let e = (eq_iff a a).1 refl in ground arith

    pub dedupe-AllDistinct : (xs : List A) → AllDistinct (dedupe xs)
    dedupe-AllDistinct [] = tt
    dedupe-AllDistinct (x ∷ xs) = (
      not-In x (dedupe xs),
      keep-AllDistinct (λ y. not (eq x y)) (dedupe xs) (dedupe-AllDistinct xs),
    )

    pub In-dedupe : (xs : List A) (a : A) → In a xs → In a (dedupe xs)
    In-dedupe [] a m = m
    In-dedupe (x ∷ xs) a (inl e) = inl e
    In-dedupe (x ∷ xs) a (inr m) = elim (Bool-cases (eq x a)) [
      | inl e ↦ inl (sym ((eq_iff x a).0 e))
      | inr n ↦ inr (In-keep (λ y. not (eq x y)) (dedupe xs) a (In-dedupe xs a m) (ap not n))
    ]

    pub dedupe-In : (xs : List A) (a : A) → In a (dedupe xs) → In a xs
    dedupe-In [] a m = m
    dedupe-In (x ∷ xs) a (inl e) = inl e
    dedupe-In (x ∷ xs) a (inr m) =
        inr (dedupe-In xs a (keep-In (λ y. not (eq x y)) (dedupe xs) a m).0)

    pub length-dedupe : (xs : List A) → length (dedupe xs) ≤ length xs
    length-dedupe [] = omega arith
    length-dedupe (x ∷ xs) =
        omega (arith, length-keep (λ y. not (eq x y)) (dedupe xs), length-dedupe xs)

pub length-keep_lt :
    {A : Type 0} (p : A → Bool) (xs : List A) (a : A)
    → In a xs
    → p a ≡ false
    → length (keep p xs) < length xs
length-keep_lt p [] a m e = absurd m
length-keep_lt p (x ∷ xs) a (inl same) e =
    let no : p x ≡ false = ap p (sym same) ∙ e in ground (arith, length-keep p xs)
length-keep_lt p (x ∷ xs) a (inr m) e = ground (arith, length-keep_lt p xs a m e)

pub any-In : (xs : List Text) (a : Text) → In a xs → any (text_eq a) xs ≡ true
any-In [] a m = absurd m
any-In (x ∷ xs) a (inl e) = let h = ap (text_eq a) (sym e) ∙ text_eq_refl a in ground arith
any-In (x ∷ xs) a (inr m) = ground (arith, any-In xs a m)

pub In-any : (xs : List Text) (a : Text) → any (text_eq a) xs ≡ true → In a xs
In-any [] a h = absurd (true-false (sym h))
In-any (x ∷ xs) a h = elim (Bool-cases (text_eq a x)) [
  | inl e ↦ inl (text_eq_sound a x e)
  | inr n ↦ inr (In-any xs a (ground arith))
]

pub text_ne : (a b : Text) → a ≢ b → text_eq a b ≡ false
text_ne a b ne = elim (Bool-cases (text_eq a b)) [
  | inl e ↦ absurd (ne (text_eq_sound a b e))
  | inr e ↦ e
]

pub ne_text : (a b : Text) → text_eq a b ≡ false → a ≢ b
ne_text a b h e = true-false (sym (text_eq_refl b) ∙ (ap (λ x. text_eq x b) (sym e) ∙ h))

abbrev pub pair_eq : Text × Text → Text × Text → Bool
pair_eq (a, b) (c, d) = text_eq a c && text_eq b d

pub pair_eq_iff : (e f : Text × Text) → (pair_eq e f ≡ true) ↔ (e ≡ f)
pair_eq_iff (a, b) (c, d) = (
  λ h. ground (arith, text_eq_sound a c, text_eq_sound b d),
  λ e. ground (
    arith,
    ap (λ (x : Text × Text). x.0) e,
    ap (λ (x : Text × Text). x.1) e,
    text_eq_refl a,
    text_eq_refl b,
  ),
)

pub text_iff : (a b : Text) → (text_eq a b ≡ true) ↔ (a ≡ b)
text_iff a b = (text_eq_sound a b, λ e. ap (text_eq a) (sym e) ∙ text_eq_refl a)

pub record ListGraph : Type 0 where
  pub nodes : List Text
  pub arcs : List (Text × Text)

abbrev pub ends_in : List Text → Text × Text → Bool
ends_in nodes (s, t) = any (text_eq s) nodes && any (text_eq t) nodes

abbrev pub apart : Text → Text × Text → Bool
apart v (s, t) = not (text_eq s v) && not (text_eq t v)

abbrev pub vertices_of : ListGraph → List Text
vertices_of g = dedupe text_eq g.nodes

abbrev pub edges_of : ListGraph → List (Text × Text)
edges_of g = keep (ends_in g.nodes) g.arcs

-- The length of a longest path of at most so many edges.
abbrev pub larger : ℕ → ℕ → ℕ
larger a b = if leb a b then b else a

abbrev pub longest : (Text → ℕ) → Text → List (Text × Text) → ℕ
longest level v [] = 0
longest level v ((s, t) ∷ arcs) =
    larger (if text_eq s v then suc (level t) else 0) (longest level v arcs)

unfoldable pub path_length : List (Text × Text) → ℕ → Text → ℕ
path_length arcs zero v = 0
path_length arcs (suc n) v = longest (path_length arcs n) v arcs

abbrev pub level_of : ListGraph → Text → ℕ
level_of g v = path_length g.arcs (length g.nodes) v

abbrev pub falls : ListGraph → Text × Text → Bool
falls g (s, t) = ltb (level_of g t) (level_of g s)

abbrev pub list_graphs : GraphOps
list_graphs = record {
  Carrier = ListGraph;
  empty = record { nodes = []; arcs = [] };
  insert_vertex_maybe = λ g s. record g { nodes = s ∷ g.nodes };
  insert_edge_with_vertices = λ g s t. record { nodes = s ∷ t ∷ g.nodes; arcs = (s, t) ∷ g.arcs };
  erase_parallel_edges = λ g. record g { arcs = dedupe pair_eq g.arcs };
  erase_vertex = λ g s. record {
    nodes = keep (λ u. not (text_eq u s)) (vertices_of g);
    arcs = keep (apart s) (edges_of g);
  };
  contains_cycle = λ g. not (all (falls g) (edges_of g));
  is_empty = λ g. is_empty (vertices_of g);
  vertices = vertices_of;
  edges = edges_of;
  out_edges = λ g s. map (λ e. e.1) (keep (λ e. text_eq e.0 s) (edges_of g));
  n_in_edges = λ g t. length (keep (λ e. text_eq e.1 t) (edges_of g));
}
