-- ===== src/Environment/Added.antt =====
-- The loops of src/Spock/Environment.C that add the parts of a value to those of a variable.
use rmc_spock.Base.{
  reverse, reverse-cons, ◌≡◌, refl, sym, subst, subst⁻¹, ◌∙◌, ◌⊎◌, inl, inr, true, false, List, [],
  ◌∷◌, ◌++◌, append-nil, append_assoc, Text, text_eq, text_eq_comm, In-append, text_eq_sound, any,
  In, In-left, In-right, Bool-cases, arith,
}
use rmc_spock.Environment.{add_parts}

-- No text stands twice in the list.
abbrev pub Distinct : List Text → Type 0
Distinct [] = Unit {0}
Distinct (p ∷ ps) = (any (text_eq p) ps ≡ false) × Distinct ps

add_parts-present :
    (parts : List Text) (v : Text) (vs : List Text)
    → any (text_eq v) parts ≡ true
    → add_parts parts (v ∷ vs) ≡ add_parts parts vs
unfolding add_parts
add_parts-present parts v vs e = rw (add_parts, e) refl

add_parts-absent :
    (parts : List Text) (v : Text) (vs : List Text)
    → any (text_eq v) parts ≡ false
    → add_parts parts (v ∷ vs) ≡ add_parts (parts ++ (v ∷ [])) vs
unfolding add_parts
add_parts-absent parts v vs e = rw (add_parts, e) refl

-- What is added comes from the values.
pub add_parts-prefix :
    (parts values : List Text)
    → (more : List Text) × (add_parts parts values ≡ parts ++ more)
      × ((v : Text) → In v more → In v values)
unfolding add_parts
add_parts-prefix parts [] = ([], sym (append-nil parts), λ v m. m)
add_parts-prefix parts (v ∷ vs) = elim (Bool-cases (any (text_eq v) parts)) [
  | inl e ↦
      let (more, r, from) = add_parts-prefix parts vs in
      (more, add_parts-present parts v vs e ∙ r, λ w m. inr (from w m))
  | inr e ↦
      let (more, r, from) = add_parts-prefix (parts ++ (v ∷ [])) vs in
      (
        v ∷ more,
        add_parts-absent parts v vs e ∙ (r ∙ append_assoc parts (v ∷ []) more),
        λ w m. elim m [ inl k ↦ inl k | inr k ↦ inr (from w k) ],
      )
]

any-In : (v : Text) (parts : List Text) → any (text_eq v) parts ≡ true → In v parts
any-In v [] e = cc
any-In v (p ∷ ps) e = elim (Bool-cases (text_eq v p)) [
  | inl k ↦ inl (text_eq_sound v p k)
  | inr k ↦ inr (any-In v ps (ground arith))
]

pub add_parts-In :
    (parts values : List Text) (v : Text) → In v (parts ++ values) → In v (add_parts parts values)
unfolding add_parts
add_parts-In parts [] v h = subst (In v) (append-nil parts) h
add_parts-In parts (w ∷ ws) v h = elim (Bool-cases (any (text_eq w) parts)) [
  | inl e ↦
      subst⁻¹ (In v) (add_parts-present parts w ws e)
        (add_parts-In parts ws v (known (In-append parts (w ∷ ws) v h) (any-In w parts e)))
  | inr e ↦
      subst⁻¹ (In v) (add_parts-absent parts w ws e)
        (add_parts-In (parts ++ (w ∷ [])) ws v (subst⁻¹ (In v) (append_assoc parts (w ∷ []) ws) h))
]
  where
    known : In v parts ⊎ In v (w ∷ ws) → In w parts → In v (parts ++ ws)
    known (inl k) m = In-left parts v ws k
    known (inr (inl k)) m = In-left parts v ws (subst (λ x. In x parts) (sym k) m)
    known (inr (inr k)) m = In-right parts v ws k

any-snoc :
    (p : Text) (ps : List Text) (v : Text)
    → any (text_eq p) ps ≡ false
    → text_eq p v ≡ false
    → any (text_eq p) (ps ++ (v ∷ [])) ≡ false
any-snoc p [] v h k = ground (arith)
any-snoc p (q ∷ ps) v h k = ground (arith, any-snoc p ps v (ground arith) k)

Distinct-snoc :
    (parts : List Text) (v : Text)
    → Distinct parts
    → any (text_eq v) parts ≡ false
    → Distinct (parts ++ (v ∷ []))
Distinct-snoc [] v d n = (refl, tt)
Distinct-snoc (p ∷ ps) v (x, d) n =
    (any-snoc p ps v x (text_eq_comm p v ∙ ground arith), Distinct-snoc ps v d (ground arith))

pub add_parts-Distinct :
    (parts values : List Text) → Distinct parts → Distinct (add_parts parts values)
unfolding add_parts
add_parts-Distinct parts [] d = d
add_parts-Distinct parts (v ∷ vs) d = elim (Bool-cases (any (text_eq v) parts)) [
  | inl e ↦ subst⁻¹ Distinct (add_parts-present parts v vs e) (add_parts-Distinct parts vs d)
  | inr e ↦
      subst⁻¹ Distinct (add_parts-absent parts v vs e)
        (add_parts-Distinct (parts ++ (v ∷ [])) vs (Distinct-snoc parts v d e))
]

any-reverse :
    (v : Text) (parts : List Text)
    → any (text_eq v) parts ≡ false
    → any (text_eq v) (reverse parts) ≡ false
any-reverse v [] e = refl
any-reverse v (p ∷ ps) e =
    subst⁻¹ (λ qs. any (text_eq v) qs ≡ false) (reverse-cons p ps)
      (any-snoc v (reverse ps) p (any-reverse v ps (ground arith)) (ground arith))

pub reverse-Distinct : (parts : List Text) → Distinct parts → Distinct (reverse parts)
reverse-Distinct [] d = tt
reverse-Distinct (p ∷ ps) (new, d) =
    subst⁻¹ Distinct (reverse-cons p ps)
      (Distinct-snoc (reverse ps) p (reverse-Distinct ps d) (any-reverse p ps new))
