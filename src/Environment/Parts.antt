-- ===== src/Environment/Parts.antt =====
-- How `split` of src/Spock/Environment.C cuts a text at its separators.
use rmc_spock.Base.{
  All, ℕ, zero, suc, ◌≤◌, ◌<◌, ◌≡◌, refl, ap, sym, subst, subst⁻¹, ◌∙◌, ◌⊎◌, inl, inr, true, false,
  Option, none, some, List, [], ◌∷◌, ◌++◌, append-nil, append_assoc, Text, is_empty, length,
  length-append, Bool-cases, Option-cases, ok, exhausted, ◌==◌, ==_iff, arith,
}
use rmc_spock.Environment.{strip_prefix, find_sep, put_before, split_within, split, join, join_more}

strip_prefix_lem : (p s t : Text) → strip_prefix p s ≡ some t → s ≡ p ++ t
unfolding strip_prefix
strip_prefix_lem [] s t e = cc
strip_prefix_lem (c ∷ p) [] t e = cc
strip_prefix_lem (c ∷ p) (d ∷ s) t e = elim (Bool-cases (c == d)) [
  | inl k ↦ rw ((==_iff c d).0 k) (ap (λ r. d ∷ r) (strip_prefix_lem p s t (same k)))
  | inr k ↦ absurd (other k)
]
  where
    same : (c == d) ≡ true → strip_prefix p s ≡ some t
    same k = ground (arith, e)

    other : (c == d) ≡ false → ⊥
    other k = ground (arith, e)

find_sep_lem :
    (sep s before after : Text)
    → find_sep sep s ≡ some (before, after)
    → s ≡ before ++ (sep ++ after)
unfolding find_sep
find_sep_lem sep [] before after e = cc
find_sep_lem sep (c ∷ s) before after e =
    go (find_sep_lem sep s) (strip_prefix sep (c ∷ s)) refl (find_sep sep s) refl e
  where
    go :
        ((b a : Text) → find_sep sep s ≡ some (b, a) → s ≡ b ++ (sep ++ a))
        → (o : Option Text) → strip_prefix sep (c ∷ s) ≡ o
        → (r : Option (Text × Text)) → find_sep sep s ≡ r
        → elim o as (λ x. Option (Text × Text)) [ some t ↦ some ([], t) | none ↦ put_before c r ]
          ≡ some (before, after)
        → c ∷ s ≡ before ++ (sep ++ after)
    go rec (some t) k r n q =
        let b : [] ≡ before = cc in
        let a : t ≡ after = cc in rw (← b, ← a) (strip_prefix_lem sep (c ∷ s) t k)
    go rec none k none n q = cc
    go rec none k (some (b, a)) n q =
        let first : c ∷ b ≡ before = cc in
        let second : a ≡ after = cc in rw (← first, ← second) (ap (λ r. c ∷ r) (rec b a n))

-- A separator that is not empty leaves less text.
find_sep-shorter :
    (sep s before after : Text)
    → is_empty sep ≡ false
    → find_sep sep s ≡ some (before, after)
    → length after < length s
find_sep-shorter [] s before after n e = cc
find_sep-shorter (d ∷ sep) s before after n e = omega (
  arith,
  ap length (find_sep_lem (d ∷ sep) s before after e),
  length-append before (d ∷ (sep ++ after)),
  length-append sep after,
)

-- The separator stands nowhere in the text.
abbrev pub Free : Text → Text → Type 0
Free sep s = (before after : Text) → s ≡ before ++ (sep ++ after) → ⊥

strip_prefix_same : (p t : Text) → strip_prefix p (p ++ t) ≡ some t
unfolding strip_prefix
strip_prefix_same [] t = refl
strip_prefix_same (c ∷ p) t = rw ((==_iff c c).1 refl, strip_prefix) (strip_prefix_same p t)

find_sep-here :
    (sep s t : Text)
    → is_empty sep ≡ false
    → strip_prefix sep s ≡ some t
    → find_sep sep s ≡ some ([], t)
unfolding find_sep
find_sep-here [] s t n e = cc
find_sep-here (d ∷ sep) [] t n e = let shape = strip_prefix_lem (d ∷ sep) [] t e in cc
find_sep-here (d ∷ sep) (c ∷ s) t n e = rw (e, find_sep) refl

-- A text with the separator in it is cut.
find_sep-holds :
    (sep before after : Text)
    → is_empty sep ≡ false
    → find_sep sep (before ++ (sep ++ after)) ≡ none
    → ⊥
unfolding find_sep
find_sep-holds sep [] after n e =
    let here = find_sep-here sep (sep ++ after) after n (strip_prefix_same sep after) in cc
find_sep-holds sep (c ∷ b) after n e =
    go (find_sep-holds sep b after n) (strip_prefix sep (c ∷ (b ++ (sep ++ after))))
      (find_sep sep (b ++ (sep ++ after))) refl e
  where
    go :
        (find_sep sep (b ++ (sep ++ after)) ≡ none → ⊥)
        → (o : Option Text) (r : Option (Text × Text)) → find_sep sep (b ++ (sep ++ after)) ≡ r
        → elim o as (λ x. Option (Text × Text)) [ some t ↦ some ([], t) | none ↦ put_before c r ]
          ≡ none
        → ⊥
    go rec (some t) r k q = cc
    go rec none none k q = rec k
    go rec none (some (x, y)) k q = cc

find_sep-Free : (sep s : Text) → is_empty sep ≡ false → find_sep sep s ≡ none → Free sep s
find_sep-Free sep s n e b a same =
    find_sep-holds sep b a n (subst (λ t. find_sep sep t ≡ none) same e)

Free-nil : (sep : Text) → is_empty sep ≡ false → Free sep []
Free-nil [] n b a e = cc
Free-nil (d ∷ sep) n [] a e = cc
Free-nil (d ∷ sep) n (c ∷ b) a e = cc

-- The first separator is found: there is none in the text before it.
find_sep-first :
    (sep s before after : Text)
    → is_empty sep ≡ false
    → find_sep sep s ≡ some (before, after)
    → Free sep before
unfolding find_sep
find_sep-first sep [] before after n e = cc
find_sep-first sep (c ∷ s) before after n e =
    go (find_sep-first sep s) (strip_prefix sep (c ∷ s)) refl (find_sep sep s) refl e
  where
    behind :
        (b a x y : Text)
        → ((b' a' : Text) → is_empty sep ≡ false → find_sep sep s ≡ some (b', a') → Free sep b')
        → strip_prefix sep (c ∷ s) ≡ none
        → find_sep sep s ≡ some (b, a)
        → c ∷ b ≡ x ++ (sep ++ y)
        → ⊥
    behind b a [] y rec k m q =
        let shape : c ∷ s ≡ sep ++ (y ++ (sep ++ a)) =
          ap (λ t. c ∷ t) (find_sep_lem sep s b a m)
          ∙ (ap (λ t. t ++ (sep ++ a)) q ∙ append_assoc sep y (sep ++ a)) in
        let found =
          subst⁻¹ (λ t. strip_prefix sep t ≡ some (y ++ (sep ++ a))) shape
            (strip_prefix_same sep (y ++ (sep ++ a))) in
        cc
    behind b a (d ∷ x) y rec k m q = rec b a n m x y (cc)

    go :
        ((b' a' : Text) → is_empty sep ≡ false → find_sep sep s ≡ some (b', a') → Free sep b')
        → (o : Option Text) → strip_prefix sep (c ∷ s) ≡ o
        → (r : Option (Text × Text)) → find_sep sep s ≡ r
        → elim o as (λ x. Option (Text × Text)) [ some t ↦ some ([], t) | none ↦ put_before c r ]
          ≡ some (before, after)
        → Free sep before
    go rec (some t) k r m q = let b : [] ≡ before = cc in subst (Free sep) b (Free-nil sep n)
    go rec none k none m q = cc
    go rec none k (some (b, a)) m q =
        let first : c ∷ b ≡ before = cc in
        subst (Free sep) first (λ x y e'. behind b a x y rec k m e')

-- The last of the parts is not empty.
abbrev pub Filled : List Text → Type 0
Filled [] = Unit {0}
Filled (p ∷ []) = is_empty p ≡ false
Filled (p ∷ q ∷ ps) = Filled (q ∷ ps)

-- The text is the parts with the separator between them, the last not being empty, or behind each
-- of them.
abbrev pub Cut : Text → List Text → Text → Type 0
Cut s parts sep =
    ((s ≡ join parts sep) × Filled parts) ⊎ ((is_empty parts ≡ false) × (s ≡ join parts sep ++ sep))

-- The text is cut at its separators: it is its parts, and none of them holds the separator.
abbrev pub IsSplit : Text → List Text → Text → Type 0
IsSplit s parts sep = Cut s parts sep × All (Free sep) parts

Cut-step :
    (before sep after : Text) (parts : List Text)
    → Cut after parts sep
    → Cut (before ++ (sep ++ after)) (before ∷ parts) sep
unfolding join
Cut-step before sep after [] (inl (e, d)) =
    inr (refl, rw (e, append-nil sep, append-nil before) refl)
Cut-step before sep after (p ∷ ps) (inl (e, d)) = inl (rw e refl, d)
Cut-step before sep after [] (inr (n, e)) = cc
Cut-step before sep after (p ∷ ps) (inr (n, e)) =
    let j = p ++ join_more ps sep in
    inr (
      refl,
      rw e (
          sym
            (append_assoc before (sep ++ j) sep ∙ ap (λ t. before ++ t) (append_assoc sep j sep))),
    )

split_within_lem :
    (f : ℕ) (s sep : Text)
    → length s ≤ f
    → is_empty sep ≡ false
    → (parts : List Text) × (split_within f s sep ≡ ok parts) × IsSplit s parts sep
unfolding split_within join
split_within_lem f [] sep h n = ([], refl, (inl (refl, tt), tt))
split_within_lem zero (c ∷ s) sep h n = absurd (omega (arith, h))
split_within_lem (suc f) (c ∷ s) sep h n = elim (Option-cases (find_sep sep (c ∷ s))) [
  | inl e ↦ (
    (c ∷ s) ∷ [],
    rw (split_within, e) refl,
    (inl (sym (append-nil (c ∷ s)), refl), (find_sep-Free sep (c ∷ s) n e, tt)),
  )
  | inr ((before, after), e) ↦
      let shorter = find_sep-shorter sep (c ∷ s) before after n e in
      let (parts, e', (cut, free)) = split_within_lem f after sep (omega (arith, shorter, h)) n in
      (
        before ∷ parts,
        rw (split_within, e, e') refl,
        (
          subst⁻¹ (λ t. Cut t (before ∷ parts) sep) (find_sep_lem sep (c ∷ s) before after e)
              (Cut-step before sep after parts cut),
          (find_sep-first sep (c ∷ s) before after n e, free),
        ),
      )
]

-- With a separator that is not empty `split` always returns, no part holds the separator, and the text
-- is the parts with the separator between them, the last part not being empty, or behind each of them.
pub split_lem :
    (s sep : Text)
    → is_empty sep ≡ false
    → (parts : List Text) × (split s sep ≡ ok parts) × IsSplit s parts sep
unfolding split
split_lem s sep n = split_within_lem (length s) s sep (omega arith) n

-- With the empty separator `split` of a text that is not empty uses up any fuel.
split_within-empty : (f c : ℕ) (s : Text) → split_within f (c ∷ s) [] ≡ exhausted
unfolding split_within find_sep strip_prefix
split_within-empty zero c s = refl
split_within-empty (suc f) c s = rw (split_within-empty f c s) refl
