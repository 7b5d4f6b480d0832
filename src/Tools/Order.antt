-- ===== src/Tools/Order.antt =====
-- Sorting by texts, and leaving out what repeats a text.
use rmc_spock.Base.{
  Bool, true, false, List, [], ◌∷◌, Text, text_eq, text_lt, text_eq_iff, text_lt_asymm,
  text_lt_trans, text_lt_total, sort_by, insert_sorted, unique_by, unique_after, All, All-map,
  All-insert_sorted, ◌≡◌, sym, ap, In, ◌⊎◌, subst, ◌∙◌, Bool-cases, inl, inr, if_cases,
}

module _ {A : Type 0} (key : A → Text) where
  abbrev pub before : A → A → Bool
  before a b = text_lt (key a) (key b)

  abbrev pub same : A → A → Bool
  same a b = text_eq (key a) (key b)

  abbrev Sorted : List A → Type 0
  Sorted [] = Unit {0}
  Sorted (x ∷ xs) = All (λ y. before y x ≡ false) xs × Sorted xs

  -- Each text is less than all behind it.
  abbrev pub IsIncreasing : List A → Type 0
  IsIncreasing [] = Unit {0}
  IsIncreasing (x ∷ xs) = All (λ y. before x y ≡ true) xs × IsIncreasing xs

  not_before_trans : (a x y : A) → before x a ≡ false → before y x ≡ false → before y a ≡ false
  not_before_trans a x y h k = elim (Bool-cases (before y a)) [
    | inr no_less ↦ no_less
    | inl less ↦ elim (Bool-cases (before x y)) [
      | inl up ↦ absurd (cc (text_lt_trans (key x) (key y) (key a) up less))
      | inr level ↦
          let equal = text_lt_total (key x) (key y) level k in
          absurd (cc (subst (λ t. text_lt t (key a) ≡ true) (sym equal) less))
    ]
  ]

  insert_sorted-Sorted : (a : A) (xs : List A) → Sorted xs → Sorted (insert_sorted before a xs)
  unfolding insert_sorted
  insert_sorted-Sorted a [] h = (tt, tt)
  insert_sorted-Sorted a (x ∷ xs) h =
      let rest = insert_sorted-Sorted a xs h.1 in
      if_cases Sorted (before x a) (x ∷ insert_sorted before a xs) (a ∷ x ∷ xs)
        (λ less. (
          All-insert_sorted (λ y. before y x ≡ false) before a xs
              (text_lt_asymm (key x) (key a) less) h.0,
          rest,
        ))
        (λ no_less. ((no_less, All-map (λ y k. not_before_trans a x y no_less k) xs h.0), h))

  sort_by-Sorted : (xs : List A) → Sorted (sort_by before xs)
  unfolding sort_by
  sort_by-Sorted [] = tt
  sort_by-Sorted (x ∷ xs) = insert_sorted-Sorted x (sort_by before xs) (sort_by-Sorted xs)

  next_is_greater : (a x : A) → before x a ≡ false → same a x ≡ false → before a x ≡ true
  next_is_greater a x h k = elim (Bool-cases (before a x)) [
    | inl less ↦ less
    | inr level ↦
        absurd (cc ((text_eq_iff (key a) (key x)).1 (text_lt_total (key a) (key x) level h)))
  ]

  unique_after-IsIncreasing :
      (a : A) (xs : List A)
      → All (λ y. before y a ≡ false) xs
      → Sorted xs
      → IsIncreasing (a ∷ unique_after same a xs)
  unfolding unique_after
  unique_after-IsIncreasing a [] h s = (tt, tt)
  unique_after-IsIncreasing a (x ∷ xs) h s =
      let skipped = unique_after-IsIncreasing a xs h.1 s.1 in
      let kept = unique_after-IsIncreasing x xs s.0 s.1 in
      if_cases (λ l. IsIncreasing (a ∷ l)) (same a x) (unique_after same a xs)
        (x ∷ unique_after same x xs) (λ _. skipped)
        (λ differ.
          let up = next_is_greater a x h.0 differ in
          (
            (
              up,
              All-map (λ y k. text_lt_trans (key a) (key x) (key y) up k) (unique_after same x xs)
                  kept.0,
            ),
            kept,
          ))

  unique_by-Sorted : (xs : List A) → Sorted xs → IsIncreasing (unique_by same xs)
  unfolding unique_by
  unique_by-Sorted [] h = tt
  unique_by-Sorted (x ∷ xs) h = unique_after-IsIncreasing x xs h.0 h.1

  pub unique_by-IsIncreasing : (xs : List A) → IsIncreasing (unique_by same (sort_by before xs))
  unique_by-IsIncreasing xs = unique_by-Sorted (sort_by before xs) (sort_by-Sorted xs)

  -- Some element has the text.
  abbrev pub HasText : Text → List A → Type 0
  HasText t [] = ⊥
  HasText t (x ∷ xs) = (t ≡ key x) ⊎ HasText t xs

  insert_sorted-HasText :
      (t : Text) (a : A) (xs : List A)
      → (t ≡ key a) ⊎ HasText t xs
      → HasText t (insert_sorted before a xs)
  unfolding insert_sorted
  insert_sorted-HasText t a [] h = h
  insert_sorted-HasText t a (x ∷ xs) h =
      let rest = insert_sorted-HasText t a xs in
      if_cases (HasText t) (before x a) (x ∷ insert_sorted before a xs) (a ∷ x ∷ xs)
        (λ _. elim h [
          | inl e ↦ inr (rest (inl e))
          | inr k ↦ elim k [ inl e ↦ inl e | inr m ↦ inr (rest (inr m)) ]
        ])
        (λ _. h)

  sort_by-HasText : (t : Text) (xs : List A) → HasText t xs → HasText t (sort_by before xs)
  unfolding sort_by
  sort_by-HasText t [] h = h
  sort_by-HasText t (x ∷ xs) h =
      let rest = sort_by-HasText t xs in
      insert_sorted-HasText t x (sort_by before xs)
        (elim h [ inl e ↦ inl e | inr k ↦ inr (rest k) ])

  unique_after-HasText :
      (t : Text) (a : A) (xs : List A)
      → (t ≡ key a) ⊎ HasText t xs
      → (t ≡ key a) ⊎ HasText t (unique_after same a xs)
  unfolding unique_after
  unique_after-HasText t a [] h = h
  unique_after-HasText t a (x ∷ xs) h =
      let skipped = unique_after-HasText t a xs in
      let kept = unique_after-HasText t x xs in
      if_cases (λ l. (t ≡ key a) ⊎ HasText t l) (same a x) (unique_after same a xs)
        (x ∷ unique_after same x xs)
        (λ equal.
          let e' = (text_eq_iff (key a) (key x)).0 equal in
          elim h [
            | inl e ↦ inl e
            | inr k ↦ elim k [ inl e ↦ inl (e ∙ sym e') | inr m ↦ skipped (inr m) ]
          ])
        (λ _. elim h [ inl e ↦ inl e | inr k ↦ inr (kept k) ])

  unique_by-HasText : (t : Text) (xs : List A) → HasText t xs → HasText t (unique_by same xs)
  unfolding unique_by
  unique_by-HasText t [] h = h
  unique_by-HasText t (x ∷ xs) h = unique_after-HasText t x xs h

  pub arranged-HasText :
      (t : Text) (xs : List A) → HasText t xs → HasText t (unique_by same (sort_by before xs))
  arranged-HasText t xs h = unique_by-HasText t (sort_by before xs) (sort_by-HasText t xs h)

  pub In-HasText : (x : A) (xs : List A) → In x xs → HasText (key x) xs
  In-HasText x [] h = absurd h
  In-HasText x (y ∷ ys) (inl e) = inl (ap key e)
  In-HasText x (y ∷ ys) (inr k) = inr (In-HasText x ys k)
