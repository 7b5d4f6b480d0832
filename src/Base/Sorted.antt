-- ===== src/Base/Sorted.antt =====
-- What sorting by falling numbers gives.
use Prim.Native.Nat.{ℕ, ◌≤◌}
use mathlib.Core.Bool.{Bool}
use mathlib.Core.List.{List, [], ◌∷◌, Perm}
use mathlib.Core.List.Perm
use native.Mathlib.Omega.{arith}
use rmc_spock.Base.Tests.{ltb, if_cases}
use rmc_spock.Base.Lists.{All, All-map}
use rmc_spock.Base.Sort.{insert_sorted, sort_by, All-insert_sorted}

module _ {A : Type 0} where
  insert_sorted-perm :
      (before : A → A → Bool) (a : A) (xs : List A) → Perm (insert_sorted before a xs) (a ∷ xs)
  unfolding insert_sorted
  insert_sorted-perm before a [] = Perm.refl (a ∷ [])
  insert_sorted-perm before a (x ∷ xs) =
      if_cases (λ l. Perm l (a ∷ x ∷ xs)) (before x a) (x ∷ insert_sorted before a xs) (a ∷ x ∷ xs)
        (λ _. Perm.trans (Perm.cons x (insert_sorted-perm before a xs)) (Perm.swap a x xs))
        (λ _. Perm.refl (a ∷ x ∷ xs))

  pub sort_by-perm : (before : A → A → Bool) (xs : List A) → Perm (sort_by before xs) xs
  unfolding sort_by
  sort_by-perm before [] = Perm.refl []
  sort_by-perm before (x ∷ xs) =
      Perm.trans (insert_sorted-perm before x (sort_by before xs))
        (Perm.cons x (sort_by-perm before xs))

  module _ (key : A → ℕ) where
    abbrev pub larger_first : A → A → Bool
    larger_first a b = ltb (key b) (key a)

    -- The keys do not rise.
    abbrev pub Falling : List A → Type 0
    Falling [] = Unit {0}
    Falling (x ∷ xs) = All (λ y. key y ≤ key x) xs × Falling xs

    insert_sorted-Falling :
        (a : A) (xs : List A) → Falling xs → Falling (insert_sorted larger_first a xs)
    unfolding insert_sorted
    insert_sorted-Falling a [] h = (tt, tt)
    insert_sorted-Falling a (x ∷ xs) (below, h) =
        if_cases Falling (larger_first x a) (x ∷ insert_sorted larger_first a xs) (a ∷ x ∷ xs)
          (λ e. (
            All-insert_sorted (λ y. key y ≤ key x) larger_first a xs (ground arith) below,
            insert_sorted-Falling a xs h,
          ))
          (λ e.
            let low : key x ≤ key a = ground arith in
            ((low, All-map (λ y k. omega arith) xs below), (below, h)))

    pub sort_by-Falling : (xs : List A) → Falling (sort_by larger_first xs)
    unfolding sort_by
    sort_by-Falling [] = tt
    sort_by-Falling (x ∷ xs) =
        insert_sorted-Falling x (sort_by larger_first xs) (sort_by-Falling xs)
