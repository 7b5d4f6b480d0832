-- ===== src/Base/Sort.antt =====
-- `std::sort` and `std::unique`. The standard leaves the order of equivalent elements open; this is
-- one order that it allows.
use mathlib.Core.Bool.{Bool, true, false}
use mathlib.Core.List.{List, [], ◌∷◌}
use rmc_spock.Base.Tests.{if◌then◌else◌}
use rmc_spock.Base.Lists.{All}

module _ {ℓ} {A : Type ℓ} where
  unfoldable pub insert_sorted : (A → A → Bool) → A → List A → List A
  insert_sorted before a [] = a ∷ []
  insert_sorted before a (x ∷ xs) = if before x a then x ∷ insert_sorted before a xs else a ∷ x ∷ xs

  unfoldable pub sort_by : (A → A → Bool) → List A → List A
  unfolding insert_sorted
  sort_by before [] = []
  sort_by before (x ∷ xs) = insert_sorted before x (sort_by before xs)

  -- The elements that do not equal the one kept before them.
  unfoldable pub unique_after : (A → A → Bool) → A → List A → List A
  unique_after same a [] = []
  unique_after same a (x ∷ xs) =
      if same a x then unique_after same a xs else x ∷ unique_after same x xs

  unfoldable pub unique_by : (A → A → Bool) → List A → List A
  unfolding unique_after
  unique_by same [] = []
  unique_by same (x ∷ xs) = x ∷ unique_after same x xs

module _ {ℓ κ} {A : Type ℓ} (P : A → Type κ) where
  pub All-insert_sorted :
      (before : A → A → Bool) (a : A) (xs : List A)
      → P a
      → All P xs
      → All P (insert_sorted before a xs)
  unfolding insert_sorted
  All-insert_sorted before a [] pa h = (pa, tt)
  All-insert_sorted before a (x ∷ xs) pa h =
      elim (before x a) as (λ b. All P (if b then x ∷ insert_sorted before a xs else a ∷ x ∷ xs)) [
        | true ↦ (h.0, All-insert_sorted before a xs pa h.1)
        | false ↦ (pa, h)
      ]

  -- Sorting keeps what holds of every element.
  pub All-sort_by : (before : A → A → Bool) (xs : List A) → All P xs → All P (sort_by before xs)
  unfolding sort_by
  All-sort_by before [] h = h
  All-sort_by before (x ∷ xs) h =
      All-insert_sorted before x (sort_by before xs) h.0 (All-sort_by before xs h.1)

  All-unique_after :
      (same : A → A → Bool) (a : A) (xs : List A) → All P xs → All P (unique_after same a xs)
  unfolding unique_after
  All-unique_after same a [] h = h
  All-unique_after same a (x ∷ xs) h =
      elim (same a x)
        as (λ b. All P (if b then unique_after same a xs else x ∷ unique_after same x xs)) [
          | true ↦ All-unique_after same a xs h.1
          | false ↦ (h.0, All-unique_after same x xs h.1)
        ]

  pub All-unique_by : (same : A → A → Bool) (xs : List A) → All P xs → All P (unique_by same xs)
  unfolding unique_by
  All-unique_by same [] h = h
  All-unique_by same (x ∷ xs) h = (h.0, All-unique_after same x xs h.1)
