-- ===== src/Base/Distinct.antt =====
-- Lists without repetitions, and the elements of a list that pass a test.
use mathlib.Core.Path.{◌≡◌, sym, ap, subst, ◌∙◌}
use mathlib.Core.Logic.{inl, inr}
use mathlib.Core.Bool.{Bool, true, false}
use mathlib.Core.List.{List, [], ◌∷◌}
use rmc_spock.Base.Tests.{if_cases}
use rmc_spock.Base.Lists.{In, keep}

-- No element stands twice in the list.
abbrev pub AllDistinct : {A : Type 0} → List A → Type 0
AllDistinct [] = Unit {0}
AllDistinct (x ∷ xs) = (¬ In x xs) × AllDistinct xs

pub true-false : true ≡ false → ⊥
true-false e = cc

module _ {A : Type 0} (p : A → Bool) where
  pub In-keep : (xs : List A) (a : A) → In a xs → p a ≡ true → In a (keep p xs)
  In-keep [] a m h = m
  In-keep (x ∷ xs) a (inl e) h =
      if_cases (In a) (p x) (x ∷ keep p xs) (keep p xs) (λ _. inl e)
        (λ no. absurd (true-false (sym h ∙ (ap p e ∙ no))))
  In-keep (x ∷ xs) a (inr m) h =
      let later = In-keep xs a m h in
      if_cases (In a) (p x) (x ∷ keep p xs) (keep p xs) (λ _. inr later) (λ _. later)

  pub keep-In : (xs : List A) (a : A) → In a (keep p xs) → In a xs × (p a ≡ true)
  keep-In [] a = λ m. absurd m
  keep-In (x ∷ xs) a =
      if_cases (λ l. In a l → In a (x ∷ xs) × (p a ≡ true)) (p x) (x ∷ keep p xs) (keep p xs)
        (λ h m. elim m [
          | inl e ↦ (inl e, subst (λ y. p y ≡ true) (sym e) h)
          | inr n ↦ (inr (keep-In xs a n).0, (keep-In xs a n).1)
        ])
        (λ _ m. (inr (keep-In xs a m).0, (keep-In xs a m).1))

  pub keep-AllDistinct : (xs : List A) → AllDistinct xs → AllDistinct (keep p xs)
  keep-AllDistinct [] d = tt
  keep-AllDistinct (x ∷ xs) (fresh, d) =
      if_cases AllDistinct (p x) (x ∷ keep p xs) (keep p xs)
        (λ _. (λ m. fresh (keep-In xs x m).0, keep-AllDistinct xs d)) (λ _. keep-AllDistinct xs d)
