-- ===== src/Base/Lists.antt =====
-- Lists measured and indexed by native numbers, and the loops over them that the source writes.
use Prim.Native.Nat.{ℕ, zero, suc, ◌+◌}
use mathlib.Core.Path.{◌≡◌, refl, ap, sym, subst}
use mathlib.Core.Logic.{◌⊎◌, inl, inr}
use mathlib.Core.Bool.{Bool, true, false, ◌&&◌, ◌||◌}
use mathlib.Core.List.{List, [], ◌∷◌, ◌++◌}
use mathlib.Core.Option.{Option, none, some}
use native.Mathlib.Omega.{arith}
use rmc_spock.Base.Tests.{if◌then◌else◌, leb}

module _ {ℓ} {A : Type ℓ} where
  abbrev pub length : List A → ℕ
  length [] = 0
  length (x ∷ xs) = suc (length xs)

  abbrev pub get_elem? : List A → ℕ → Option A
  get_elem? [] i = none
  get_elem? (x ∷ xs) zero = some x
  get_elem? (x ∷ xs) (suc i) = get_elem? xs i

  abbrev pub take : ℕ → List A → List A
  take zero xs = []
  take (suc n) [] = []
  take (suc n) (x ∷ xs) = x ∷ take n xs

  abbrev pub is_empty : List A → Bool
  is_empty [] = true
  is_empty (x ∷ xs) = false

  -- A loop that stops at the first element that passes.
  abbrev pub any : (A → Bool) → List A → Bool
  any p [] = false
  any p (x ∷ xs) = p x || any p xs

  abbrev pub all : (A → Bool) → List A → Bool
  all p [] = true
  all p (x ∷ xs) = p x && all p xs

  -- The elements that pass, in their order.
  abbrev pub keep : (A → Bool) → List A → List A
  keep p [] = []
  keep p (x ∷ xs) = if p x then x ∷ keep p xs else keep p xs

  pub length-append : (xs ys : List A) → length (xs ++ ys) ≡ length xs + length ys
  length-append [] ys = omega arith
  length-append (x ∷ xs) ys = omega (arith, length-append xs ys)

  pub take-append : (xs ys : List A) → take (length xs) (xs ++ ys) ≡ xs
  take-append [] ys = refl
  take-append (x ∷ xs) ys = ap (λ l. x ∷ l) (take-append xs ys)

  abbrev pub All {κ} : (A → Type κ) → List A → Type κ
  All P [] = Unit
  All P (x ∷ xs) = P x × All P xs

-- Membership with the place kept.
abbrev pub In : {A : Type 0} → A → List A → Type 0
In a [] = ⊥
In a (x ∷ xs) = (a ≡ x) ⊎ In a xs

module _ {ℓ κ} {A : Type ℓ} (P : A → Type κ) where
  pub All-append : (xs ys : List A) → All P xs → All P ys → All P (xs ++ ys)
  All-append [] ys hx hy = hy
  All-append (x ∷ xs) ys hx hy = (hx.0, All-append xs ys hx.1 hy)

  pub All-left : (xs ys : List A) → All P (xs ++ ys) → All P xs
  All-left [] ys h = tt
  All-left (x ∷ xs) ys h = (h.0, All-left xs ys h.1)

  pub All-right : (xs ys : List A) → All P (xs ++ ys) → All P ys
  All-right [] ys h = h
  All-right (x ∷ xs) ys h = All-right xs ys h.1

module _ {ℓ κ μ} {A : Type ℓ} {P : A → Type κ} {Q : A → Type μ} where
  pub All-map : ((a : A) → P a → Q a) → (xs : List A) → All P xs → All Q xs
  All-map f [] h = tt
  All-map f (x ∷ xs) h = (f x h.0, All-map f xs h.1)

module _ {ℓ κ μ ν} {A : Type ℓ} {P : A → Type κ} {Q : A → Type μ} {R : A → Type ν} where
  pub All-zip : ((a : A) → P a → Q a → R a) → (xs : List A) → All P xs → All Q xs → All R xs
  All-zip f [] h k = tt
  All-zip f (x ∷ xs) h k = (f x h.0 k.0, All-zip f xs h.1 k.1)

module _ {ℓ} {A : Type ℓ} where
  pub is_empty-snoc : (xs : List A) (a : A) → is_empty (xs ++ (a ∷ [])) ≡ false
  is_empty-snoc [] a = refl
  is_empty-snoc (x ∷ xs) a = refl

pub In-middle : {A : Type 0} (xs : List A) (a : A) (ys : List A) → In a (xs ++ (a ∷ ys))
In-middle [] a ys = inl refl
In-middle (x ∷ xs) a ys = inr (In-middle xs a ys)

pub In-right : {A : Type 0} (xs : List A) (a : A) (ys : List A) → In a ys → In a (xs ++ ys)
In-right [] a ys h = h
In-right (x ∷ xs) a ys h = inr (In-right xs a ys h)

pub All-In {κ} : {A : Type 0} (P : A → Type κ) (xs : List A) → ((a : A) → In a xs → P a) → All P xs
All-In P [] h = tt
All-In P (x ∷ xs) h = (h x (inl refl), All-In P xs (λ a m. h a (inr m)))

pub In-left : {A : Type 0} (xs : List A) (a : A) (ys : List A) → In a xs → In a (xs ++ ys)
In-left (x ∷ xs) a ys (inl e) = inl e
In-left (x ∷ xs) a ys (inr h) = inr (In-left xs a ys h)
In-left [] a ys h = absurd h

-- Of a list with one element in the middle: the element, or one of the others.
pub In-cases :
    {A : Type 0} (xs : List A) (b : A) (ys : List A) (a : A)
    → In a (xs ++ (b ∷ ys))
    → (a ≡ b) ⊎ ((c : A) → In a (xs ++ (c ∷ ys)))
In-cases [] b ys a (inl e) = inl e
In-cases [] b ys a (inr h) = inr (λ c. inr h)
In-cases (x ∷ xs) b ys a (inl e) = inr (λ c. inl e)
In-cases (x ∷ xs) b ys a (inr h) = elim (In-cases xs b ys a h) [
  | inl e ↦ inl e
  | inr k ↦ inr (λ c. inr (k c))
]

pub All-at {κ} : {A : Type 0} (P : A → Type κ) (xs : List A) (a : A) → All P xs → In a xs → P a
All-at P (x ∷ xs) a h (inl e) = subst P (sym e) h.0
All-at P (x ∷ xs) a h (inr m) = All-at P xs a h.1 m
All-at P [] a h m = absurd m

module _ {ℓ} {A : Type ℓ} where
  pub length-take : (n : ℕ) (xs : List A) → leb n (length xs) ≡ true → length (take n xs) ≡ n
  length-take zero xs h = refl
  length-take (suc n) [] h = ground arith
  length-take (suc n) (x ∷ xs) h = ap suc (length-take n xs (ground arith))

  pub take-length : (xs : List A) → take (length xs) xs ≡ xs
  take-length [] = refl
  take-length (x ∷ xs) = ap (λ l. x ∷ l) (take-length xs)

module _ {ℓ κ} {A : Type ℓ} (P : A → Type κ) where
  pub All-get_elem? : (xs : List A) (n : ℕ) (a : A) → All P xs → get_elem? xs n ≡ some a → P a
  All-get_elem? [] n a h e = absurd (none-some e)
    where
      none-some : none ≡ some a → ⊥
      none-some e = cc
  All-get_elem? (x ∷ xs) zero a h e = subst P (some_inj e) h.0
    where
      some_inj : some x ≡ some a → x ≡ a
      some_inj e = cc
  All-get_elem? (x ∷ xs) (suc n) a h e = All-get_elem? xs n a h.1 e

  -- What holds of the first elements and of the next one holds of one element more.
  pub All-take_next :
      (xs ys : List A) (n : ℕ) (a : A)
      → All P (take n xs)
      → get_elem? xs n ≡ some a
      → P a
      → All P (take (suc n) (xs ++ ys))
  All-take_next [] ys n a h e p = absurd (none-some e)
    where
      none-some : none ≡ some a → ⊥
      none-some e = cc
  All-take_next (x ∷ xs) ys zero a h e p = (subst P (some_inj (sym e)) p, tt)
    where
      some_inj : some a ≡ some x → a ≡ x
      some_inj e = cc
  All-take_next (x ∷ xs) ys (suc n) a h e p = (h.0, All-take_next xs ys n a h.1 e p)

pub In-append : {A : Type 0} (xs ys : List A) (a : A) → In a (xs ++ ys) → In a xs ⊎ In a ys
In-append [] ys a h = inr h
In-append (x ∷ xs) ys a (inl e) = inl (inl e)
In-append (x ∷ xs) ys a (inr h) = elim (In-append xs ys a h) [ inl k ↦ inl (inr k) | inr k ↦ inr k ]
