-- ===== src/Version/Order.antt =====
-- How `operator==`, `operator-` and `operator<` of src/Spock/VersionNumber.C behave as relations.
use rmc_spock.Base.{
  ℕ, suc, ◌<◌, ◌≡◌, refl, ap, sym, ◌∙◌, ◌≢◌, ◌↔◌, inl, inr, Bool, true, false, none, some, List, [],
  ◌∷◌, ◌++◌, Text, text_eq, text_lt, text_eq_sound, text_eq_refl, text_eq_comm, text_lt_irrefl,
  text_lt_asymm, text_lt_trans, append-nil, length, length-append, ltb, Bool-cases, arith,
}
use rmc_spock.Libraries.{VersionNumber}
use rmc_spock.Version.{
  equal_range, version_eq, extends, whole_number, part_decides, first_difference, version_lt,
}

equal_range_sound : (xs ys : List Text) → length xs ≡ length ys → equal_range xs ys ≡ true → xs ≡ ys
unfolding equal_range
equal_range_sound [] [] n h = refl
equal_range_sound [] (y ∷ ys) n h = absurd (omega arith)
equal_range_sound (x ∷ xs) [] n h = absurd (omega arith)
equal_range_sound (x ∷ xs) (y ∷ ys) n h = ground (arith, text_eq_sound x y, equal_range_sound xs ys)

equal_range_prefix :
    (xs ys : List Text) → equal_range xs ys ≡ true → (zs : List Text) × (ys ≡ xs ++ zs)
unfolding equal_range
equal_range_prefix [] ys h = (ys, refl)
equal_range_prefix (x ∷ xs) [] h = cc
equal_range_prefix (x ∷ xs) (y ∷ ys) h =
    let both : (text_eq x y ≡ true) × (equal_range xs ys ≡ true) = ground arith in
    let (zs, e) = equal_range_prefix xs ys both.1 in (zs, cc (text_eq_sound x y both.0))

equal_range-append : (xs zs : List Text) → equal_range xs (xs ++ zs) ≡ true
unfolding equal_range
equal_range-append [] zs = refl
equal_range-append (x ∷ xs) zs = ground (arith, text_eq_refl x, equal_range-append xs zs)

equal_range_refl : (xs : List Text) → equal_range xs xs ≡ true
unfolding equal_range
equal_range_refl [] = refl
equal_range_refl (x ∷ xs) = ground (arith, text_eq_refl x, equal_range_refl xs)

pub version_eq_sound : (v w : VersionNumber) → version_eq v w ≡ true → v ≡ w
unfolding version_eq
version_eq_sound v w h = ground (arith, equal_range_sound v.parts w.parts)

pub version_eq_refl : (v : VersionNumber) → version_eq v v ≡ true
unfolding version_eq
version_eq_refl v = ground (arith, equal_range_refl v.parts)

-- `==` holds of equal versions and of no others.
pub version_eq_iff : (v w : VersionNumber) → (version_eq v w ≡ true) ↔ (v ≡ w)
version_eq_iff v w = (version_eq_sound v w, λ e. rw (← e) (version_eq_refl v))

-- `v - w` holds just where the parts of `v` are those of `w` and then any more.
pub extends_iff :
    (v w : VersionNumber)
    → ((extends v w ≡ true) → (zs : List Text) × (v.parts ≡ w.parts ++ zs))
      × ((zs : List Text) → v.parts ≡ w.parts ++ zs → extends v w ≡ true)
unfolding extends
extends_iff v w = (
  λ h. equal_range_prefix w.parts v.parts (ground arith),
  λ zs e. rw e (ground (arith, length-append w.parts zs, equal_range-append w.parts zs)),
)

part_asymm : (x y : Text) → part_decides x y ≡ some true → part_decides y x ≡ some false
unfolding part_decides
part_asymm x y h = ground (arith, text_eq_comm x y, text_lt_asymm x y)

part_same : (x : Text) → part_decides x x ≡ none
unfolding part_decides
part_same x = ground (arith, text_eq_refl x)

part_symm : (x y : Text) → part_decides x y ≡ none → part_decides y x ≡ none
unfolding part_decides
part_symm x y h = ground (arith, text_eq_comm x y)

abbrev before : List Text → List Text → Bool
before xs ys = elim (first_difference xs ys) [ some b ↦ b | none ↦ ltb (length xs) (length ys) ]

before-cons :
    (x : Text) (xs : List Text) (y : Text) (ys : List Text)
    → before (x ∷ xs) (y ∷ ys) ≡ elim (part_decides x y) [ none ↦ before xs ys | some b ↦ b ]
unfolding first_difference
before-cons x xs y ys = ground arith

before_nil : (xs : List Text) → before xs [] ≢ true
unfolding first_difference
before_nil [] h = ground arith
before_nil (x ∷ xs) h = ground arith

version_lt-before : (v w : VersionNumber) → version_lt v w ≡ before v.parts w.parts
unfolding version_lt
version_lt-before v w = ground arith

before_asymm : (xs ys : List Text) → before xs ys ≡ true → before ys xs ≡ false
unfolding first_difference
before_asymm [] [] h = ground arith
before_asymm [] (y ∷ ys) h = ground arith
before_asymm (x ∷ xs) [] h = ground arith
before_asymm (x ∷ xs) (y ∷ ys) h = ground (
  arith,
  before-cons x xs y ys,
  before-cons y ys x xs,
  part_asymm x y,
  part_symm x y,
  before_asymm xs ys,
)

-- No two versions are each less than the other, and so none is less than itself.
pub version_lt_asymm : (v w : VersionNumber) → version_lt v w ≡ true → version_lt w v ≡ false
version_lt_asymm v w h =
    ground (arith, version_lt-before v w, version_lt-before w v, before_asymm v.parts w.parts)

pub version_lt_irrefl : (v : VersionNumber) → version_lt v v ≡ false
version_lt_irrefl v = ground (arith, version_lt_asymm v v)

pub extends_refl : (v : VersionNumber) → extends v v ≡ true
extends_refl v = (extends_iff v v).1 [] (sym (append-nil v.parts))

before_extended : (xs zs : List Text) → before (xs ++ zs) xs ≡ false
unfolding first_difference
before_extended [] [] = ground arith
before_extended [] (z ∷ zs) = ground arith
before_extended (x ∷ xs) zs =
    ground (arith, before-cons x (xs ++ zs) x xs, part_same x, before_extended xs zs)

-- A version is not less than one that it extends.
pub extends-ge : (v w : VersionNumber) → extends v w ≡ true → version_lt v w ≡ false
extends-ge v w h =
    let (zs, e) = (extends_iff v w).0 h in version_lt-before v w ∙ rw e (before_extended w.parts zs)

unfoldable pub is_whole : Text → Bool
is_whole x = elim (whole_number x) [ some n ↦ true | none ↦ false ]

-- Which positions hold whole numbers.
abbrev pub IsShaped : (ℕ → Bool) → List Text → Type 0
IsShaped k [] = Unit {0}
IsShaped k (x ∷ xs) = (is_whole x ≡ k 0) × IsShaped (λ n. k (suc n)) xs

part_trans :
    (b : Bool) (x y z : Text)
    → is_whole x ≡ b
    → is_whole y ≡ b
    → is_whole z ≡ b
    → part_decides x y ≡ some true
    → part_decides y z ≡ some true
    → part_decides x z ≡ some true
unfolding part_decides is_whole
part_trans b x y z p q r h k = ground (
  arith,
  text_lt_trans x y z,
  text_lt_asymm x y,
  text_eq_sound x z,
  text_eq_sound x y,
  text_eq_sound y z,
)

part_trans_left :
    (b : Bool) (x y z : Text)
    → is_whole x ≡ b
    → is_whole y ≡ b
    → is_whole z ≡ b
    → part_decides x y ≡ none
    → part_decides x z ≡ part_decides y z
unfolding part_decides is_whole
part_trans_left b x y z p q r h = elim (Bool-cases b) [
  | inl whole ↦ ground arith
  | inr text ↦ ground (arith, text_eq_sound x y)
]

part_trans_right :
    (b : Bool) (x y z : Text)
    → is_whole x ≡ b
    → is_whole y ≡ b
    → is_whole z ≡ b
    → part_decides y z ≡ none
    → part_decides x z ≡ part_decides x y
unfolding part_decides is_whole
part_trans_right b x y z p q r h = elim (Bool-cases b) [
  | inl whole ↦ ground arith
  | inr text ↦ ground (arith, text_eq_sound y z)
]

before_trans :
    (k : ℕ → Bool) (xs ys zs : List Text)
    → IsShaped k xs
    → IsShaped k ys
    → IsShaped k zs
    → before xs ys ≡ true
    → before ys zs ≡ true
    → before xs zs ≡ true
unfolding first_difference
before_trans k xs ys [] p q r h l = absurd (before_nil ys l)
before_trans k [] ys (z ∷ zs) p q r h l = ground arith
before_trans k (x ∷ xs) [] (z ∷ zs) p q r h l = absurd (before_nil (x ∷ xs) h)
before_trans k (x ∷ xs) (y ∷ ys) (z ∷ zs) p q r h l = ground (
  arith,
  before-cons x xs y ys,
  before-cons y ys z zs,
  before-cons x xs z zs,
  part_trans (k 0) x y z p.0 q.0 r.0,
  part_trans_left (k 0) x y z p.0 q.0 r.0,
  part_trans_right (k 0) x y z p.0 q.0 r.0,
  before_trans (λ n. k (suc n)) xs ys zs p.1 q.1 r.1,
)

-- Among versions that have whole numbers at the same positions, `<` is transitive.
pub version_lt_trans :
    (k : ℕ → Bool) (u v w : VersionNumber)
    → IsShaped k u.parts
    → IsShaped k v.parts
    → IsShaped k w.parts
    → version_lt u v ≡ true
    → version_lt v w ≡ true
    → version_lt u w ≡ true
version_lt_trans k u v w p q r h l = ground (
  arith,
  version_lt-before u v,
  version_lt-before v w,
  version_lt-before u w,
  before_trans k u.parts v.parts w.parts p q r,
)

-- Versions that differ in one part only are compared by that part.
before_shared :
    (xs : List Text) (x y : Text) (b : Bool)
    → part_decides x y ≡ some b
    → before (xs ++ x ∷ []) (xs ++ y ∷ []) ≡ b
unfolding first_difference
before_shared [] x y b h = ground (arith, before-cons x [] y [])
before_shared (a ∷ xs) x y b h =
    ground
      (arith, before-cons a (xs ++ x ∷ []) a (xs ++ y ∷ []), part_same a, before_shared xs x y b h)

before_undecided :
    (xs : List Text) (x y : Text)
    → part_decides x y ≡ none
    → before (xs ++ x ∷ []) (xs ++ y ∷ []) ≡ false
unfolding first_difference
before_undecided [] x y h = ground (arith, before-cons x [] y [])
before_undecided (a ∷ xs) x y h =
    ground
      (arith, before-cons a (xs ++ x ∷ []) a (xs ++ y ∷ []), part_same a, before_undecided xs x y h)

last_injective : (xs : List Text) (x y : Text) → xs ++ x ∷ [] ≡ xs ++ y ∷ [] → x ≡ y
last_injective [] x y e = cc
last_injective (a ∷ xs) x y e = last_injective xs x y (cc)

abbrev pub with_last : List Text → Text → VersionNumber
with_last xs x = record { parts = xs ++ x ∷ [] }

-- The order has cycles: where whole numbers `m < n` stand beside a part `c` that is no whole
-- number, and that stands between `n` and `m` as a text, each of the three is less than the next.
pub version_lt_cycle :
    (xs : List Text) (x y c : Text) (m n : ℕ)
    → whole_number x ≡ some m
    → whole_number y ≡ some n
    → whole_number c ≡ none
    → m < n
    → text_lt y c ≡ true
    → text_lt c x ≡ true
    → (version_lt (with_last xs x) (with_last xs y) ≡ true)
      × (version_lt (with_last xs y) (with_last xs c) ≡ true)
      × (version_lt (with_last xs c) (with_last xs x) ≡ true)
unfolding part_decides
version_lt_cycle xs x y c m n p q r lt yc cx = (
  version_lt-before _ _ ∙ before_shared xs x y true (ground arith),
  version_lt-before _ _
      ∙ before_shared xs y c true (ground (arith, text_eq_sound y c, text_lt_irrefl y)),
  version_lt-before _ _
      ∙ before_shared xs c x true (ground (arith, text_eq_sound c x, text_lt_irrefl x)),
)

-- Two spellings of one number, as in 1.5 and 1.05, make versions that are not equal although
-- neither is less than the other.
pub version_lt_ambiguous :
    (xs : List Text) (x y : Text) (n : ℕ)
    → whole_number x ≡ some n
    → whole_number y ≡ some n
    → x ≢ y
    → (version_lt (with_last xs x) (with_last xs y) ≡ false)
      × (version_lt (with_last xs y) (with_last xs x) ≡ false)
      × (version_eq (with_last xs x) (with_last xs y) ≡ false)
unfolding part_decides
version_lt_ambiguous xs x y n p q ne = (
  version_lt-before _ _ ∙ before_undecided xs x y (ground arith),
  version_lt-before _ _ ∙ before_undecided xs y x (ground arith),
  elim (Bool-cases (version_eq (with_last xs x) (with_last xs y))) [
    | inl e ↦ absurd (ne (last_injective xs x y (ap (λ v. v.parts) (version_eq_sound _ _ e))))
    | inr e ↦ e
  ],
)
