-- ===== src/Version.antt =====
-- src/Spock/VersionNumber.C: dotted version numbers.
pub mod Bounds
pub mod Order
pub mod Print
use mathlib.Core.Bool.{not}
use rmc_spock.Base.{
  ℕ, suc, ◌<◌, ◌≡◌, Bool, true, false, ◌&&◌, ◌||◌, Option, none, some, List, [], ◌∷◌, ◌++◌, Text,
  codes, text_eq, text_lt, is_digit, strtoul_from, length, is_empty, all, ltb, leb, ◌==◌,
  if◌then◌else◌,
}
use rmc_spock.Libraries.{VersionNumber, Boost}

-- The constructor from a string.
unfoldable pub parse : Boost → Text → VersionNumber
parse boost s =
    let t = boost.trim s in record { parts = if is_empty t then [] else boost.split b'.' t }

abbrev pub empty_version : VersionNumber
empty_version = record { parts = [] }

unfoldable pub is_empty_version : VersionNumber → Bool
is_empty_version v = is_empty v.parts

abbrev pub size : VersionNumber → ℕ
size v = length v.parts

-- `operator+` and `operator+=`.
unfoldable pub juxtapose : VersionNumber → VersionNumber → VersionNumber
juxtapose v w = record { parts = v.parts ++ w.parts }

-- `std::equal` from the two beginnings, over the length of the first range. The callers have a
-- second range that is no shorter.
unfoldable pub equal_range : List Text → List Text → Bool
equal_range [] ys = true
equal_range (x ∷ xs) [] = false
equal_range (x ∷ xs) (y ∷ ys) = text_eq x y && equal_range xs ys

-- `operator==`.
unfoldable pub version_eq : VersionNumber → VersionNumber → Bool
unfolding equal_range
version_eq v w = if size v == size w then equal_range v.parts w.parts else false

-- `operator-`: the left version may have more parts.
unfoldable pub extends : VersionNumber → VersionNumber → Bool
unfolding equal_range
extends v w = if ltb (size v) (size w) then false else equal_range w.parts v.parts

-- `none` stands for the result -1.
unfoldable pub whole_number : Text → Option ℕ
unfolding is_digit strtoul_from
whole_number s =
    if is_empty s || ltb 6 (length s)
    then none
    else (if all is_digit s then some (strtoul_from 0 s) else none)

-- One round of the loop of `operator<`: the value that it returns, or `none` if it goes on.
unfoldable pub part_decides : Text → Text → Option Bool
part_decides x y =
    let strings = if text_eq x y then none else some (text_lt x y) in
    elim (whole_number x) [
      | none ↦ strings
      | some m ↦ elim (whole_number y) [
        | none ↦ strings
        | some n ↦ if m == n then none else some (ltb m n)
      ]
    ]

unfoldable pub first_difference : List Text → List Text → Option Bool
first_difference [] ys = none
first_difference (x ∷ xs) [] = none
first_difference (x ∷ xs) (y ∷ ys) =
    let rest = first_difference xs ys in elim (part_decides x y) [ none ↦ rest | some b ↦ some b ]

-- `operator<`.
unfoldable pub version_lt : VersionNumber → VersionNumber → Bool
unfolding first_difference
version_lt v w = elim (first_difference v.parts w.parts) [
  | some b ↦ b
  | none ↦ if size v == size w then false else ltb (size v) (size w)
]

unfoldable pub is_satisfied_by : VersionNumber → VersionNumber → Bool
is_satisfied_by v w = version_lt v w || version_eq v w

unfoldable pub to_string : Boost → VersionNumber → Text
unfolding is_empty_version
to_string boost v = if is_empty_version v then codes "none" else boost.join v.parts (codes ".")
