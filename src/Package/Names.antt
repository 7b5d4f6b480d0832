-- ===== src/Package/Names.antt =====
-- `toString` of src/Spock/Spock.C for a set of names.
use rmc_spock.Base.{◌≡◌, refl, Bool, false, List, [], ◌∷◌, ◌++◌, Text, codes, if◌then◌else◌}

-- The names behind the first of three or more, with what stands before each.
unfoldable pub more_names : Bool → List Text → Text
more_names terse [] = []
more_names terse (a ∷ []) = codes ", " ++ ((if terse then [] else codes "and ") ++ a)
more_names terse (a ∷ b ∷ rest) = codes ", " ++ (a ++ more_names terse (b ∷ rest))

-- The values of the set are given in its order, the least first.
unfoldable pub names_to_string : Bool → List Text → Text
unfolding more_names
names_to_string terse [] = if terse then [] else codes "(empty set)"
names_to_string terse (a ∷ []) = a
names_to_string terse (a ∷ b ∷ []) =
    if terse then a ++ (codes ", " ++ b) else a ++ (codes " and " ++ b)
names_to_string terse (a ∷ b ∷ c ∷ rest) = a ++ more_names terse (b ∷ c ∷ rest)

names_to_string_three :
    names_to_string false (codes "a" ∷ codes "b" ∷ codes "c" ∷ []) ≡ codes "a, b, and c"
unfolding names_to_string
names_to_string_three = refl
