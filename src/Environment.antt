-- ===== src/Environment.antt =====
-- src/Spock/Environment.C: environment variables, whose values are parts between separators.
pub mod Parts
pub mod Added
pub mod Unique
use rmc_spock.Base.{
  ℕ, zero, suc, Bool, true, false, not, Option, none, some, List, [], ◌∷◌, ◌++◌, reverse, Text,
  codes, text_eq, is_empty, any, keep, length, ◌==◌, Outcome, ok, exhausted, ◌>>=◌, if◌then◌else◌,
}
use rmc_spock.Libraries.{Libraries}

-- What is behind the prefix, if the text begins with it.
unfoldable pub strip_prefix : Text → Text → Option Text
strip_prefix [] s = some s
strip_prefix (c ∷ p) [] = none
strip_prefix (c ∷ p) (d ∷ s) = elim (c == d) [ true ↦ strip_prefix p s | false ↦ none ]

abbrev pub put_before : ℕ → Option (Text × Text) → Option (Text × Text)
put_before c none = none
put_before c (some (before, after)) = some (c ∷ before, after)

-- `std::string::find`: the text before the first separator and the text behind it.
unfoldable pub find_sep : Text → Text → Option (Text × Text)
unfolding strip_prefix
find_sep sep [] = none
find_sep sep (c ∷ s) =
    let rest = find_sep sep s in
    elim (strip_prefix sep (c ∷ s)) [ some after ↦ some ([], after) | none ↦ put_before c rest ]

-- The loop of `split`, on fuel.
unfoldable pub split_within : ℕ → Text → Text → Outcome (List Text)
unfolding find_sep
split_within f [] sep = ok []
split_within zero (c ∷ s) sep = exhausted
split_within (suc f) (c ∷ s) sep = elim (find_sep sep (c ∷ s)) [
  | none ↦ ok ((c ∷ s) ∷ [])
  | some (before, after) ↦ (do parts ← split_within f after sep; ok (before ∷ parts))
]

-- A round with a separator that is not empty shortens the text.
unfoldable pub split : Text → Text → Outcome (List Text)
unfolding split_within
split s sep = split_within (length s) s sep

-- The loop of `join` from the second part.
unfoldable pub join_more : List Text → Text → Text
join_more [] sep = []
join_more (p ∷ ps) sep = sep ++ (p ++ join_more ps sep)

unfoldable pub join : List Text → Text → Text
unfolding join_more
join [] sep = []
join (p ∷ ps) sep = p ++ join_more ps sep

-- The loop over the parts of the value: those that are not found are appended.
unfoldable pub add_parts : List Text → List Text → List Text
add_parts parts [] = parts
add_parts parts (v ∷ vs) = elim (any (text_eq v) parts) [
  | true ↦ add_parts parts vs
  | false ↦ add_parts (parts ++ (v ∷ [])) vs
]

unfoldable pub appended_parts : List Text → List Text → List Text
unfolding add_parts
appended_parts parts values = add_parts parts values

unfoldable pub prepended_parts : List Text → List Text → List Text
unfolding add_parts
prepended_parts parts values = reverse (add_parts (reverse parts) (reverse values))

abbrev pub value_or : Text → Option Text → Text
value_or dflt none = dflt
value_or dflt (some value) = value

module _ ⦃lib : Libraries⦄ where
  abbrev pub Environment : Type 0
  Environment = (lib.maps Text).Carrier

  unfoldable pub set : Environment → Text → Text → Environment
  set env name value = (lib.maps Text).insert env name value

  unfoldable pub get : Environment → Text → Text → Text
  get env name dflt = value_or dflt ((lib.maps Text).get env name)

  -- The text before and behind the first `=`.
  unfoldable pub reload_from : Environment → List Text → Environment
  unfolding find_sep
  reload_from env [] = env
  reload_from env (s ∷ rest) = elim (find_sep (codes "=") s) [
    | none ↦ reload_from env rest
    | some (name, value) ↦ reload_from ((lib.maps Text).insert env name value) rest
  ]

  -- `reload` for the entries of `environ`.
  unfoldable pub reload : List Text → Environment
  unfolding reload_from
  reload environ = reload_from (lib.maps Text).empty environ

  unfoldable pub append_unique : Environment → Text → Text → Text → Outcome Environment
  unfolding split join appended_parts set get
  append_unique env name value sep = do
    parts ← split (get env name []) sep
    values ← split value sep
    ok (set env name (join (appended_parts parts values) sep))

  unfoldable pub prepend_unique : Environment → Text → Text → Text → Outcome Environment
  unfolding split join prepended_parts set get
  prepend_unique env name value sep = do
    parts ← split (get env name []) sep
    values ← split value sep
    ok (set env name (join (prepended_parts parts values) sep))

  unfoldable pub prepend_nodes : Environment → List (Text × Text) → Outcome Environment
  unfolding prepend_unique
  prepend_nodes env [] = ok env
  prepend_nodes env ((name, value) ∷ nodes) = do
    with_one ← prepend_unique env name value (codes ":")
    prepend_nodes with_one nodes

  unfoldable pub prepend_environment : Environment → Environment → Outcome Environment
  unfolding prepend_nodes
  prepend_environment env other = prepend_nodes env ((lib.maps Text).nodes other)

  -- `exportVars`, the variables of the process.
  unfoldable pub export_vars : Environment → List (Text × Text)
  export_vars env = keep (λ node. not (is_empty node.1)) ((lib.maps Text).nodes env)
