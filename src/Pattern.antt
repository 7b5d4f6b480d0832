-- ===== src/Pattern.antt =====
-- src/Spock/PackagePattern.C: patterns for packages. `Package/Match` has the overload of `matches`
-- that takes a package.
pub mod Compare
use rmc_spock.Base.{
  ℕ, ◌≡◌, Bool, true, false, not, ◌||◌, Option, none, some, List, [], ◌∷◌, ◌++◌, Text, codes,
  text_eq, is_empty, Outcome, ok, threw, aborted, syntax_error, if◌then◌else◌,
}
use rmc_spock.Libraries.{VersionNumber, Boost, Libraries}
use rmc_spock.Version
use rmc_spock.Version.{empty_version, is_empty_version, version_eq, version_lt, extends}

pub data VersOp : Type 0 where
  vers_eq vers_ne vers_lt vers_le vers_gt vers_ge vers_hy : VersOp

pub record PackagePattern : Type 0 where
  pub name : Text
  pub vers_op : VersOp
  pub version : VersionNumber
  pub hash : Text

-- The default constructor.
unfoldable pub any_package : PackagePattern
any_package = record { name = []; vers_op = vers_eq; version = empty_version; hash = [] }

-- `matches` for a version number.
unfoldable pub matches_version : PackagePattern → VersionNumber → Bool
unfolding is_empty_version
matches_version p haystack = if is_empty_version p.version then true else elim p.vers_op [
  | vers_eq ↦ version_eq haystack p.version
  | vers_ne ↦ not (version_eq haystack p.version)
  | vers_lt ↦ version_lt haystack p.version
  | vers_ge ↦ not (version_lt haystack p.version)
  | vers_le ↦ version_lt haystack p.version || version_eq haystack p.version
  | vers_gt ↦ not (version_lt haystack p.version || version_eq haystack p.version)
  | vers_hy ↦ extends haystack p.version
]

abbrev pub op_text : VersOp → Text
op_text vers_eq = codes "="
op_text vers_ne = codes "!="
op_text vers_lt = codes "<"
op_text vers_le = codes "<="
op_text vers_gt = codes ">"
op_text vers_ge = codes ">="
op_text vers_hy = codes "-"

unfoldable pub to_string : Boost → PackagePattern → Text
unfolding is_empty_version
to_string boost p =
    let s =
      if is_empty_version p.version
      then p.name
      else p.name ++ (op_text p.vers_op ++ Version.to_string boost p.version) in
    if is_empty p.hash then s else s ++ (codes "@" ++ p.hash)

-- The regular expressions of `parse`.
abbrev re_name : Text
re_name = codes "(?:[[:alnum:]]+(?:[-+_]+[[:alnum:]]+)*(?:[_+]*))"

abbrev re_version_part : Text
re_version_part = codes "(?:[[:alnum:]]+(?:[-_]+[[:alnum:]]+)*)"

abbrev re_dotted : Text
re_dotted = codes "(?:" ++ (re_version_part ++ (codes "(?:\\." ++ (re_version_part ++ codes ")+)")))

abbrev re_relaxed : Text
re_relaxed =
    codes "(?:" ++ (re_version_part ++ (codes "(?:\\." ++ (re_version_part ++ codes ")*)")))

abbrev re_dotted_or_number : Text
re_dotted_or_number =
    codes "(?:" ++ (re_dotted ++ (codes "|" ++ (codes "(?:[1-9][0-9]{0,5})" ++ codes ")")))

abbrev re_op : Text
re_op = codes "(?:!?=|<=?|>=?)"

abbrev re_hash : Text
re_hash = codes "(?:@[0-9a-f]{8})"

-- Four groups, one after the other.
abbrev groups : Text → Text → Text → Text → Text
groups a b c d =
    codes "("
    ++ (a ++ (codes ")(" ++ (b ++ (codes ")(" ++ (c ++ (codes ")(" ++ (d ++ codes ")")))))))

-- The whole patterns, in the order in which they are tried.
abbrev pub regexes : List Text
regexes =
    groups [] [] [] []
    ∷ groups [] [] [] re_hash
    ∷ groups [] (re_op ++ codes "|-") re_relaxed (re_hash ++ codes "?")
    ∷ groups re_name re_op re_relaxed (re_hash ++ codes "?")
    ∷ groups re_name (codes "-") re_dotted_or_number (re_hash ++ codes "?")
    ∷ groups re_name [] [] (re_hash ++ codes "?")
    ∷ []

-- The table `ops`.
unfoldable pub find_op : Text → Option VersOp
find_op s =
    if text_eq s (codes "=")
    then some vers_eq
    else (if text_eq s (codes "!=")
        then some vers_ne
        else (if text_eq s (codes "<")
            then some vers_lt
            else (if text_eq s (codes "<=")
                then some vers_le
                else (if text_eq s (codes ">")
                    then some vers_gt
                    else (if text_eq s (codes ">=")
                        then some vers_ge
                        else (if text_eq s (codes "-")
                            then some vers_hy
                            else (if is_empty s then some vers_eq else none)))))))

-- What the object becomes after a match: a hash is only ever replaced by another hash.
unfoldable pub assign : Boost → PackagePattern → Text → Text → Text → Text → Outcome PackagePattern
unfolding find_op
assign boost old name op version hash = elim (find_op op) [
  | none ↦ aborted
  | some o ↦ ok (record {
    name = name;
    vers_op = o;
    version = Version.parse boost version;
    hash = elim hash [ [] ↦ old.hash | c ∷ rest ↦ rest ];
  })
]

module _ ⦃lib : Libraries⦄ where
  -- The loop over the patterns, for the object that is assigned to.
  unfoldable pub try_regexes : PackagePattern → Text → List Text → Outcome PackagePattern
  unfolding assign
  try_regexes old s [] =
      threw (syntax_error (codes "invalid package pattern \"" ++ (s ++ codes "\"")))
  try_regexes old s (re ∷ res) =
      let rest = try_regexes old s res in
      elim (lib.regex_match re s) [
        | some (a ∷ b ∷ c ∷ d ∷ _) ↦ assign lib.boost old a b c d
        | some _ ↦ aborted
        | none ↦ rest
      ]

  unfoldable pub parse : Text → Outcome PackagePattern
  unfolding try_regexes any_package
  parse s = try_regexes any_package s regexes
