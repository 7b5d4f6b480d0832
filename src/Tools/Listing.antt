-- ===== src/Tools/Listing.antt =====
-- src/spock-ls.C: the selection of packages (lines 140-188) and the lines that are shown (228-263).
use rmc_spock.Base.{
  ℕ, Bool, true, false, List, [], ◌∷◌, ◌++◌, ◌+◌, length, Text, codes, text_eq, text_lt, sort_by,
  unique_by, ltb, Outcome, ok, ◌>>=◌, if◌then◌else◌,
}
use rmc_spock.Libraries.{Libraries, VersionNumber}
use rmc_spock.Version
use rmc_spock.Pattern
use rmc_spock.Pattern.{PackagePattern, any_package}
use rmc_spock.Package.{Package, Kind, installed, ghost, is_installed, to_string, versions}
use rmc_spock.PackageLists.{Packages}
use rmc_spock.Context.{Context, find_installed, find_ghosts}

module _ ⦃lib : Libraries⦄ where
  unfoldable pub sort_by_name : Package → Package → Bool
  sort_by_name a b = text_lt (to_string a) (to_string b)

  unfoldable pub same_name : Package → Package → Bool
  same_name a b = text_eq (to_string a) (to_string b)

  unfoldable pub used_before : Package → Kind → Package → Kind → Bool
  used_before a (installed i) b (installed j) = ltb i.used_time_stamp j.used_time_stamp
  used_before a (installed i) b (ghost h) = true
  used_before a (ghost g) b k = false

  unfoldable pub sort_by_last_used : Package → Package → Bool
  unfolding used_before
  sort_by_last_used a b = used_before a a.kind b b.kind

  -- With the address that the first new ghost takes.
  unfoldable pub find_by_pattern : Bool → Context → ℕ → PackagePattern → Outcome Packages
  unfolding find_installed find_ghosts
  find_by_pattern finding_ghosts ctx address pattern =
      if finding_ghosts then find_ghosts ctx address pattern else find_installed ctx pattern

  -- The loop over the patterns. A pattern that matches nothing is reported to a log.
  unfoldable pub find_each_pattern : Bool → Context → ℕ → List Text → Outcome Packages
  unfolding find_by_pattern
  find_each_pattern finding_ghosts ctx address [] = ok []
  find_each_pattern finding_ghosts ctx address (text ∷ texts) = do
    pattern ← Pattern.parse text
    pkgs ← find_by_pattern finding_ghosts ctx address pattern
    rest ← find_each_pattern finding_ghosts ctx (address + length pkgs) texts
    ok (pkgs ++ rest)

  unfoldable pub arranged : Packages → Packages
  unfolding sort_by_name same_name
  arranged pkgs = unique_by same_name (sort_by sort_by_name pkgs)

  unfoldable pub find_by_patterns : Bool → Context → ℕ → List Text → Outcome Packages
  unfolding find_by_pattern find_each_pattern arranged
  find_by_patterns finding_ghosts ctx address [] = do
    pkgs ← find_by_pattern finding_ghosts ctx address any_package
    ok (arranged pkgs)
  find_by_patterns finding_ghosts ctx address (text ∷ texts) = do
    pkgs ← find_each_pattern finding_ghosts ctx address (text ∷ texts)
    ok (arranged pkgs)

  -- The versions in the comment on a ghost: a comma before each but the first.
  unfoldable pub more_versions : VersionNumber → List VersionNumber → Text
  more_versions first [] = []
  more_versions first (v ∷ vs) =
      (if Version.version_eq v first then [] else codes ", ")
      ++ (Version.to_string lib.boost v ++ more_versions first vs)

  unfoldable pub versions_text : List VersionNumber → Text
  unfolding more_versions
  versions_text [] = []
  versions_text (v ∷ vs) = more_versions v (v ∷ vs)

  -- The comment on a package, with the text of a set of aliases.
  unfoldable pub comment : (lib.texts.Carrier → Text) → Package → Text
  unfolding versions_text
  comment aliases_text pkg =
      if is_installed pkg
      then (if lib.texts.is_empty pkg.aliases
          then []
          else codes "(" ++ (aliases_text pkg.aliases ++ codes ")"))
      else codes "(" ++ (versions_text (lib.versions.values (versions pkg)) ++ codes ")")

  unfoldable pub patterns_text : List PackagePattern → Text
  patterns_text [] = []
  patterns_text (p ∷ ps) = codes " " ++ (Pattern.to_string lib.boost p ++ patterns_text ps)
