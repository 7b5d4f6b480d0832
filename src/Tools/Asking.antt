-- ===== src/Tools/Asking.antt =====
-- The questions of src/spock-shell.C (lines 127-181). The lines that the user types are an input.
use rmc_spock.Base.{
  Bool, true, not, ◌||◌, ◌==◌, none, some, List, [], ◌∷◌, Text, codes, text_eq, is_empty, Outcome,
  ok, aborted, exhausted, ◌>>=◌, ◌>>◌, assert, if◌then◌else◌,
}
use rmc_spock.Libraries.{Libraries, VersionNumber}
use rmc_spock.Version
use rmc_spock.Version.{empty_version, is_empty_version}
use rmc_spock.Package.{Package, versions}

-- `AutoAnswer`.
pub data AutoAnswer : Type 0 where
  assume_no ask_user assume_yes : AutoAnswer

-- `std::getline`, which gives no text behind the last line.
abbrev pub next_line : List Text → Text
next_line [] = []
next_line (line ∷ lines) = line

module _ ⦃lib : Libraries⦄ where
  -- What `yes` makes of a line, with the default "y".
  unfoldable pub says_yes : Text → Bool
  says_yes line =
      let answer = lib.boost.trim line in
      elim answer [ [] ↦ true | c ∷ rest ↦ c == b'y' || c == b'Y' ]

  -- What `askString` makes of a line.
  unfoldable pub ask_string : Text → Text → Text
  ask_string line dflt =
      let answer = lib.boost.trim line in
      if is_empty answer
        || text_eq answer (codes "y")
        || text_eq answer (codes "Y")
        || text_eq answer (codes "yes")
        || text_eq answer (codes "Yes")
        || text_eq answer (codes "YES")
      then dflt
      else answer

  -- The loop of `askInstall`. If the answer to no text is refused behind the last line, it never ends.
  unfoldable pub ask_version : lib.versions.Carrier → Text → List Text → Outcome VersionNumber
  unfolding ask_string
  ask_version vns dflt [] =
      let answer = Version.parse lib.boost (ask_string [] dflt) in
      if lib.versions.exists vns answer then ok answer else exhausted
  ask_version vns dflt (line ∷ lines) =
      let answer = Version.parse lib.boost (ask_string line dflt) in
      let again = ask_version vns dflt lines in
      if lib.versions.exists vns answer then ok answer else again

  -- The greatest and the least of the versions, which there are.
  abbrev pub greatest_version : lib.versions.Carrier → Outcome VersionNumber
  greatest_version vns = elim (lib.versions.greatest vns) [ none ↦ aborted | some v ↦ ok v ]

  abbrev pub first_version : List VersionNumber → Outcome VersionNumber
  first_version [] = aborted
  first_version (v ∷ vs) = ok v

  unfoldable pub ask_user_install : lib.versions.Carrier → List Text → Outcome VersionNumber
  unfolding says_yes ask_version
  ask_user_install vns lines =
      if lib.versions.size vns == 1
      then (if says_yes (next_line lines)
          then first_version (lib.versions.values vns)
          else ok empty_version)
      else (do
        greatest ← greatest_version vns
        ask_version vns (Version.to_string lib.boost greatest) lines)

  abbrev answer_install : AutoAnswer → lib.versions.Carrier → List Text → Outcome VersionNumber
  answer_install assume_no vns lines = ok empty_version
  answer_install assume_yes vns lines = greatest_version vns
  answer_install ask_user vns lines = ask_user_install vns lines

  -- `askInstall`.
  unfoldable pub ask_install : Package → AutoAnswer → List Text → Outcome VersionNumber
  unfolding ask_user_install
  ask_install pkg aa lines =
      assert (not (lib.versions.is_empty (versions pkg))) >> answer_install aa (versions pkg) lines
