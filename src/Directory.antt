-- ===== src/Directory.antt =====
-- src/Spock/Directory.C: the packages that are known, by hash and by name.
pub mod Find
pub mod Inserted
pub mod Sound
use rmc_spock.Base.{
  ℕ, Bool, true, false, not, ◌&&◌, Option, none, some, List, [], ◌∷◌, ◌++◌, Text, map, text_eq,
  is_empty, keep, ltb, ◌==◌, sort_by, unique_by, Outcome, ok, ◌>>=◌, ◌>>◌, assert, if◌then◌else◌,
}
use rmc_spock.Libraries.{Libraries}
use rmc_spock.Pattern.{PackagePattern}
use rmc_spock.Package.{Package, is_installed, to_string}
use rmc_spock.Package.Match.{matches}
use rmc_spock.PackageLists.{Packages, sort}

module _ ⦃lib : Libraries⦄ where
  pub record Directory : Type 0 where
    pub packages_by_hash : (lib.maps Package).Carrier
    pub packages_by_name : (lib.maps Packages).Carrier

  unfoldable pub empty_directory : Directory
  empty_directory = record {
    packages_by_hash = (lib.maps Package).empty;
    packages_by_name = (lib.maps Packages).empty;
  }

  -- The predicates on packages.
  abbrev pub installed_p : Package → Bool
  installed_p pkg = is_installed pkg

  abbrev pub not_installed_p : Package → Bool
  not_installed_p pkg = not (is_installed pkg)

  abbrev pub any_p : Package → Bool
  any_p pkg = true

  abbrev pub or_none : Option Packages → Packages
  or_none none = []
  or_none (some pkgs) = pkgs

  -- The packages of a name, none if there is no entry.
  unfoldable pub packages_of : (lib.maps Packages).Carrier → Text → Packages
  packages_of by_name name = or_none ((lib.maps Packages).get by_name name)

  unfoldable pub insert_name :
      Package → (lib.maps Packages).Carrier → Text → (lib.maps Packages).Carrier
  insert_name pkg by_name name =
      (lib.maps Packages).insert by_name name (packages_of by_name name ++ (pkg ∷ []))

  unfoldable pub insert_names :
      Package → (lib.maps Packages).Carrier → List Text → (lib.maps Packages).Carrier
  unfolding insert_name
  insert_names pkg by_name [] = by_name
  insert_names pkg by_name (name ∷ names) = insert_names pkg (insert_name pkg by_name name) names

  unfoldable pub insert : Directory → Package → Outcome Directory
  unfolding insert_names
  insert dir pkg =
      assert (not (is_empty pkg.name))
      >> ok (record {
        packages_by_hash =
            if not (is_empty pkg.hash)
            then (lib.maps Package).insert dir.packages_by_hash pkg.hash pkg
            else dir.packages_by_hash;
        packages_by_name =
            insert_names pkg dir.packages_by_name (pkg.name ∷ lib.texts.values pkg.aliases);
      })

  unfoldable pub insert_all : Directory → Packages → Outcome Directory
  unfolding insert
  insert_all dir [] = ok dir
  insert_all dir (pkg ∷ pkgs) = do with_one ← insert dir pkg; insert_all with_one pkgs

  -- The loop of `erase`: the package behind one that is erased is passed over.
  unfoldable pub erase_printed : Text → Packages → Packages
  erase_printed s [] = []
  erase_printed s (p ∷ []) = if text_eq (to_string p) s then [] else p ∷ []
  erase_printed s (p ∷ q ∷ pkgs) = elim (text_eq (to_string p) s) [
    | true ↦ q ∷ erase_printed s pkgs
    | false ↦ p ∷ erase_printed s (q ∷ pkgs)
  ]

  -- Only the entry of the name is changed.
  unfoldable pub erase_name : (lib.maps Packages).Carrier → Package → (lib.maps Packages).Carrier
  unfolding erase_printed
  erase_name by_name pkg = elim ((lib.maps Packages).get by_name pkg.name) [
    | none ↦ by_name
    | some pkgs ↦ (lib.maps Packages).insert by_name pkg.name (erase_printed (to_string pkg) pkgs)
  ]

  abbrev pub erase_hash : Directory → Package → (lib.maps Package).Carrier
  erase_hash dir pkg =
      if not (is_empty pkg.hash)
      then (lib.maps Package).erase dir.packages_by_hash pkg.hash
      else dir.packages_by_hash

  unfoldable pub erase : Directory → Package → Outcome Directory
  unfolding erase_name
  erase dir pkg =
      assert (not (is_empty pkg.name))
      >> ok (record {
        packages_by_hash = erase_hash dir pkg;
        packages_by_name = erase_name dir.packages_by_name pkg;
      })

  -- The order of pointers, and their equality.
  unfoldable pub by_address : Package → Package → Bool
  by_address a b = ltb a.address b.address

  unfoldable pub same_address : Package → Package → Bool
  same_address a b = a.address == b.address

  abbrev pub concat : List (Text × Packages) → Packages
  concat [] = []
  concat ((name, pkgs) ∷ rest) = pkgs ++ concat rest

  unfoldable pub select : PackagePattern → (Package → Bool) → Packages → Packages
  unfolding matches
  select pattern constraint pkgs = keep (λ p. matches pattern p && constraint p) pkgs

  -- The packages before duplicates are removed.
  unfoldable pub find_unsorted : Directory → PackagePattern → (Package → Bool) → Outcome Packages
  unfolding select
  find_unsorted dir pattern constraint =
      if not (is_empty pattern.hash)
      then elim ((lib.maps Package).get dir.packages_by_hash pattern.hash) [
        | none ↦ ok []
        | some pkg ↦ assert (is_installed pkg) >> ok (if constraint pkg then pkg ∷ [] else [])
      ]
      else (if not (is_empty pattern.name)
          then ok (select pattern constraint (packages_of dir.packages_by_name pattern.name))
          else ok
              (select pattern constraint (concat ((lib.maps Packages).nodes dir.packages_by_name))))

  unfoldable pub find : Directory → PackagePattern → (Package → Bool) → Outcome Packages
  unfolding find_unsorted
  find dir pattern constraint = do
    found ← find_unsorted dir pattern constraint
    ok (sort (unique_by same_address (sort_by by_address found)))
