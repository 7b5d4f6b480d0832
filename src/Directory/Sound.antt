-- ===== src/Directory/Sound.antt =====
-- Directories of src/Spock/Directory.C whose packages are as their constructors assert, and what is
-- found in them.
use rmc_spock.Base.{
  OnOk, OnOk-bind, ◌≡◌, Bool, ◌&&◌, some, List, [], ◌∷◌, Text, All, All-append, All-sort_by,
  All-unique_by, if_intro, inl, inr, not, is_empty, Bool-cases, Option-cases, ok, ◌>>◌, assert,
  if◌then◌else◌,
}
use rmc_spock.Libraries.{Libraries}
use rmc_spock.Pattern.{PackagePattern}
use rmc_spock.Package.{Package}
use rmc_spock.Package.Match.{matches}
use rmc_spock.PackageLists.{Packages, sort}
use rmc_spock.Directory.{
  Directory, packages_of, concat, select, find_unsorted, find, same_address, by_address,
}
use rmc_spock.Solver.Search.{}
use rmc_spock.Solver.Relation.{IsSound}
use rmc_spock.Install.Solving.{}

module _ ⦃lib : Libraries⦄ where
  -- A directory whose packages are all as their constructors assert.
  pub record HoldsSound (dir : Directory) : Type 0 where
    pub by_hash :
        (hash : Text) (p : Package)
        → (lib.maps Package).get dir.packages_by_hash hash ≡ some p
        → IsSound p
    pub by_name :
        (name : Text) (pkgs : Packages)
        → (lib.maps Packages).get dir.packages_by_name name ≡ some pkgs
        → All IsSound pkgs
    pub listed : All (λ node. All IsSound node.1) ((lib.maps Packages).nodes dir.packages_by_name)

  All-select :
      (pattern : PackagePattern) (constraint : Package → Bool) (pkgs : Packages)
      → All IsSound pkgs
      → All IsSound (select pattern constraint pkgs)
  unfolding select
  All-select pattern constraint [] h = tt
  All-select pattern constraint (p ∷ pkgs) h =
      elim (Bool-cases (matches pattern p && constraint p)) [
        | inl e ↦ rw e (h.0, All-select pattern constraint pkgs h.1)
        | inr e ↦ rw e (All-select pattern constraint pkgs h.1)
      ]

  All-concat :
      (nodes : List (Text × Packages))
      → All (λ node. All IsSound node.1) nodes
      → All IsSound (concat nodes)
  All-concat [] h = tt
  All-concat ((name, pkgs) ∷ nodes) h =
      All-append IsSound pkgs (concat nodes) h.0 (All-concat nodes h.1)

  packages_of-IsSound :
      (dir : Directory) (name : Text)
      → HoldsSound dir
      → All IsSound (packages_of dir.packages_by_name name)
  unfolding packages_of
  packages_of-IsSound dir name h =
      elim (Option-cases ((lib.maps Packages).get dir.packages_by_name name)) [
        | inl e ↦ rw e tt
        | inr (pkgs, e) ↦ rw e (h.by_name name pkgs e)
      ]

  installed_named :
      (constraint : Package → Bool) (p : Package)
      → IsSound p
      → OnOk
          (All IsSound)
          (assert (rmc_spock.Package.is_installed p) >> ok (if constraint p then p ∷ [] else []))
  installed_named constraint p h = elim (Bool-cases (rmc_spock.Package.is_installed p)) [
    | inl e ↦ rw e (if_intro (All IsSound) (constraint p) (p ∷ []) [] (h, tt) tt)
    | inr e ↦ rw e tt
  ]

  find_unsorted-IsSound :
      (dir : Directory) (pattern : PackagePattern) (constraint : Package → Bool)
      → HoldsSound dir
      → OnOk (All IsSound) (find_unsorted dir pattern constraint)
  unfolding find_unsorted
  find_unsorted-IsSound dir pattern constraint h =
      if_intro (OnOk (All IsSound)) (not (is_empty pattern.hash)) _ _
        (elim (Option-cases ((lib.maps Package).get dir.packages_by_hash pattern.hash)) [
          | inl e ↦ rw e tt
          | inr (p, e) ↦ rw e (installed_named constraint p (h.by_hash pattern.hash p e))
        ])
        (if_intro (OnOk (All IsSound)) (not (is_empty pattern.name)) _ _
          (All-select pattern constraint (packages_of dir.packages_by_name pattern.name)
            (packages_of-IsSound dir pattern.name h))
          (All-select pattern constraint (concat ((lib.maps Packages).nodes dir.packages_by_name))
            (All-concat ((lib.maps Packages).nodes dir.packages_by_name) h.listed)))

  pub find-IsSound :
      (dir : Directory) (pattern : PackagePattern) (constraint : Package → Bool)
      → HoldsSound dir
      → OnOk (All IsSound) (find dir pattern constraint)
  unfolding find sort
  find-IsSound dir pattern constraint h =
      OnOk-bind (All IsSound) (All IsSound) (find_unsorted dir pattern constraint) _
        (find_unsorted-IsSound dir pattern constraint h)
        (λ found sound.
          All-sort_by IsSound _ _
            (All-unique_by IsSound same_address _ (All-sort_by IsSound by_address found sound)))
