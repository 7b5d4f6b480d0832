-- ===== src/Directory/Find.antt =====
-- What src/Spock/Directory.C finds after packages were inserted and erased.
use rmc_spock.Base.{
  ◌≡◌, refl, ap, sym, ◌∙◌, inl, inr, Bool, true, false, ◌&&◌, [], ◌∷◌, Text, text_eq, All,
  All-sort_by, All-unique_by, is_empty, Bool-cases, Option-cases, sort_by, unique_by, ok, arith,
}
use rmc_spock.Libraries.{Libraries}
use rmc_spock.Libraries.Laws.{MapLaws}
use rmc_spock.Pattern.{PackagePattern}
use rmc_spock.Package.{Package, to_string}
use rmc_spock.Package.Match.{matches}
use rmc_spock.PackageLists.{Packages, sort}
use rmc_spock.Directory.{
  Directory, or_none, packages_of, erase, select, find_unsorted, find, same_address, by_address,
  concat, erase_printed, erase_name, erase_hash,
}

module _ ⦃lib : Libraries⦄ where
  abbrev pub Selected : PackagePattern → (Package → Bool) → Package → Type 0
  Selected pattern constraint p = (matches pattern p ≡ true) × (constraint p ≡ true)

  All-select :
      (pattern : PackagePattern) (constraint : Package → Bool) (pkgs : Packages)
      → All (Selected pattern constraint) (select pattern constraint pkgs)
  unfolding select
  All-select pattern constraint [] = tt
  All-select pattern constraint (p ∷ pkgs) = elim (Bool-cases (matches pattern p && constraint p)) [
    | inl e ↦ rw e ((ground arith, ground arith), All-select pattern constraint pkgs)
    | inr e ↦ rw e (All-select pattern constraint pkgs)
  ]

  abbrev pub arranged : Packages → Packages
  arranged found = sort (unique_by same_address (sort_by by_address found))

  pub find-arranged :
      (dir : Directory) (pattern : PackagePattern) (constraint : Package → Bool) (found : Packages)
      → find_unsorted dir pattern constraint ≡ ok found
      → find dir pattern constraint ≡ ok (arranged found)
  unfolding find
  find-arranged dir pattern constraint found e = rw e refl

  pub find_named :
      (dir : Directory) (pattern : PackagePattern) (constraint : Package → Bool)
      → is_empty pattern.hash ≡ true
      → is_empty pattern.name ≡ false
      → find_unsorted dir pattern constraint
        ≡ ok (select pattern constraint (packages_of dir.packages_by_name pattern.name))
  unfolding find_unsorted
  find_named dir pattern constraint h n = rw (h, n) refl

  find_all :
      (dir : Directory) (pattern : PackagePattern) (constraint : Package → Bool)
      → is_empty pattern.hash ≡ true
      → is_empty pattern.name ≡ true
      → find_unsorted dir pattern constraint
        ≡ ok (select pattern constraint (concat ((lib.maps Packages).nodes dir.packages_by_name)))
  unfolding find_unsorted
  find_all dir pattern constraint h n = rw (h, n) refl

  Selected-found :
      (dir : Directory) (pattern : PackagePattern) (constraint : Package → Bool) (found : Packages)
      → find_unsorted dir pattern constraint ≡ ok (select pattern constraint found)
      → (pkgs : Packages) × (find dir pattern constraint ≡ ok pkgs)
        × All (Selected pattern constraint) pkgs
  unfolding sort
  Selected-found dir pattern constraint found e = (
    arranged (select pattern constraint found),
    find-arranged dir pattern constraint (select pattern constraint found) e,
    All-sort_by (Selected pattern constraint) _ _ (
        All-unique_by (Selected pattern constraint) same_address _ (
          All-sort_by (Selected pattern constraint) by_address _
            (All-select pattern constraint found))),
  )

  -- Without a hash, `find` always returns, and each package that it returns matches the pattern and
  -- satisfies the constraint.
  pub find_lem :
      (dir : Directory) (pattern : PackagePattern) (constraint : Package → Bool)
      → is_empty pattern.hash ≡ true
      → (pkgs : Packages) × (find dir pattern constraint ≡ ok pkgs)
        × All (Selected pattern constraint) pkgs
  find_lem dir pattern constraint h = elim (Bool-cases (is_empty pattern.name)) [
    | inl n ↦
        Selected-found dir pattern constraint
          (concat ((lib.maps Packages).nodes dir.packages_by_name))
          (find_all dir pattern constraint h n)
    | inr n ↦
        Selected-found dir pattern constraint (packages_of dir.packages_by_name pattern.name)
          (find_named dir pattern constraint h n)
  ]

  pub packages_of-insert :
      MapLaws (lib.maps Packages)
      → (m : (lib.maps Packages).Carrier) (n : Text) (pkgs : Packages)
      → packages_of ((lib.maps Packages).insert m n pkgs) n ≡ pkgs
  unfolding packages_of
  packages_of-insert laws m n pkgs = ap or_none (laws.get-insert m n pkgs)

  pub packages_of-insert_other :
      MapLaws (lib.maps Packages)
      → (m : (lib.maps Packages).Carrier) (n k : Text) (pkgs : Packages) → text_eq n k ≡ false
      → packages_of ((lib.maps Packages).insert m n pkgs) k ≡ packages_of m k
  unfolding packages_of
  packages_of-insert_other laws m n k pkgs d = ap or_none (laws.get-insert_other m n k pkgs d)

  erase_name-packages_of :
      MapLaws (lib.maps Packages)
      → (dir : Directory) (pkg : Package) (name : Text) → text_eq pkg.name name ≡ false
      → packages_of (erase_name dir.packages_by_name pkg) name
        ≡ packages_of dir.packages_by_name name
  unfolding erase_name
  erase_name-packages_of laws dir pkg name d =
      elim (Option-cases ((lib.maps Packages).get dir.packages_by_name pkg.name)) [
        | inl e ↦ rw (erase_name, e) refl
        | inr (pkgs, e) ↦
            rw (erase_name, e)
              (packages_of-insert_other laws dir.packages_by_name pkg.name name
                (erase_printed (to_string pkg) pkgs) d)
      ]

  -- An alias other than the name keeps its packages when one of them is erased: after the erasure of
  -- a package, a search by such a name and without a hash returns what it returned before.
  pub erase-find_alias :
      MapLaws (lib.maps Packages)
      → (dir : Directory) (pkg : Package) (pattern : PackagePattern) (constraint : Package → Bool)
      → is_empty pkg.name ≡ false
      → is_empty pattern.hash ≡ true
      → is_empty pattern.name ≡ false
      → text_eq pkg.name pattern.name ≡ false
      → (after : Directory) × (erase dir pkg ≡ ok after)
        × (find after pattern constraint ≡ find dir pattern constraint)
  unfolding erase
  erase-find_alias laws dir pkg pattern constraint m h n d =
      let after : Directory = record {
        packages_by_hash = erase_hash dir pkg;
        packages_by_name = erase_name dir.packages_by_name pkg;
      } in
      (
        after,
        rw m refl,
        find-arranged after pattern constraint _ (find_named after pattern constraint h n)
            ∙ (ap (λ ps. ok (arranged (select pattern constraint ps)))
                  (erase_name-packages_of laws dir pkg pattern.name d)
                ∙ sym (
                    find-arranged dir pattern constraint _
                      (find_named dir pattern constraint h n))),
      )
