-- ===== src/Directory/Inserted.antt =====
-- After `insert` of src/Spock/Directory.C a package is found.
use rmc_spock.Base.{
  ℕ, ◌≡◌, refl, ap, sym, ◌∙◌, subst⁻¹, subst, inl, inr, Bool, true, false, not, ◌&&◌, List, [], ◌∷◌,
  ◌++◌, Text, text_eq, text_eq_sound, In-left, In-middle, In, is_empty, Bool-cases, sort_by,
  insert_sorted, unique_by, unique_after, ==_iff, ◌==◌, ok, if◌then◌else◌,
}
use rmc_spock.Libraries.{Libraries}
use rmc_spock.Libraries.Laws.{MapLaws}
use rmc_spock.Pattern.{PackagePattern}
use rmc_spock.Package.{Package}
use rmc_spock.Package.Match.{matches}
use rmc_spock.PackageLists.{Packages, sort}
use rmc_spock.Directory.{
  Directory, packages_of, insert_name, insert_names, insert, select, find, same_address, by_address,
}
use rmc_spock.Directory.Find.{
  Selected, arranged, find-arranged, find_named, packages_of-insert, packages_of-insert_other,
}

module _ ⦃lib : Libraries⦄ where
  -- A package of the list has the address.
  abbrev pub Has : ℕ → Packages → Type 0
  Has a pkgs = (p : Package) × In p pkgs × (p.address ≡ a)

  In-insert_sorted :
      (before : Package → Package → Bool) (a : Package) (xs : Packages) (p : Package)
      → In p (a ∷ xs)
      → In p (insert_sorted before a xs)
  unfolding insert_sorted
  In-insert_sorted before a [] p m = m
  In-insert_sorted before a (x ∷ xs) p m = elim (Bool-cases (before x a)) [
    | inl e ↦ rw e (later (λ k. In-insert_sorted before a xs p k) m)
    | inr e ↦ rw e m
  ]
    where
      later :
          (In p (a ∷ xs) → In p (insert_sorted before a xs))
          → In p (a ∷ x ∷ xs)
          → In p (x ∷ insert_sorted before a xs)
      later f (inl e) = inr (f (inl e))
      later f (inr (inl e)) = inl e
      later f (inr (inr k)) = inr (f (inr k))

  In-sort_by :
      (before : Package → Package → Bool) (xs : Packages) (p : Package)
      → In p xs
      → In p (sort_by before xs)
  unfolding sort_by
  In-sort_by before (x ∷ xs) p (inl e) = In-insert_sorted before x (sort_by before xs) p (inl e)
  In-sort_by before (x ∷ xs) p (inr m) =
      In-insert_sorted before x (sort_by before xs) p (inr (In-sort_by before xs p m))
  In-sort_by before [] p m = absurd m

  Has-unique_after :
      (a : ℕ) (x : Package) (xs : Packages)
      → Has a (x ∷ xs)
      → Has a (x ∷ unique_after same_address x xs)
  unfolding unique_after same_address
  Has-unique_after a x [] h = h
  Has-unique_after a x (y ∷ ys) (p, inl e, k) = (x, inl refl, ap (λ q. q.address) (sym e) ∙ k)
  Has-unique_after a x (y ∷ ys) (p, inr m, k) = elim (Bool-cases (x.address == y.address)) [
    | inl e ↦ rw e (Has-unique_after a x ys (drop m e))
    | inr e ↦ let (q, n, l) = Has-unique_after a y ys (p, m, k) in rw e (q, inr n, l)
  ]
    where
      drop : In p (y ∷ ys) → (x.address == y.address) ≡ true → Has a (x ∷ ys)
      drop (inl e) s =
          (x, inl refl, (==_iff x.address y.address).0 s ∙ (ap (λ q. q.address) (sym e) ∙ k))
      drop (inr n) s = (p, inr n, k)

  Has-unique_by : (a : ℕ) (xs : Packages) → Has a xs → Has a (unique_by same_address xs)
  unfolding unique_by
  Has-unique_by a [] h = h
  Has-unique_by a (x ∷ xs) h = Has-unique_after a x xs h

  Has-sort_by :
      (before : Package → Package → Bool) (a : ℕ) (xs : Packages)
      → Has a xs
      → Has a (sort_by before xs)
  Has-sort_by before a xs (p, m, k) = (p, In-sort_by before xs p m, k)

  Has-arranged : (a : ℕ) (found : Packages) → Has a found → Has a (arranged found)
  unfolding sort
  Has-arranged a found h = Has-sort_by _ a _ (Has-unique_by a _ (Has-sort_by by_address a found h))

  In-select :
      (pattern : PackagePattern) (constraint : Package → Bool) (pkgs : Packages) (p : Package)
      → In p pkgs
      → Selected pattern constraint p
      → In p (select pattern constraint pkgs)
  unfolding select
  In-select pattern constraint [] p m s = absurd m
  In-select pattern constraint (q ∷ pkgs) p (inl e) s =
      rw (ap (λ r. matches pattern r && constraint r) (sym e), s.0, s.1) (inl e)
  In-select pattern constraint (q ∷ pkgs) p (inr m) s =
      let rest = In-select pattern constraint pkgs p m s in
      elim (Bool-cases (matches pattern q && constraint q)) [
        | inl e ↦ rw e (inr rest)
        | inr e ↦ rw e rest
      ]

  module _ (laws : MapLaws (lib.maps Packages)) where
    In-insert_name :
        (pkg : Package) (m : (lib.maps Packages).Carrier) (n k : Text) (p : Package)
        → In p (packages_of m k)
        → In p (packages_of (insert_name pkg m n) k)
    unfolding insert_name
    In-insert_name pkg m n k p h = elim (Bool-cases (text_eq n k)) [
      | inl e ↦
          subst (λ j. In p (packages_of (insert_name pkg m n) j)) (text_eq_sound n k e)
            (subst⁻¹ (In p) (packages_of-insert laws m n (packages_of m n ++ (pkg ∷ []))) (
              In-left (packages_of m n) p (pkg ∷ [])
                (subst (λ j. In p (packages_of m j)) (sym (text_eq_sound n k e)) h)))
      | inr e ↦
          subst⁻¹ (In p) (packages_of-insert_other laws m n k (packages_of m n ++ (pkg ∷ [])) e) h
    ]

    In-insert_name_own :
        (pkg : Package) (m : (lib.maps Packages).Carrier) (n : Text)
        → In pkg (packages_of (insert_name pkg m n) n)
    unfolding insert_name
    In-insert_name_own pkg m n =
        subst⁻¹ (In pkg) (packages_of-insert laws m n (packages_of m n ++ (pkg ∷ [])))
          (In-middle (packages_of m n) pkg [])

    In-insert_names :
        (pkg : Package) (m : (lib.maps Packages).Carrier) (names : List Text) (k : Text)
        (p : Package)
        → In p (packages_of m k)
        → In p (packages_of (insert_names pkg m names) k)
    unfolding insert_names
    In-insert_names pkg m [] k p h = h
    In-insert_names pkg m (n ∷ names) k p h =
        In-insert_names pkg (insert_name pkg m n) names k p (In-insert_name pkg m n k p h)

    In-insert_names_own :
        (pkg : Package) (m : (lib.maps Packages).Carrier) (names : List Text) (k : Text)
        → In k names
        → In pkg (packages_of (insert_names pkg m names) k)
    unfolding insert_names
    In-insert_names_own pkg m (n ∷ names) k (inl e) =
        In-insert_names pkg (insert_name pkg m n) names k pkg (
          subst (λ j. In pkg (packages_of (insert_name pkg m n) j)) (sym e)
            (In-insert_name_own pkg m n))
    In-insert_names_own pkg m (n ∷ names) k (inr h) =
        In-insert_names_own pkg (insert_name pkg m n) names k h
    In-insert_names_own pkg m [] k h = absurd h

  -- A package that was inserted is found: for a package with a name, `insert` returns a directory in
  -- which every pattern without a hash whose name is the package's name or one of its aliases, and
  -- that matches the package, finds a package with its address, if the constraint holds of it.
  pub insert-find :
      MapLaws (lib.maps Packages)
      → (dir : Directory) (pkg : Package) (pattern : PackagePattern) (constraint : Package → Bool)
      → is_empty pkg.name ≡ false
      → is_empty pattern.hash ≡ true
      → is_empty pattern.name ≡ false
      → In pattern.name (pkg.name ∷ lib.texts.values pkg.aliases)
      → Selected pattern constraint pkg
      → (after : Directory) × (pkgs : Packages) × (insert dir pkg ≡ ok after)
        × (find after pattern constraint ≡ ok pkgs)
        × Has pkg.address pkgs
  unfolding insert
  insert-find laws dir pkg pattern constraint m h n among s =
      let after : Directory = record {
        packages_by_hash =
            if not (is_empty pkg.hash)
            then (lib.maps Package).insert dir.packages_by_hash pkg.hash pkg
            else dir.packages_by_hash;
        packages_by_name =
            insert_names pkg dir.packages_by_name (pkg.name ∷ lib.texts.values pkg.aliases);
      } in
      let found = select pattern constraint (packages_of after.packages_by_name pattern.name) in
      (
        after,
        arranged found,
        rw m refl,
        find-arranged after pattern constraint found (find_named after pattern constraint h n),
        Has-arranged pkg.address found (
          pkg,
          In-select pattern constraint (packages_of after.packages_by_name pattern.name) pkg
              (In-insert_names_own laws pkg dir.packages_by_name
                (pkg.name ∷ lib.texts.values pkg.aliases) pattern.name among)
              s,
          refl,
        ),
      )
