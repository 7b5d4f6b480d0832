-- ===== src/Solver/Constraint.antt =====
-- `appendConstraint` of src/Spock/Solver.C.
use rmc_spock.Base.{
  ℕ, zero, suc, Bool, true, false, not, List, [], ◌∷◌, ◌++◌, Text, codes, text_eq, is_empty, length,
  exhausted, if◌then◌else◌,
}
use rmc_spock.Libraries.{VersionNumber, Libraries}
use rmc_spock.Version
use rmc_spock.Package.{
  Package, Kind, Ghost, installed, ghost, to_string, versions, is_valid_version, names_in_common,
  ghost_with_versions,
}
use rmc_spock.Package.Names.{names_to_string}
use rmc_spock.PackageLists.{Packages}
use rmc_spock.Solver.State.{M, pure, ◌>>=◌, ◌>>◌, lift, insert_message, new_address}

module _ ⦃lib : Libraries⦄ where
  -- The failure messages.
  pub overlap_message : Package → Package → Text
  overlap_message pkg c =
      to_string pkg
      ++ (codes " and "
          ++ (to_string c
              ++ (codes " have overlapping aliases and therefore cannot be used simultaneously: "
                  ++ names_to_string false (lib.texts.values (names_in_common pkg c)))))

  pub conflict_message : Package → Package → Text
  conflict_message pkg c = to_string pkg ++ (codes " conflicts with " ++ to_string c)

  pub listed : List VersionNumber → Text
  listed [] = []
  listed (v ∷ vs) = codes " " ++ (Version.to_string lib.boost v ++ listed vs)

  pub disjoint_message : Package → Package → Text
  disjoint_message pkg c =
      codes "for package "
      ++ (pkg.name
          ++ (codes ", version sets {"
              ++ (listed (lib.versions.values (versions pkg))
                  ++ (codes " } and {"
                      ++ (listed (lib.versions.values (versions c)) ++ codes " } are disjoint")))))

  pub unmatched_message : Package → Ghost → Text
  unmatched_message i g =
      to_string i
      ++ (codes " does does not match any of {"
          ++ (listed (lib.versions.values g.versions) ++ codes " }"))

  -- The new constraints and `needDeps`.
  abbrev pub Appended : Type 0
  Appended = Packages × Bool

  -- The empty constraints, which stand for a failure.
  unfoldable pub refuse : Text → M Appended
  refuse mesg = insert_message mesg >> pure ([], false)

  -- The loops that append the subsequent constraints again, where `again` is the recursive call.
  unfoldable pub revalidate : (Packages → Package → M Appended) → Packages → Packages → M Packages
  revalidate again kept [] = pure kept
  revalidate again kept (d ∷ rest) = do
    r ← again kept d
    elim (is_empty r.0) [ true ↦ pure [] | false ↦ revalidate again r.0 rest ]

  -- The branches for a constraint `c` of the same name, where `kept` and `rest` are the constraints
  -- before and behind it.
  unfoldable pub meet_kinds :
      (Packages → Package → M Appended)
      → Package
      → Kind
      → Package
      → Kind
      → Packages
      → Packages
      → M Appended
  unfolding revalidate is_valid_version new_address
  meet_kinds again pkg (installed i) c (installed j) kept rest =
      if text_eq pkg.hash c.hash
      then pure (kept ++ (c ∷ rest), false)
      else refuse (conflict_message pkg c)
  meet_kinds again pkg (ghost g) c (ghost h) kept rest =
      let vs = lib.versions.meet g.versions h.versions in
      if lib.versions.same vs h.versions
      then pure (kept ++ (c ∷ rest), false)
      else (if not (lib.versions.is_empty vs)
          then (do
            address ← new_address
            new ← lift (ghost_with_versions address c h vs)
            cs ← revalidate again (kept ++ (new ∷ [])) rest
            pure (cs, false))
          else refuse (disjoint_message pkg c))
  meet_kinds again pkg (installed i) c (ghost h) kept rest =
      if is_valid_version h i.version
      then (do cs ← revalidate again (kept ++ (pkg ∷ [])) rest; pure (cs, not (is_empty cs)))
      else refuse (unmatched_message pkg h)
  meet_kinds again pkg (ghost g) c (installed j) kept rest =
      if is_valid_version g j.version
      then (do cs ← revalidate again (kept ++ (c ∷ [])) rest; pure (cs, false))
      else refuse (unmatched_message c g)

  -- The loop over the constraints, with those that were kept so far.
  unfoldable pub scan :
      (Packages → Package → M Appended) → Package → Packages → Packages → M Appended
  unfolding meet_kinds
  scan again pkg kept [] = pure (kept ++ (pkg ∷ []), true)
  scan again pkg kept (c ∷ rest) = elim (text_eq pkg.name c.name) [
    | false ↦ elim (lib.texts.is_empty (names_in_common pkg c)) [
      | true ↦ scan again pkg (kept ++ (c ∷ [])) rest
      | false ↦ refuse (overlap_message pkg c)
    ]
    | true ↦ meet_kinds again pkg pkg.kind c c.kind kept rest
  ]

  -- The first argument bounds the depth of the recursion.
  unfoldable pub append_within : ℕ → Packages → Package → M Appended
  unfolding scan
  append_within zero cs pkg = lift exhausted
  append_within (suc f) cs pkg = scan (append_within f) pkg [] cs

  -- A recursive call is made on fewer constraints than the call that makes it.
  unfoldable pub append_constraint : Packages → Package → M Appended
  unfolding append_within
  append_constraint cs pkg = append_within (suc (suc (length cs))) cs pkg
