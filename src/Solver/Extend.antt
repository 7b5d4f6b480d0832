-- ===== src/Solver/Extend.antt =====
-- `extendLists` of src/Spock/Solver.C.
use rmc_spock.Base.{
  Bool, true, false, not, Option, none, some, List, [], ◌∷◌, ◌++◌, codes, is_empty, any, threw,
  not_found, assert, if◌then◌else◌,
}
use rmc_spock.Libraries.{VersionNumber, Libraries}
use rmc_spock.Version.{is_empty_version}
use rmc_spock.Pattern
use rmc_spock.Pattern.{PackagePattern, matches_version}
use rmc_spock.Package.{
  Package, Kind, installed, ghost, to_string, identical, excludes, ghost_with_versions,
}
use rmc_spock.PackageLists.{Packages, PackageLists, insert, sort, list_exists}
use rmc_spock.Solver.State.{SolverContext, M, pure, ◌>>=◌, ◌>>◌, lift, insert_message, new_address}

module _ ⦃lib : Libraries⦄ where
  -- The versions that the pattern matches, as a set.
  unfoldable pub matching_versions :
      PackagePattern → lib.versions.Carrier → List VersionNumber → lib.versions.Carrier
  matching_versions pattern set [] = set
  matching_versions pattern set (v ∷ vs) =
      matching_versions pattern
        (if matches_version pattern v then lib.versions.insert set v else set) vs

  -- One package that was found: a ghost is narrowed to the versions that match.
  unfoldable pub narrow : PackagePattern → Package → Kind → M Package
  unfolding matching_versions
  narrow pattern p (installed i) = pure p
  narrow pattern p (ghost g) = do
    let matching = matching_versions pattern lib.versions.empty (lib.versions.values g.versions)
    lift (assert (not (lib.versions.is_empty matching)))
    if lib.versions.same matching g.versions
        then pure p
        else (do address ← new_address; lift (ghost_with_versions address p g matching))

  unfoldable pub narrow_all : PackagePattern → Packages → M Packages
  unfolding narrow
  narrow_all pattern [] = pure []
  narrow_all pattern (p ∷ ps) = do
    q ← narrow pattern p p.kind
    qs ← narrow_all pattern ps
    pure (q ∷ qs)

  -- The first constraint that excludes the package.
  unfoldable pub find_excluding : Packages → Package → Option Package
  find_excluding [] p = none
  find_excluding (c ∷ cs) p =
      let rest = find_excluding cs p in if excludes c p then some c else rest

  unfoldable pub remove_conflicting : Packages → Packages → M Packages
  unfolding find_excluding
  remove_conflicting constraints [] = pure []
  remove_conflicting constraints (p ∷ ps) = elim (find_excluding constraints p) [
    | none ↦ (do rest ← remove_conflicting constraints ps; pure (p ∷ rest))
    | some c ↦ (do
      insert_message (to_string p ++ (codes " conflicts with " ++ to_string c))
      remove_conflicting constraints ps)
  ]

  -- Whether the one package that was found is a constraint already.
  unfoldable pub is_constraint : Packages → Packages → Bool
  is_constraint constraints [] = false
  is_constraint constraints (p ∷ []) = any (identical p) constraints
  is_constraint constraints (p ∷ q ∷ ps) = false

  -- What is done with the packages that do not conflict: the new lists, and whether to go on.
  unfoldable pub extend_with : Packages → PackageLists → Packages → PackageLists × Bool
  unfolding is_constraint insert list_exists
  extend_with constraints plists [] = (insert plists [], false)
  extend_with constraints plists (p ∷ ps) =
      if is_constraint constraints (p ∷ ps)
      then (plists, true)
      else (if list_exists plists (sort (p ∷ ps))
          then (plists, true)
          else (insert plists (sort (p ∷ ps)), true))

  module _ (ctx : SolverContext) where
    -- One round of the loop over the patterns.
    unfoldable pub extend_by : Packages → PackageLists → PackagePattern → M (PackageLists × Bool)
    unfolding narrow_all remove_conflicting extend_with insert is_empty_version
    extend_by constraints plists pattern =
        if is_empty pattern.name
        then lift (
            threw (
              not_found (
                codes "no package name in \""
                ++ (Pattern.to_string lib.boost pattern ++ codes "\""))))
        else (do
          all_found ← lift (ctx.find_packages pattern)
          found ←
              if is_empty_version pattern.version
              then pure all_found
              else narrow_all pattern all_found
          elim found [
            | [] ↦ (do
              insert_message
                  (codes "no matching packages for " ++ Pattern.to_string lib.boost pattern)
              pure (insert plists [], false))
            | p ∷ ps ↦ (do
              usable ← remove_conflicting constraints (p ∷ ps)
              pure (extend_with constraints plists usable))
          ])

    unfoldable pub extend_lists : Packages → PackageLists → List PackagePattern → M PackageLists
    unfolding extend_by
    extend_lists constraints plists [] = pure plists
    extend_lists constraints plists (pattern ∷ patterns) = do
      r ← extend_by constraints plists pattern
      elim r.1 [ true ↦ extend_lists constraints r.0 patterns | false ↦ pure r.0 ]
