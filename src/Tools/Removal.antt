-- ===== src/Tools/Removal.antt =====
-- The removal of packages by src/spock-rm.C (lines 57-153). The packages that depend on those to be
-- removed are found by Sawyer's traversal of the dependency lattice, whose result is an input.
use rmc_spock.Base.{
  ℕ, Bool, false, not, ◌&&◌, List, [], ◌∷◌, ◌+◌, ◌*◌, Text, text_eq, any, ltb, length, reverse,
  Outcome, ok, ◌>>=◌, if◌then◌else◌,
}
use rmc_spock.Libraries.{Libraries}
use rmc_spock.Package.{Kind, installed, ghost, to_string}
use rmc_spock.PackageLists.{Packages}
use rmc_spock.Context.{Context, deregister}
use rmc_spock.Tools.Listing.{find_by_patterns}

module _ ⦃lib : Libraries⦄ where
  -- `IsYoungerThan`, for a threshold in seconds.
  abbrev pub is_younger_kind : ℕ → ℕ → Kind → Bool
  is_younger_kind now threshold (installed i) = ltb now (i.used_time_stamp + threshold)
  is_younger_kind now threshold (ghost g) = false

  -- `std::remove_if` with `IsYoungerThan`.
  unfoldable pub drop_younger : ℕ → ℕ → Packages → Packages
  drop_younger now threshold [] = []
  drop_younger now threshold (pkg ∷ pkgs) =
      let rest = drop_younger now threshold pkgs in
      if is_younger_kind now threshold pkg.kind then rest else pkg ∷ rest

  -- The packages that the patterns and the days select.
  unfoldable pub packages_to_remove : Context → ℕ → ℕ → List Text → Outcome Packages
  unfolding find_by_patterns drop_younger
  packages_to_remove ctx now stale_days patterns = do
    packages ← find_by_patterns false ctx 0 patterns
    ok (if ltb 0 stale_days then drop_younger now (stale_days * 86400) packages else packages)

  -- `removed.insert(...).second` is false for a text that is in the set.
  abbrev pub is_removed : Text → List Text → Bool
  is_removed t removed = any (text_eq t) removed

  -- The loop over the packages in reverse order: the context behind it, and the packages that were
  -- removed, or printed if it is a dry run.
  unfoldable pub remove_each : Bool → List Text → Context → Packages → Outcome (Context × Packages)
  unfolding deregister
  remove_each dry_run removed ctx [] = ok (ctx, [])
  remove_each dry_run removed ctx (pkg ∷ pkgs) =
      let skipped = remove_each dry_run removed ctx pkgs in
      let taken = (do
        next ← if dry_run then ok ctx else deregister ctx pkg
        rest ← remove_each dry_run (to_string pkg ∷ removed) next pkgs
        ok (rest.0, pkg ∷ rest.1)) in
      if is_removed (to_string pkg) removed then skipped else taken

  -- What `main` does with the packages to remove, in the order in which they were found.
  pub data Removal : Type 0 where
    refused : Removal
    removed_all : Context → Packages → Removal

  unfoldable pub remove_packages : Bool → Bool → Context → Packages → Outcome Removal
  unfolding remove_each
  remove_packages dry_run use_force ctx to_remove =
      if ltb 1 (length to_remove) && (not use_force && not dry_run)
      then ok refused
      else (do r ← remove_each dry_run [] ctx (reverse to_remove); ok (removed_all r.0 r.1))
