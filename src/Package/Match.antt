-- ===== src/Package/Match.antt =====
-- `PackagePattern::matches` of src/Spock/PackagePattern.C for a package.
use rmc_spock.Base.{Bool, false, not, ◌&&◌, text_eq, is_empty, any, if◌then◌else◌}
use rmc_spock.Libraries.{Libraries}
use rmc_spock.Pattern.{PackagePattern, matches_version}
use rmc_spock.Package.{Package, Kind, installed, ghost, version}

module _ ⦃lib : Libraries⦄ where
  abbrev matches_kind : PackagePattern → Package → Kind → Bool
  matches_kind pattern p (installed i) = matches_version pattern (version p)
  matches_kind pattern p (ghost g) = any (matches_version pattern) (lib.versions.values g.versions)

  unfoldable pub matches : PackagePattern → Package → Bool
  unfolding version
  matches pattern p =
      if not (is_empty pattern.name)
        && (not (text_eq pattern.name p.name) && not (lib.texts.exists p.aliases pattern.name))
      then false
      else (if not (is_empty pattern.hash) && not (text_eq pattern.hash p.hash)
          then false
          else matches_kind pattern p p.kind)
