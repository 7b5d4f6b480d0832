-- ===== src/Pattern/Compare.antt =====
-- How the comparison operators of src/Spock/PackagePattern.C select versions.
use rmc_spock.Base.{◌≡◌, true, false, arith}
use rmc_spock.Libraries.{VersionNumber}
use rmc_spock.Version.{is_empty_version}
use rmc_spock.Version.Order.{version_lt_irrefl, version_eq_sound, extends_refl, extends-ge}
use rmc_spock.Pattern.{
  PackagePattern, VersOp, vers_eq, vers_ne, vers_lt, vers_le, vers_gt, vers_ge, vers_hy,
  matches_version,
}

abbrev pub with_op : PackagePattern → VersOp → PackagePattern
with_op p o = record p { vers_op = o }

-- For one version in the pattern: what `=` selects, `-` and `<=` select too; what `-` selects, `>=`
-- selects too; what `<` selects, `<=` and `!=` select too; and what `>` selects, `>=` and `!=`
-- select too.
pub matches_version_inclusions :
    (p : PackagePattern) (v : VersionNumber)
    → is_empty_version p.version ≡ false
    → (matches_version (with_op p vers_eq) v ≡ true
        → (matches_version (with_op p vers_hy) v ≡ true)
          × (matches_version (with_op p vers_le) v ≡ true))
      × (matches_version (with_op p vers_hy) v ≡ true
          → matches_version (with_op p vers_ge) v ≡ true)
      × (matches_version (with_op p vers_lt) v ≡ true
          → (matches_version (with_op p vers_le) v ≡ true)
            × (matches_version (with_op p vers_ne) v ≡ true))
      × (matches_version (with_op p vers_gt) v ≡ true
          → (matches_version (with_op p vers_ge) v ≡ true)
            × (matches_version (with_op p vers_ne) v ≡ true))
unfolding matches_version
matches_version_inclusions p v h = rw h (
  λ e. (rw (version_eq_sound v p.version e) (extends_refl p.version), ground arith),
  λ e. ground (arith, extends-ge v p.version),
  λ e. (ground arith, ground (arith, version_eq_sound v p.version, version_lt_irrefl p.version)),
  λ e. (ground arith, ground arith),
)
