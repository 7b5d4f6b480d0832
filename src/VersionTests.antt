-- ===== src/VersionTests.antt =====
-- The theorems on versions and patterns at concrete inputs, and a run.
use Prim.Native.Nat.{◌^◌}
use rmc_spock.Base.{
  ◌≡◌, refl, ◌↔◌, true, false, [], ◌∷◌, codes, arith, text_eq, text_lt, is_digit, strtoul_from,
  length, ◌≤◌, ◌<◌,
}
use rmc_spock.Libraries.Samples.{list_boost, list_boost_laws}
use rmc_spock.Libraries.Laws.{is_space}
use rmc_spock.Version
use rmc_spock.Version.{
  version_eq, version_lt, extends, whole_number, part_decides, first_difference, parse,
  empty_version,
}
use rmc_spock.Version.Bounds.{whole_number_bound}
use rmc_spock.Version.Order.{
  version_eq_iff, version_lt_asymm, version_lt_trans, version_lt_cycle, version_lt_ambiguous,
  with_last, is_whole,
}
use rmc_spock.Version.Print.{parse-to_string, to_string-parse}
use rmc_spock.Pattern.{
  vers_eq, vers_hy, vers_le, vers_ge, vers_lt, vers_gt, vers_ne, matches_version,
}
use rmc_spock.Pattern.Compare.{with_op, matches_version_inclusions}
use rmc_spock.Definition.{is_supported_version}
use rmc_spock.Package.{names_in_common}
use rmc_spock.TestData.{v_1_62, v_1_62_0, v_1_7, boost_pattern, libraries}

program : Unit {0}
unfolding version_lt version_eq extends whole_number part_decides is_digit strtoul_from text_eq
    text_lt is_whole is_space matches_version Version.to_string Version.is_empty_version
    names_in_common is_supported_version
program = tt

lt_numeric : version_lt v_1_7 v_1_62 ≡ true
unfolding program
lt_numeric = refl

version_eq_iff_example : (version_eq v_1_62 v_1_7 ≡ true) ↔ (v_1_62 ≡ v_1_7)
version_eq_iff_example = version_eq_iff v_1_62 v_1_7

whole_number_bound_example :
    (length (codes "062") ≤ 6) × (62 < 10 ^ length (codes "062")) × (62 < 2 ^ 31)
unfolding program
whole_number_bound_example = whole_number_bound (codes "062") 62 refl

version_lt_asymm_example : version_lt v_1_62 v_1_7 ≡ false
unfolding program
version_lt_asymm_example = version_lt_asymm v_1_7 v_1_62 refl

version_lt_trans_example : version_lt v_1_7 v_1_62_0 ≡ true
unfolding program
version_lt_trans_example =
    version_lt_trans (λ n. true) v_1_7 v_1_62 v_1_62_0 (refl, (refl, tt)) (refl, (refl, tt))
      (refl, (refl, (refl, tt))) refl refl

version_lt_cycle_example :
    (version_lt (with_last (codes "4" ∷ []) (codes "9")) (with_last (codes "4" ∷ []) (codes "10"))
      ≡ true)
    × (version_lt
          (with_last (codes "4" ∷ []) (codes "10"))
          (with_last (codes "4" ∷ []) (codes "1a"))
        ≡ true)
    × (version_lt (with_last (codes "4" ∷ []) (codes "1a")) (with_last (codes "4" ∷ []) (codes "9"))
        ≡ true)
unfolding program
version_lt_cycle_example =
    version_lt_cycle (codes "4" ∷ []) (codes "9") (codes "10") (codes "1a") 9 10 refl refl refl
      (omega arith) refl refl

version_lt_ambiguous_example :
    (version_lt (with_last (codes "1" ∷ []) (codes "5")) (with_last (codes "1" ∷ []) (codes "05"))
      ≡ false)
    × (version_lt (with_last (codes "1" ∷ []) (codes "05")) (with_last (codes "1" ∷ []) (codes "5"))
        ≡ false)
    × (version_eq (with_last (codes "1" ∷ []) (codes "5")) (with_last (codes "1" ∷ []) (codes "05"))
        ≡ false)
unfolding program
version_lt_ambiguous_example =
    version_lt_ambiguous (codes "1" ∷ []) (codes "5") (codes "05") 5 refl refl (λ e. cc)

parse-to_string_example : parse list_boost (Version.to_string list_boost v_1_62) ≡ v_1_62
unfolding program
parse-to_string_example =
    parse-to_string list_boost_laws v_1_62 (codes "1") (codes "62" ∷ []) refl (omega arith)
      (λ e. cc) refl refl

to_string-parse_example :
    Version.to_string list_boost (parse list_boost (codes "1..a")) ≡ codes "1..a"
unfolding program
to_string-parse_example = to_string-parse list_boost_laws (codes "1..a") (λ e. cc) refl refl

matches_version_inclusions_example :
    (matches_version (with_op boost_pattern vers_eq) v_1_62_0 ≡ true
      → (matches_version (with_op boost_pattern vers_hy) v_1_62_0 ≡ true)
        × (matches_version (with_op boost_pattern vers_le) v_1_62_0 ≡ true))
    × (matches_version (with_op boost_pattern vers_hy) v_1_62_0 ≡ true
        → matches_version (with_op boost_pattern vers_ge) v_1_62_0 ≡ true)
    × (matches_version (with_op boost_pattern vers_lt) v_1_62_0 ≡ true
        → (matches_version (with_op boost_pattern vers_le) v_1_62_0 ≡ true)
          × (matches_version (with_op boost_pattern vers_ne) v_1_62_0 ≡ true))
    × (matches_version (with_op boost_pattern vers_gt) v_1_62_0 ≡ true
        → (matches_version (with_op boost_pattern vers_ge) v_1_62_0 ≡ true)
          × (matches_version (with_op boost_pattern vers_ne) v_1_62_0 ≡ true))
unfolding program
matches_version_inclusions_example = matches_version_inclusions boost_pattern v_1_62_0 refl
