-- ===== src/TestData.antt =====
-- The versions, packages and libraries that the tests share.
use rmc_spock.Base.{List, [], ◌∷◌, Text, codes}
use rmc_spock.Libraries.{VersionNumber, Libraries}
use rmc_spock.Libraries.Samples.{sample_libraries, no_doc}
use rmc_spock.Pattern.{PackagePattern, vers_hy}
use rmc_spock.Package.{Package, Kind, installed, ghost}

abbrev pub v_1_62 : VersionNumber
v_1_62 = record { parts = codes "1" ∷ codes "62" ∷ [] }

abbrev pub v_1_62_0 : VersionNumber
v_1_62_0 = record { parts = codes "1" ∷ codes "62" ∷ codes "0" ∷ [] }

abbrev pub v_1_7 : VersionNumber
v_1_7 = record { parts = codes "1" ∷ codes "7" ∷ [] }

abbrev pub boost_pattern : PackagePattern
boost_pattern = record { name = codes "boost"; vers_op = vers_hy; version = v_1_62; hash = [] }

instance abbrev pub libraries : Libraries
libraries = sample_libraries

abbrev pub sample_package : Text → Text → List Text → Kind → Package
sample_package hash name aliases kind = record {
  address = 0;
  hash = hash;
  name = name;
  aliases = aliases;
  kind = kind;
}

abbrev pub version_kind : VersionNumber → Kind
version_kind v = installed (record {
  version = v;
  dependency_patterns = [];
  installed_time_stamp = 1;
  used_time_stamp = 2;
  environment_search_paths = [];
})

abbrev pub ghost_kind : List VersionNumber → Kind
ghost_kind vs = ghost (record {
  definition = record { name = codes "boost"; config_file = []; config = no_doc; versions = vs };
  versions = vs;
})

abbrev pub gcc : Package
gcc =
    sample_package (codes "00000001") (codes "gnu-c++11") (codes "c++-compiler" ∷ [])
      (version_kind v_1_62)

abbrev pub boost_ghost : Package
boost_ghost = sample_package [] (codes "boost") [] (ghost_kind (v_1_7 ∷ v_1_62 ∷ []))

abbrev pub boost_installed : Package
boost_installed = sample_package (codes "00000002") (codes "boost") [] (version_kind v_1_62)
