-- ===== src/ContextTests.antt =====
-- The theorems on the context at concrete inputs, and a run.
use rmc_spock.Base.{[], ◌∷◌, codes, ok, ◌≡◌, refl, Perm, text_eq, sort_by, Outcome}
use rmc_spock.Libraries.Graphs.{GraphOps}
use rmc_spock.Libraries.Samples.{list_map_laws}
use rmc_spock.Libraries.ListGraphs.{ListGraph, list_graphs, path_length}
use rmc_spock.Libraries.ListGraphLaws.{list_graph_laws}
use rmc_spock.Version
use rmc_spock.Package
use rmc_spock.Package.{Package, installed}
use rmc_spock.PackageLists.{Packages}
use rmc_spock.Context.Lattice.{dependency_lattice, sort_by_dependency_lattice}
use rmc_spock.Context.Ordered.{InDependencyOrder, sort_by_dependency_lattice-InDependencyOrder}
use rmc_spock.TestData.{v_1_7, libraries, boost_pattern, sample_package, gcc, boost_installed}

instance abbrev graphs : GraphOps
graphs = list_graphs

-- A package that depends on Boost.
abbrev parser : Package
parser = sample_package (codes "00000003") (codes "parser") [] (
    installed (record {
      version = v_1_7;
      dependency_patterns = boost_pattern ∷ [];
      installed_time_stamp = 1;
      used_time_stamp = 2;
      environment_search_paths = [];
    }))

abbrev some_packages : Packages
some_packages = parser ∷ boost_installed ∷ gcc ∷ []

abbrev made : Outcome ListGraph → ListGraph
made (ok g) = g
made _ = record { nodes = []; arcs = [] }

program : Unit {0}
unfolding dependency_lattice sort_by_dependency_lattice Package.dependency_patterns
    Package.to_string path_length text_eq Version.to_string rmc_spock.Package.Match.matches
    rmc_spock.Pattern.matches_version rmc_spock.Version.extends rmc_spock.Version.version_eq
    rmc_spock.Version.is_empty_version
program = tt

sort_by_dependency_lattice-InDependencyOrder_example :
    (sorted : Packages) × (sort_by_dependency_lattice some_packages ≡ ok sorted)
    × Perm sorted some_packages
    × InDependencyOrder sorted
unfolding program
sort_by_dependency_lattice-InDependencyOrder_example =
    sort_by_dependency_lattice-InDependencyOrder list_graph_laws list_map_laws some_packages
      (made (dependency_lattice some_packages)) refl

boost_first : sort_by_dependency_lattice some_packages ≡ ok (boost_installed ∷ parser ∷ gcc ∷ [])
unfolding program sort_by
boost_first = refl
