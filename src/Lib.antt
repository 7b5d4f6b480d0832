-- ===== src/Lib.antt =====
-- Spock, a package manager that lets many installations of a package stand side by side: versions
-- and patterns select packages, and a solver looks for packages that can be used together.
--
-- The parts, with the files of the repository's src/Spock that they model:
--
-- * Version (VersionNumber.C): dotted versions; `parse` is the constructor, `version_eq`, `extends`
--   and `version_lt` are `operator==`, `operator-` and `operator<`, which Version/Order treats as
--   relations; Version/Print is about texts, and Version/Bounds about the numbers in them.
-- * Pattern (PackagePattern.C): `Pattern.parse`, `Pattern.to_string`, `matches_version`; the overload
--   of `matches` for a package is in Package/Match.
-- * Definition (DefinedPackage.C): the readers of a package's YAML file, and in Definition/Groups the
--   versions that have their dependencies in common. Definition/Parasites has the constructor, the
--   parasites and the shell variables, Definition/Script the texts that are written. Definition/Checked
--   says what is refused, Definition/Recorded which dependencies are written down, and
--   Definition/Partition, on Definition/Taken, how the versions are grouped.
-- * Installed (InstalledPackage.C): an installed package as it is read from its YAML document.
-- * Package (Package.C, GhostPackage.C, InstalledPackage.h): an installed package, or a ghost that
--   stands for versions that could be installed; names, texts, `identical`, `excludes`.
-- * PackageLists (PackageLists.C): the lists of candidates that the solver chooses from.
-- * Directory (Directory.C): the known packages, by hash and by name. Directory/Find and
--   Directory/Inserted follow packages from `erase` and `insert` to `find`; Directory/Sound is about
--   directories of packages that are as their constructors assert.
-- * Environment (Environment.C): environment variables and their parts. Environment/Parts treats `split`,
--   Environment/Added the loop that adds parts, Environment/Unique `appendUnique` and `prependUnique`.
-- * Context (Context.C): the stack of environments, the packages in use (Context/Employ), saved stacks
--   (Context/Excursion), and the searches. Context/Lattice has the dependency lattice and the sorting by it;
--   Context/InEdges, Context/Heads, Context/Removal and Context/Covers lead to its order in
--   Context/Ordered. Context/Each is about the loop of `insertEmployed`.
-- * Install (DefinedPackage.C, Context.C): the steps of an installation, which change the context and may
--   end with an exception; Install/Effects has such steps and `SavedStack`, Install/Solving
--   `solveDependencies`, Install/Parasites `postInstall`, Install/Build `install`. Install/Kept goes through
--   the steps with an invariant, Install/Stack says what is left of the
--   environments, and Install/Solved what `solveDependencies` returns.
-- * Solver (Solver.C): Solver/State has the fields and the actions, Solver/Constraint
--   `appendConstraint`, Solver/Extend `extendLists`, Solver/Search both `solve` functions. The solver
--   reaches the context through the record `SolverContext`. Solver/Relation and Solver/Tighten say
--   what constraints mean, Solver/Results has the results of `appendConstraint`,
--   which Solver/Revalidate, Solver/Meet and Solver/Append treat; Solver/Triple has the rules for actions.
--   Solver/Candidates is about the packages in the lists of `extendLists`, Solver/Narrowed and
--   Solver/Answers about the patterns that these lists stand for, and Solver/Choice, Solver/Sound and
--   Solver/Solutions about the search.
--
-- Of the tools in src:
--
-- * Filter (spock-filter.C): Filter/State has the variables and what a round of the loop is told,
--   Filter/Transfer `transferData`, Filter/Events the classes derived from `DoThenWait`, Filter/Loop
--   `mainLoop`. Filter/Ends bounds the time to the exit, Filter/Signals and Filter/Exits follow the
--   signals, and Filter/Copies the bytes.
-- * Compiler (spock-compiler.C): Compiler/Quote prints words for the shell, Compiler/Shell is a reader of
--   such words that Compiler/RoundTrip compares with it, Compiler/Wrapper has the checks and `main`, and
--   Compiler/Calls and Compiler/Launch say when the compiler is run.
-- * Tools (spock-ls.C, spock-rm.C, spock-shell.C): Tools/Listing and Tools/Removal select, show and
--   remove packages; Tools/Order treats sorting without repetitions, and Tools/Selected says what is
--   listed and removed. Tools/Asking has the questions of spock-shell, with the typed lines as an input
--   that may end, and Tools/Answers says that they are answered.
--
-- Conventions. A `std::string` is the list of its bytes (Base/Texts). A call ends with an `Outcome`:
-- a value, an exception, a failed assertion (`aborted`), or `exhausted` where the model's own bound
-- on a recursion is met. The pointer of a package is its `address`, and a package that is made takes
-- the solver's next address. `std::sort` is one of the results that the standard allows.
--
-- Boost, Sawyer, yaml-cpp and the regular expressions are parameters (Libraries, Libraries/Graphs), with
-- laws for documented behaviour (Libraries/Laws) and small implementations that meet them
-- (Libraries/Samples, Libraries/ListGraphs, Libraries/ListGraphLaws).
--
-- Bounds. `appendConstraint` calls itself on shorter lists of constraints, so the length of the list
-- bounds its depth. The search takes its depth as an argument; where it is met the model's result is
-- `exhausted`, and what is said of solutions holds at every depth. `split` of Environment takes the
-- length of the text, which is enough where the separator is not empty. The loop of Filter runs over a
-- list of rounds, each with the answers of the system calls in it.
--
-- Not modelled: diagnostics, command lines, the file system, the start of processes and shell scripts, the
-- coloured form of a package's text, and of the context the scans of directories.
pub mod Base
pub mod Libraries
pub mod Version
pub mod Pattern
pub mod Definition
pub mod Package
pub mod PackageLists
pub mod Directory
pub mod Environment
pub mod Context
pub mod Installed
pub mod Solver
pub mod Filter
pub mod Compiler
pub mod Tools
pub mod Install
mod TestData
mod VersionTests
mod SolverTests
mod ContextTests
mod InstallTests
mod Tests
mod ToolTests
