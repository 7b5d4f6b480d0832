-- ===== src/ToolTests.antt =====
-- Theorems on the tools applied to concrete inputs, and tests of their definitions.
use rmc_spock.Base.{
  OnOk, All, length, ℕ, Option, List, none, some, true, false, [], ◌∷◌, ◌++◌, ◌≡◌, ◌≢◌, ◌↔◌, inl,
  inr, refl, ◌<◌, arith, Text, codes, text_eq,
}
use rmc_spock.Libraries.{Libraries, VersionNumber}
use rmc_spock.Libraries.Samples.{
  sample_libraries, Doc, flags_doc, table_doc, section_doc, item_doc, object_doc,
}
use rmc_spock.Filter.State.{
  State, Round, open_fd, term_filter, still_running, exited_with, Sent, status,
}
use rmc_spock.Filter.Loop.{run, round, transferred, next_step, advance}
use rmc_spock.Filter.Ends.{HasEnded, run-HasEnded, run-HasEnded_interrupted}
use rmc_spock.Filter.Exits.{run-gone, run-sent}
use rmc_spock.Filter.Signals.{OnlyPrimary, OnlyFilter}
use rmc_spock.Filter.Copies.{run-to_stdout, run-to_filter, outputs_read, errors_read, all_read}
use rmc_spock.Filter.Events.{process}
use rmc_spock.Filter.Transfer.{transfer_data}
use rmc_spock.Compiler.Quote.{wants_c_quotes, print_command, bourne_escape}
use rmc_spock.Compiler.Shell.{shell_words}
use rmc_spock.Compiler.RoundTrip.{
  shell_words-print_command, shell_words-bourne_escape_ne, IsPrinted,
}
use rmc_spock.Compiler.Wrapper.{run_tool, Switches, replaced_by}
use rmc_spock.Compiler.Launch.{run_tool_iff, MayRun}
use rmc_spock.Pattern
use rmc_spock.Pattern.{PackagePattern, matches_version}
use rmc_spock.Version
use rmc_spock.Libraries.Laws.{is_space}
use rmc_spock.Definition.{DefinedPackage}
use rmc_spock.Definition.Parasites.{new_defined_package, parasite_patterns}
use rmc_spock.Definition.Checked.{
  IsRead, IsParasite, new_defined_package-IsRead, parasite_patterns-IsParasite,
}
use rmc_spock.Compiler.Calls.{command_of}

-- Two processes that run, and a filter or none.
abbrev with_processes : ℕ → ℕ → Option ℕ → State
with_processes primary filter input = record {
  primary_pid = primary;
  filter_pid = filter;
  program_exit_status = 0;
  was_interrupted = 0;
  next_event = none;
  output_fd = open_fd 3;
  error_fd = open_fd 5;
  filter_input = input;
  filter_input_closed = false;
  to_filter_bytes = [];
  to_stdout = [];
  to_stderr = [];
  sent = [];
  ended = none;
}

-- A round at a time, in which nothing is ready and nobody has exited.
abbrev quiet_at : ℕ → Round
quiet_at now = record {
  caught = none;
  poll_positive = false;
  output_pollin = false;
  output_pollhup = false;
  error_pollin = false;
  error_pollhup = false;
  read_bytes = none;
  written = 0;
  tested_at = now;
  started_at = now;
  primary_waited = still_running;
  filter_waited = still_running;
  kill_primary_ok = true;
  kill_filter_ok = true;
}

abbrev waiting : State
waiting = record (with_processes 7 8 (some 4)) {
  next_event = some (record { kind = term_filter; wait_until = 20 });
}

run-HasEnded_example : HasEnded (run (quiet_at 15 ∷ quiet_at 40 ∷ []) waiting)
run-HasEnded_example =
    run-HasEnded 30 0 10 (quiet_at 15 ∷ quiet_at 40 ∷ []) waiting
      (record { kind = term_filter; wait_until = 20 }) refl (omega arith) (omega arith)
      (omega arith) (omega arith)

abbrev interrupted : State
interrupted = record (with_processes 7 8 (some 4)) { was_interrupted = 2 }

abbrev later_rounds : List Round
later_rounds =
    quiet_at 30 ∷ quiet_at 60 ∷ quiet_at 90 ∷ quiet_at 120 ∷ quiet_at 150 ∷ quiet_at 180 ∷ []

run-HasEnded_interrupted_example : HasEnded (run (quiet_at 10 ∷ later_rounds) interrupted)
run-HasEnded_interrupted_example =
    run-HasEnded_interrupted 30 0 1 (quiet_at 10) later_rounds interrupted refl
      (λ (e : 2 ≡ 0). absurd (omega (arith, e))) refl (omega arith) (omega arith) (omega arith)

-- The command answers the interrupt with status 3.
abbrev answering : List Round
answering = quiet_at 1 ∷ record (quiet_at 2) { primary_waited = exited_with 3 } ∷ quiet_at 3 ∷ []

abbrev alone : State
alone = record (with_processes 7 0 none) { was_interrupted = 2 }

exits_with_status : (run answering alone).ended ≡ some (status 3)
unfolding run round transferred next_step advance process
exits_with_status = refl

run-gone_example : ((run answering alone).primary_pid ≡ 0) × ((run answering alone).filter_pid ≡ 0)
run-gone_example = run-gone answering alone 3 (refl, refl, refl) exits_with_status

run-sent_example :
    (front : List Sent) × (back : List Sent) × ((run later_rounds interrupted).sent ≡ front ++ back)
    × OnlyPrimary front
    × OnlyFilter back
    × (0 < (run later_rounds interrupted).primary_pid → back ≡ [])
run-sent_example = run-sent later_rounds interrupted (refl, refl, refl)

-- A round that reads two bytes from the standard output, and one that reads a byte from the error.
abbrev reading : List Round
reading =
    record (quiet_at 1) {
      poll_positive = true;
      output_pollin = true;
      error_pollin = true;
      read_bytes = some (codes "ok");
      written = 2;
    }
    ∷ record (quiet_at 2) {
      poll_positive = true;
      error_pollin = true;
      read_bytes = some (codes "!");
      written = 1;
    }
    ∷ []

goes_on : (run reading (with_processes 7 0 none)).ended ≡ none
unfolding run round transferred next_step advance transfer_data
goes_on = refl

goes_on_filtered : (run reading (with_processes 7 8 (some 4))).ended ≡ none
unfolding run round transferred next_step advance transfer_data
goes_on_filtered = refl

run-to_stdout_example :
    ((run reading (with_processes 7 0 none)).to_stdout ≡ [] ++ outputs_read reading)
    × ((run reading (with_processes 7 0 none)).to_stderr ≡ [] ++ errors_read reading)
    × ((run reading (with_processes 7 0 none)).to_filter_bytes ≡ [])
run-to_stdout_example = run-to_stdout reading (with_processes 7 0 none) refl goes_on

run-to_filter_example :
    ((run reading (with_processes 7 8 (some 4))).to_filter_bytes ≡ [] ++ all_read reading)
    × ((run reading (with_processes 7 8 (some 4))).to_stdout ≡ [])
    × ((run reading (with_processes 7 8 (some 4))).to_stderr ≡ [])
run-to_filter_example = run-to_filter reading (with_processes 7 8 (some 4)) 4 refl goes_on_filtered

abbrev command : List Text
command = codes "/usr/bin/c++" ∷ codes "-DNAME=it's" ∷ codes "two words" ∷ (10 ∷ 200 ∷ []) ∷ [] ∷ []

command-IsPrinted : IsPrinted (codes "-DNAME=it's")
unfolding bourne_escape wants_c_quotes
command-IsPrinted = (omega arith, inl refl)

shell_words-print_command_example : shell_words (print_command command) ≡ some command
unfolding bourne_escape wants_c_quotes
shell_words-print_command_example = shell_words-print_command command (
  (omega arith, inr refl),
  (command-IsPrinted, ((omega arith, inr refl), ((omega arith, inl refl), ((tt, inr refl), tt)))),
)

shell_words-bourne_escape_ne_example :
    shell_words (bourne_escape (97 ∷ 92 ∷ 98 ∷ [])) ≢ some ((97 ∷ 92 ∷ 98 ∷ []) ∷ [])
unfolding bourne_escape wants_c_quotes
shell_words-bourne_escape_ne_example = shell_words-bourne_escape_ne (97 ∷ 92 ∷ 98 ∷ []) refl refl

instance abbrev libraries : Libraries
libraries = sample_libraries

abbrev no_switches : Switches
no_switches = record { show_triplet = false; show_base_exe = false; show_base_exe_and_args = false }

abbrev compiler_config : Doc
compiler_config =
    flags_doc
      ((codes "executable", codes "/usr/bin/c++")
        ∷ (codes "language", codes "c++")
        ∷ (codes "vendor", codes "gnu")
        ∷ (codes "version", codes "4.8")
        ∷ (codes "version-output", codes "gcc 4.8")
        ∷ [])
      (codes "-m64" ∷ [])

abbrev gcc_command : List Text
gcc_command = codes "/usr/bin/c++" ∷ codes "-m64" ∷ codes "x.C" ∷ []

run_tool_iff_example :
    (run_tool no_switches true compiler_config
        (λ p. true)
        (λ argv. some (codes "gcc  4.8"))
        (codes "x.C" ∷ [])
      ≡ ([], replaced_by gcc_command))
    ↔ (MayRun no_switches true compiler_config (λ p. true) (λ argv. some (codes "gcc  4.8"))
        × (gcc_command ≡ command_of compiler_config ++ codes "x.C" ∷ []))
run_tool_iff_example =
    run_tool_iff no_switches true compiler_config (λ p. true) (λ argv. some (codes "gcc  4.8"))
      (codes "x.C" ∷ []) gcc_command

-- The compiler is run with its flags.
runs_gcc :
    run_tool no_switches true compiler_config
      (λ p. true)
      (λ argv. some (codes "gcc  4.8"))
      (codes "x.C" ∷ [])
    ≡ ([], replaced_by gcc_command)
unfolding run_tool text_eq
runs_gcc = refl

abbrev boost_definition : Doc
boost_definition =
    table_doc ((codes "package", codes "boost") ∷ (codes "versions", codes "1.62") ∷ [])

new_defined_package-IsRead_example :
    OnOk
      (IsRead (codes "boost") (codes "boost.yaml") boost_definition)
      (new_defined_package (codes "boost") (codes "boost.yaml") boost_definition)
new_defined_package-IsRead_example =
    new_defined_package-IsRead (codes "boost") (codes "boost.yaml") boost_definition

abbrev host : DefinedPackage
host = record {
  name = codes "gcc";
  config_file = codes "gcc.yaml";
  config =
      section_doc (codes "post-install") (
        item_doc
          (object_doc (codes "gcc") (codes "parasites") (codes "boost" ∷ codes "zlib" ∷ [])));
  versions = [];
}

abbrev some_version : VersionNumber
some_version = record { parts = codes "1" ∷ [] }

parasite_patterns-IsParasite_example :
    OnOk
      (All (λ (r : PackagePattern × List Text). IsParasite host r.0))
      (parasite_patterns (λ t. t ∷ []) host some_version)
parasite_patterns-IsParasite_example = parasite_patterns-IsParasite (λ t. t ∷ []) host some_version

-- Two parasites are found.
finds_parasites :
    OnOk
      (λ (rs : List (PackagePattern × List Text)). length rs ≡ 2)
      (parasite_patterns (λ t. t ∷ []) host some_version)
unfolding parasite_patterns text_eq Pattern.parse matches_version Version.parse is_space
finds_parasites = refl
