-- ===== src/Compiler.antt =====
-- The tool `spock-compiler` of src/spock-compiler.C: quoting of a command for the shell, and the
-- checks before the compiler is run.
pub mod Quote
pub mod Shell
pub mod Wrapper
pub mod RoundTrip
pub mod Calls
pub mod Launch
