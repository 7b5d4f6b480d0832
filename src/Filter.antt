-- ===== src/Filter.antt =====
-- The tool `spock-filter` of src/spock-filter.C: its state, the copying of the command's output,
-- the events that end the two processes, and the main loop.
pub mod State
pub mod Transfer
pub mod Events
pub mod Loop
pub mod Ends
pub mod Signals
pub mod Exits
pub mod Copies
