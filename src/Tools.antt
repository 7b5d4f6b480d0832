-- ===== src/Tools.antt =====
-- The tools `spock-ls`, `spock-rm` and `spock-shell`: which packages they select, show and remove, and what they ask.
pub mod Listing
pub mod Removal
pub mod Asking
pub mod Answers
pub mod Order
pub mod Selected
