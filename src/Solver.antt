-- ===== src/Solver.antt =====
-- src/Spock/Solver.C, in the order of its parts: the state, one constraint, the lists, the search.
pub mod State
pub mod Constraint
pub mod Extend
pub mod Relation
pub mod Revalidate
pub mod Results
pub mod Meet
pub mod Append
pub mod Tighten
pub mod Triple
pub mod Candidates
pub mod Search
pub mod Narrowed
pub mod Answers
pub mod Choice
pub mod Sound
pub mod Solutions
