-- ===== src/Placement.antt =====
-- metadata/placement: which nodes are chosen out of a list of candidates.
pub mod Sorting
pub mod Strategy
pub mod Eligible
pub mod Choice
pub mod Primary
