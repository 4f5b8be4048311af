-- ===== src/Vocabulary.antt =====
-- runstate/vocabulary: the protocol's topics, bodies, coordinates and schedules.
pub mod Topic
pub mod Outcome
pub mod Checks
pub mod Payloads
pub mod Coordinate
pub mod Schedule
