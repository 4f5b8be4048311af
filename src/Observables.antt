-- ===== src/Observables.antt =====
-- runstate/observables.py: the observer plane, what is read of a run from its log.
pub mod Head
pub mod Tail
pub mod Stops
pub mod Held
pub mod HeadFold
pub mod Verdict
pub mod Reads
pub mod Demand
pub mod Heartbeat
