-- ===== src/Walk.antt =====
-- runstate/walk.py: the lineage walk.
pub mod Node
pub mod Backward
pub mod Chain
pub mod Lineage
pub mod Membership
