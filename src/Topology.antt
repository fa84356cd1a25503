-- ===== src/Topology.antt =====
-- baseline/lib/topology.py: which interface a network repair may change.
pub mod Stanzas
pub mod Walk
pub mod Edges
pub mod Closed
pub mod Rounds
pub mod Target
pub mod Derived
pub mod Unique
pub mod Depth
pub mod Again
mod Tests
