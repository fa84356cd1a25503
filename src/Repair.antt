-- ===== src/Repair.antt =====
-- baseline/lib/repair.py, repair_additive.py and repair_rollback.py: the repair of a host's network
-- configuration, and its rollback.
pub mod Reading
pub mod Terminates
pub mod Host
pub mod Checks
pub mod Attempts
pub mod Pipeline
pub mod Rollback
pub mod Backups
pub mod Safe
pub mod Before
pub mod Armed
pub mod Writes
pub mod Settles
pub mod Restores
pub mod Recovers
pub mod Latest
pub mod Plan
pub mod Proposed
pub mod Evident
pub mod Retention
mod Tests
