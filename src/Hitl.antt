-- ===== src/Hitl.antt =====
-- baseline/lib/hitl.py: human confirmation of drive actions.
pub mod Types
pub mod Operations
pub mod Approvals
pub mod Calls
pub mod Sound
pub mod Confirming
pub mod Granting
pub mod Invariant
pub mod Confirmed
pub mod Absent
pub mod Spent
pub mod Approved
pub mod Audit
mod Tests
