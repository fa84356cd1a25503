-- ===== src/Persistence.antt =====
-- baseline/lib/testpersistence: grants, attachment, the authority ledger, restores and identities.
pub mod Grants
pub mod Access
pub mod Attachment
pub mod Earned
pub mod Ledger
pub mod Chain
pub mod Snapshot
pub mod Evidence
pub mod Agreement
mod Tests
