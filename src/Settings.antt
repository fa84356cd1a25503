-- ===== src/Settings.antt =====
-- baseline/lib/registry.py, the tables that every registry of the program is kept in, and
-- settings_store.py, the settings on top of them.
pub mod Registry
pub mod Store
pub mod Spec
pub mod Refines
pub mod Reads
pub mod Valid
pub mod Apart
mod Tests
