-- ===== src/Drives.antt =====
-- baseline/lib/drive_guard.py and physical_device_safety.py: which drive may be written to.
pub mod Guard
pub mod Format
pub mod Device
pub mod Target
mod Tests
