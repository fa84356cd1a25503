-- ===== src/Operations.antt =====
-- baseline/lib/operations.py: what the web application can run, at once or on a schedule.
pub mod Catalog
pub mod Reach
pub mod Scheduler
pub mod Ticks
mod Tests
