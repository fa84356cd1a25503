-- ===== src/ConfigPipeline.antt =====
-- baseline/lib/config_pipeline.py: the settings applied at the first boot.
pub mod Pipeline
pub mod Sorted
mod Tests
