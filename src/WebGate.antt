-- ===== src/WebGate.antt =====
-- baseline/lib/web_gate.py: an operation runs only with a proof that the web application asked for it.
pub mod Gate
pub mod Origins
pub mod Schedules
