-- ===== src/Interfaces.antt =====
-- baseline/lib/ifnet_config.py: the interfaces configuration, how it is parsed and how it is rewritten.
pub mod Data
pub mod Recognize
pub mod Parser
pub mod Rewrite
pub mod Located
pub mod Frame
pub mod Closure
mod Tests
