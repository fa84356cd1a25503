-- ===== src/FirstBoot.antt =====
-- baseline/lib/firstboot_statemachine.py: the state machine of the first boot.
pub mod Journal
pub mod Machine
pub mod Stages
pub mod Evidence
pub mod Legal
pub mod Keeps
pub mod KeepsRepair
pub mod Safety
pub mod Crashes
pub mod Steps
pub mod Outcomes
mod Tests
