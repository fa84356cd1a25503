-- ===== src/FirstBoot/Machine.antt =====
-- What a run of baseline/lib/firstboot_statemachine.py works with: the answers of the machine and of the
-- person at tty1, the things that it does to the system, and how it goes on from stage to stage.
-- Each call out of the module is made at most once in a run, so that its result is a part of the run's
-- `World`. What is printed is left out.
use base_line_prox.Base.{String, Bool, true, false, Option, List, ◌∷◌, Result, ok, err}
use base_line_prox.Base.Dict.{Dict}
use base_line_prox.FirstBoot.Journal.{
  State, Check, Discovery, Diagnosis, StageResult, Detail, Journal, Error, record_transition,
}

pub record RepairResult : Type 0 where
  pub ok : Bool
  pub detail : String
  pub verification : Dict String Check

pub record World : Type 0 where
  -- the clock's text for an entry of a state
  pub ts : State → String
  -- `proxmox_detect.detect_proxmox_install`
  pub installed : Bool
  pub version : String
  pub evidence : String
  -- `firstboot_network_repair`: discover, diagnose, facts_verification, observed_dev
  pub discover : Discovery
  pub diagnose : Discovery → Diagnosis
  pub facts_verification : String → Dict String Check
  pub observed_dev : String → Option String
  -- `wait_for_confirmation`
  pub confirms : Bool
  -- `reset_interface_to_dhcp` and `add_dhcp_to_bridge`, at a target
  pub reset_interface : Option String → RepairResult
  pub add_dhcp : Option String → RepairResult
  pub install_tools : StageResult
  pub verify_tools : StageResult

-- What a run does, in order: the files it writes and the calls that change the system.
pub data Effect : Type 0 where
  wrote : Journal → Effect
  marked : Effect
  asked : (answer : Bool) → Effect
  resets_interface adds_dhcp : Option String → Effect
  installs_tools verifies_tools : Effect
  applies_settings : (enforce_lan_only : Bool) → Effect

-- `action`, with `package_install_allowed`
pub data Outcome : Type 0 where
  already_completed committed declined : Outcome
  refused network_failed packages_failed packages_verify_failed : String → Outcome

abbrev pub package_install_allowed : Outcome → Bool
package_install_allowed declined = false
package_install_allowed (refused reason) = false
package_install_allowed (network_failed detail) = false
package_install_allowed _ = true

-- the journal in memory, and what was done, the latest first
pub record Machine : Type 0 where
  pub journal : Journal
  pub trace : List Effect

pub data Flow : Type 0 where
  going : Machine → Flow
  stops : Outcome → Machine → Flow
  raises : Error → Machine → Flow

infixl 5 ◌▷◌
abbrev pub ◌▷◌ : Flow → (Machine → Flow) → Flow
going m ▷ next = next m
stops o m ▷ next = stops o m
raises e m ▷ next = raises e m

abbrev pub machine_of : Flow → Machine
machine_of (going m) = m
machine_of (stops o m) = m
machine_of (raises e m) = m

abbrev pub act : Effect → Machine → Machine
act e m = record m { trace = e ∷ m.trace }

-- goes on with a value, or raises
abbrev pub with_value {ℓ} : {A : Type ℓ} → Result Error A → Machine → (A → Flow) → Flow
with_value x m next = elim x [ ok a ↦ next a | err e ↦ raises e m ]

-- `record_transition`: the journal is replaced and written, or the call raises
unfoldable pub records : World → State → Detail → Machine → Flow
unfolding record_transition
records w s d m = elim (record_transition (w.ts s) s d m.journal) [
  | err e ↦ raises e m
  | ok j ↦ going (record { journal = j; trace = wrote j ∷ m.trace })
]
