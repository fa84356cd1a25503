-- ===== src/Repair/Host.antt =====
-- What a repair works on: the files of the host, the attempts under /var/lib/baseline/repair, the pending
-- manifest and the timers of systemd; and what the outside answers in one run.
-- The JSON files are the values that they hold. An attempt's directory is a space of its own, which no
-- interfaces file is in. Times are whole microseconds.
use base_line_prox.Base.{ℕ, String, Bool, true, false, Option, List, [], ◌∷◌, ◌++◌, Result, ok, err}
use base_line_prox.Base.Dict.{Dict}
use base_line_prox.Interfaces.Data.{Text, Name}
use base_line_prox.Repair.Reading.{Directories}

pub record CommandResult : Type 0 where
  pub returncode : ℕ
  pub stdout : Text
  pub stderr : Text

-- an entry of `backup_manifest.json`
pub record BackedUp (D : Type 0) : Type 0 where
  pub backup_name : Text
  pub hash : D

-- `backup/`, `backup_manifest.json` and `attempt_status.json` of an attempt
pub record Attempt (D : Type 0) : Type 0 where
  pub backups : Dict Text Text
  pub manifest : Option (Dict Text (BackedUp D))
  pub status : Option (String × ℕ)

pub record PendingManifest : Type 0 where
  pub attempt_id : Text
  pub target_interface : Name
  pub rollback_unit : Text

pub record Event : Type 0 where
  pub step : String
  pub status : String

pub record Host (D : Type 0) : Type 0 where
  pub files : Dict Text Text
  pub attempts : Dict Text (Attempt D)
  pub pending : Option PendingManifest
  pub timers : List Text
  pub log : List Event

-- the answers to the commands of one round of `verify_target`
pub record Probe : Type 0 where
  pub addresses : CommandResult
  pub routes : CommandResult
  pub ping : CommandResult

pub record World (D : Type 0) : Type 0 where
  pub directories : Directories
  pub sha256 : Text → D
  -- what a file holds after a text was written to it
  pub written : Text → Text → Text
  pub now : ℕ
  pub corosync_config : Bool
  pub pvecm_status : CommandResult
  pub which_ifreload : CommandResult
  pub ifupdown2_version : CommandResult
  pub extra_ports : List ℕ
  pub sockets : CommandResult
  pub facts : List (String × Bool)
  -- what others do to the files between the backup and the second look at them
  pub edits : Dict Text Text → Dict Text Text
  pub systemd_run : CommandResult
  pub systemctl_stop : CommandResult
  pub syntax_check : CommandResult
  pub reload : CommandResult
  pub dhclient : CommandResult
  pub first_probe : Probe
  pub second_probe : Probe
  pub name_lookup : CommandResult
  pub fetch : CommandResult

-- the codes of `RepairRefused`
pub data Code : Type 0 where
  cluster_member unsupported_environment topology_ambiguous no_candidate already_healthy : Code
  protected_connection_unattended backup_unverified rollback_arm_failed : Code
  concurrent_config_change rewrite_error syntax_invalid apply_failed dhclient_failed : Code

-- `RepairRefused`, and any other exception, which no one catches
pub data Stop : Type 0 where
  refused : Code → Stop
  crashed : Stop

-- a step on the host: its value or what it raises, and the host behind it
abbrev pub M : Type 0 → Type 0 → Type 0
M D A = Host D → Result Stop A × Host D

module _ {D : Type 0} where
  infixl 5 ◌>>=◌ ◌>>◌
  abbrev pub after : {A B : Type 0} → (A → M D B) → Result Stop A × Host D → Result Stop B × Host D
  after f (ok a, h) = f a h
  after f (err e, h) = (err e, h)

  abbrev pub ◌>>=◌ : {A B : Type 0} → M D A → (A → M D B) → M D B
  ◌>>=◌ m f h = after f (m h)

  abbrev pub ◌>>◌ : {B : Type 0} → M D (Unit {0}) → M D B → M D B
  m >> k = m >>= λ done. k

  abbrev pub pure : {A : Type 0} → A → M D A
  pure a h = (ok a, h)

  abbrev pub raise : {A : Type 0} → Stop → M D A
  raise e h = (err e, h)

  -- raises a refusal unless the test holds
  abbrev pub require : Bool → Code → M D (Unit {0})
  require test code h = elim test [ true ↦ (ok tt, h) | false ↦ (err (refused code), h) ]

  -- `log_event`
  abbrev pub log_event : String → String → M D (Unit {0})
  log_event step status h =
      (ok tt, record h { log = h.log ++ record { step = step; status = status } ∷ [] })
