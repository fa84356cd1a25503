-- ===== src/Repair/Rollback.antt =====
-- baseline/lib/repair_rollback.py: what the timer runs, and what a boot would run.
use base_line_prox.Base.{ℕ, zero, suc, Bool, true, false, none, some, Option, Eq, ok}
use base_line_prox.Interfaces.Data.{Text}
use base_line_prox.Repair.Host.{
  World, PendingManifest, crashed, M, ◌>>=◌, ◌>>◌, pure, raise, log_event,
}
use base_line_prox.Repair.Checks.{succeeded, verify_target}
use base_line_prox.Repair.Attempts.{restore_backup, clear_pending_manifest, close_attempt}

module _ {D : Type 0} ⦃e : Eq D⦄ (w : World D) where
  -- whether the target is reachable is only logged
  abbrev confirmed : Option PendingManifest → M D (Unit {0})
  confirmed none h = log_event "rollback_confirmed" "info" h
  confirmed (some p) h = elim (verify_target w false) [
    | ok v ↦ log_event "rollback_confirmed" "info" h
    | _ ↦ raise crashed h
  ]

  abbrev read_pending : M D (Option PendingManifest)
  read_pending h = (ok h.pending, h)

  abbrev log_restored : Bool → M D (Unit {0})
  log_restored true = log_event "rolled_back" "pass"
  log_restored false = log_event "rolled_back" "fail" >> log_event "rollback_failed" "fail"

  -- the exit code, behind the restoring
  unfoldable pub reload_restored : Text → Bool → M D ℕ
  unfolding clear_pending_manifest close_attempt verify_target
  reload_restored id false h = (ok 2, h)
  reload_restored id true h = elim (succeeded w.reload) [
    | false ↦ (log_event "rollback_failed" "fail" >> pure 2) h
    | true ↦
        (do
          pending ← read_pending
          confirmed pending
          clear_pending_manifest w
          close_attempt w id "rolled_back"
          pure 0)
          h
  ]

  unfoldable pub same_boot_rollback : Text → M D ℕ
  unfolding restore_backup reload_restored
  same_boot_rollback id = do
    restored ← restore_backup w id
    log_restored restored
    reload_restored id restored

  unfoldable pub boot_time_recovery : M D ℕ
  unfolding same_boot_rollback
  boot_time_recovery h = elim h.pending [
    | none ↦ (ok 0, h)
    | some p ↦
        (do
          log_event "boot_recovery_triggered" "info"
          code ← same_boot_rollback p.attempt_id
          (elim code [ zero ↦ pure tt | suc n ↦ log_event "boot_recovery_failed" "fail" ])
          pure 0)
          h
  ]
