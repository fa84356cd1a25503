-- ===== src/Repair/Recovers.antt =====
-- A whole repair, and the rollback behind it.
use base_line_prox.Base.{
  String, ◌≡◌, inl, inr, refl, sym, ap, subst, ◌∙◌, Bool, true, codes_eq, nat_eq, contains, Eq, ok,
}
use base_line_prox.Base.Dict.{Dict, Entries, Entries-map}
use base_line_prox.Interfaces.Data.{Text}
use base_line_prox.Interfaces.Closure.{content, IsPlainFile}
use base_line_prox.Repair.Reading.{read_closure}
use base_line_prox.Repair.Host.{Host, World}
use base_line_prox.Repair.Attempts.{rollback_unit_name, attempt_at}
use base_line_prox.Repair.Backups.{IsSaved, HaveNames}
use base_line_prox.Repair.Pipeline.{
  Shape, Request, Outcome, success, rolled_back, was_refused, RepairResult, interfaces_path, repair,
}
use base_line_prox.Repair.Rollback.{same_boot_rollback}
use base_line_prox.Repair.Safe.{Holds, IsIdle, CanRollBack, IsLeft}
use base_line_prox.Repair.Before.{OnOk}
use base_line_prox.Repair.Writes.{IsSettled}
use base_line_prox.Repair.Settles.{repair-IsSettled}
use base_line_prox.Repair.Restores.{rollback-Has}

module _ {D : Type 0} ⦃e : Eq D⦄ (w later : World D) (shape : Shape) (q : Request)
    (stops : w.systemctl_stop.returncode ≡ 0)
    (keeps : (path text : Text) → w.written path text ≡ text)
    (collision_free : (s t : Text) → w.sha256 s ≡ w.sha256 t → s ≡ t)
    (same_hash : later.sha256 ≡ w.sha256) where
  later-CanRollBack :
      (base : Dict Text Text) (h : Host D)
      → CanRollBack w q.attempt_id base h
      → CanRollBack later q.attempt_id base h
  later-CanRollBack base h can = record {
    manifest = can.manifest;
    in_attempt = can.in_attempt;
    saved =
        Entries-map (IsSaved w base (attempt_at q.attempt_id h).backups)
          (IsSaved later base (attempt_at q.attempt_id h).backups)
          (λ k info s. (s.0, s.1 ∙ ap (λ (f : Text → D). f (content k base)) (sym same_hash)))
          can.manifest can.saved;
    elsewhere = can.elsewhere;
    is_armed = can.is_armed;
  }

  later_collision_free : (s t : Text) → later.sha256 s ≡ later.sha256 t → s ≡ t
  later_collision_free s t h = collision_free s t (rw same_hash at h)

  armed-CanRollBack :
      (old : Dict Text Text) (o : Outcome) (checks : Dict String Bool) (n : Host D)
      → IsSettled w shape q old (record { outcome = o; verification = checks }) n
      → contains n.timers (rollback_unit_name q.attempt_id) ≡ true
      → CanRollBack w q.attempt_id (w.edits old) n
  armed-CanRollBack old success checks n idle armed = absurd (cc (idle.0, armed))
  armed-CanRollBack old rolled_back checks n can armed = can
  armed-CanRollBack old (was_refused c) checks n (inl (idle, files)) armed =
      absurd (cc (idle.0, armed))
  armed-CanRollBack old (was_refused c) checks n (inr can) armed = can

  -- Whatever a repair meets on its way, and whatever others do to the files between its backup and its
  -- second look at them: if it returns with its rollback still armed, and the rollback then runs and exits
  -- with 0, at any later time and on a disk that may fail, every path has again what it had before the
  -- repair's first write, a missing file counting as an empty one. No rollback of the attempt is armed or
  -- pending at first, the disk keeps what is written during the repair, the timer stops when it is told
  -- to, no two texts have one hash, no two files are backed up under one name, and no path or file that
  -- is read has a NUL.
  pub repair_then_rollback :
      (h n after : Host D) (r : RepairResult)
      → OnOk HaveNames (read_closure w.directories interfaces_path h.files)
      → OnOk (Entries IsPlainFile) (read_closure w.directories interfaces_path h.files)
      → OnOk (Entries IsPlainFile) (read_closure w.directories interfaces_path (w.edits h.files))
      → IsIdle w q.attempt_id h
      → repair w shape q h ≡ (ok r, n)
      → contains n.timers (rollback_unit_name q.attempt_id) ≡ true
      → same_boot_rollback later q.attempt_id n ≡ (ok 0, after)
      → (k : Text) → content k after.files ≡ content k (w.edits h.files)
  repair_then_rollback h n after r names_ok plain_old plain_now idle run armed back =
      let settled : IsSettled w shape q h.files r n =
        subst
          (Holds (IsSettled w shape q h.files) (IsLeft w q.attempt_id h.files (w.edits h.files)))
          run
          (repair-IsSettled w shape q h.files stops keeps collision_free names_ok plain_old
            plain_now h refl idle) in
      let can = armed-CanRollBack h.files r.outcome r.verification n settled armed in
      (rollback-Has later q.attempt_id (w.edits h.files) later_collision_free n after
        (later-CanRollBack (w.edits h.files) n can) back).0
