-- ===== src/Repair/Attempts.antt =====
-- Backups and their retention, the pending manifest and the rollback timer, of baseline/lib/repair.py.
use base_line_prox.Base.{
  ℕ, suc, ◌-◌, ◌*◌, String, Bool, true, false, not, ◌||◌, Option, none, some, List, [], ◌∷◌, ◌++◌,
  ◌==◌, codes_eq, nat_eq, if◌then◌else◌, ltb, leb, keep, contains, Eq, ok, err,
}
use base_line_prox.Base.Dict.{Dict, lookup, insert, keys}
use base_line_prox.Base.Text.{codes}
use base_line_prox.Base.Sorting.{sort_texts}
use base_line_prox.Interfaces.Data.{Text, Name}
use base_line_prox.Interfaces.Closure.{closure_text}
use base_line_prox.Repair.Host.{
  BackedUp, Attempt, Host, World, backup_unverified, rollback_arm_failed, refused, crashed, M,
}
use base_line_prox.Repair.Checks.{succeeded}

-- `path.lstrip("/")`
strip_slashes : Text → Text
strip_slashes [] = []
strip_slashes (c ∷ s) = let rest = strip_slashes s in if c == b'/' then rest else c ∷ s

-- `s.replace("/", "__")`
replace_slashes : Text → Text
replace_slashes [] = []
replace_slashes (c ∷ s) =
    let rest = replace_slashes s in if c == b'/' then b'_' ∷ b'_' ∷ rest else c ∷ rest

unfoldable pub backup_name : Text → Text
unfolding strip_slashes replace_slashes
backup_name path = replace_slashes (strip_slashes path)

unfoldable pub rollback_unit_name : Text → Text
rollback_unit_name id = codes "baseline-repair-rollback-" ++ id

-- `BACKUP_RETENTION_MIN_ATTEMPTS`, and `BACKUP_RETENTION_MIN_DAYS` in microseconds
abbrev pub min_attempts : ℕ
min_attempts = 10

abbrev pub min_age : ℕ
min_age = 30 * 86400 * 1000000

module _ {D : Type 0} where
  -- a directory that is not there yet is empty
  abbrev pub attempt_of : Option (Attempt D) → Attempt D
  attempt_of none = record { backups = []; manifest = none; status = none }
  attempt_of (some a) = a

  abbrev pub attempt_at : Text → Host D → Attempt D
  attempt_at id h = attempt_of (lookup id h.attempts)

  abbrev pub put_attempt : Text → Attempt D → Host D → Host D
  put_attempt id a h = record h { attempts = insert id a h.attempts }

  -- `closed_at` of an attempt with a backup manifest
  abbrev pub closed_at : Attempt D → Option ℕ
  closed_at a = elim a.manifest [
    | none ↦ none
    | some m ↦ elim a.status [ none ↦ none | some (outcome, t) ↦ some t ]
  ]

  unfoldable pub closed_attempts : Dict Text (Attempt D) → List Text → List (Text × ℕ)
  unfolding lookup
  closed_attempts attempts [] = []
  closed_attempts attempts (id ∷ ids) =
      let rest = closed_attempts attempts ids in
      elim (closed_at (attempt_of (lookup id attempts))) [ none ↦ rest | some t ↦ (id, t) ∷ rest ]

-- the latest first; attempts closed at one time stay in order
abbrev pub insert_latest : Text × ℕ → List (Text × ℕ) → List (Text × ℕ)
insert_latest x [] = x ∷ []
insert_latest x (y ∷ ys) =
    let rest = insert_latest x ys in if leb y.1 x.1 then x ∷ y ∷ ys else y ∷ rest

unfoldable pub latest_first : List (Text × ℕ) → List (Text × ℕ)
latest_first [] = []
latest_first (x ∷ xs) = insert_latest x (latest_first xs)

module _ {D : Type 0} ⦃e : Eq D⦄ (w : World D) where
  -- the loop over the files: the backups, and the manifest if each one reads back as it was
  unfoldable pub copy_files :
      Dict Text Text
      → Dict Text Text
      → Dict Text (BackedUp D)
      → Dict Text Text × Option (Dict Text (BackedUp D))
  copy_files [] backups manifest = (backups, some manifest)
  copy_files ((path, text) ∷ files) backups manifest =
      let name = backup_name path in
      let kept = w.written name text in
      let next = insert name kept backups in
      let done = insert path (record { backup_name = name; hash = w.sha256 text }) manifest in
      elim (kept == text) [ true ↦ copy_files files next done | false ↦ (next, none) ]

  unfoldable pub create_backup : Text → Dict Text Text → M D D
  unfolding copy_files closure_text
  create_backup id files h =
      let r = copy_files files (attempt_at id h).backups [] in
      elim r.1 [
        | none ↦ (
          err (refused backup_unverified),
          put_attempt id (record (attempt_at id h) { backups = r.0 }) h,
        )
        | some manifest ↦ (
          ok (w.sha256 (closure_text files)),
          put_attempt id (record (attempt_at id h) { backups = r.0; manifest = some manifest }) h,
        )
      ]

  -- the loop over the manifest
  unfoldable pub restore_files : Dict Text Text → Dict Text (BackedUp D) → M D Bool
  restore_files backups [] h = (ok true, h)
  restore_files backups ((path, info) ∷ manifest) h = elim (lookup info.backup_name backups) [
    | none ↦ (err crashed, h)
    | some original ↦ elim (w.sha256 original == info.hash) [
      | false ↦ (ok false, h)
      | true ↦
          let kept = w.written path original in
          let next = record h { files = insert path kept h.files } in
          elim (w.sha256 kept == info.hash) [
            | false ↦ (ok false, next)
            | true ↦ restore_files backups manifest next
          ]
    ]
  ]

  unfoldable pub restore_backup : Text → M D Bool
  unfolding restore_files
  restore_backup id h = elim (attempt_at id h).manifest [
    | none ↦ (ok false, h)
    | some manifest ↦ restore_files (attempt_at id h).backups manifest h
  ]

  -- an attempt that `prune_old_backups` keeps, at its place among those that are closed
  abbrev pub is_kept : ℕ → ℕ → Bool
  is_kept i t = ltb i min_attempts || ltb (w.now - t) min_age

  unfoldable pub pruned_from : ℕ → List (Text × ℕ) → List Text
  pruned_from i [] = []
  pruned_from i ((id, t) ∷ closed) =
      let rest = pruned_from (suc i) closed in if is_kept i t then rest else id ∷ rest

  unfoldable pub pruned : Dict Text (Attempt D) → List Text
  unfolding pruned_from latest_first closed_attempts
  pruned attempts =
      pruned_from 0 (latest_first (closed_attempts attempts (sort_texts (keys attempts))))

  unfoldable pub prune_old_backups : Dict Text (Attempt D) → Dict Text (Attempt D)
  unfolding pruned
  prune_old_backups attempts = keep (λ a. not (contains (pruned attempts) a.0)) attempts

  unfoldable pub close_attempt : Text → String → M D (Unit {0})
  unfolding prune_old_backups
  close_attempt id outcome h =
      let closed = put_attempt id (record (attempt_at id h) { status = some (outcome, w.now) }) h in
      (ok tt, record closed { attempts = prune_old_backups closed.attempts })

  unfoldable pub arm_rollback : Text → M D Text
  arm_rollback id h = elim (succeeded w.systemd_run) [
    | true ↦ (ok (rollback_unit_name id), record h { timers = rollback_unit_name id ∷ h.timers })
    | false ↦ (err (refused rollback_arm_failed), h)
  ]

  -- the result is ignored wherever this is called
  unfoldable pub cancel_rollback : Text → M D (Unit {0})
  cancel_rollback unit h = (
    ok tt,
    if succeeded w.systemctl_stop
        then record h { timers = keep (λ u. not (u == unit)) h.timers }
        else h,
  )

  unfoldable pub write_pending_manifest : Text → Name → Text → M D (Unit {0})
  write_pending_manifest id target unit h = (
    ok tt,
    record h {
      pending = some (record { attempt_id = id; target_interface = target; rollback_unit = unit });
    },
  )

  unfoldable pub clear_pending_manifest : M D (Unit {0})
  clear_pending_manifest h = (ok tt, record h { pending = none })
