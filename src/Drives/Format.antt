-- ===== src/Drives/Format.antt =====
-- No drive that holds data is formatted unless the installer made it.
use mathlib.Core.Bool.{false≢true}
use base_line_prox.Base.{
  ℕ, ◌≡◌, ◌≢◌, ◌⊎◌, inl, inr, refl, ap, sym, ◌∙◌, Bool, true, false, not, some, List, [], ◌∷◌,
  arith, any, keep, ok, err, Bool-cases, Option-cases, List-cases,
}
use base_line_prox.Base.Lines.{strip, is_empty}
use base_line_prox.Drives.Guard.{
  Lsblk, unknown, printed, DriveState, Row, rows_of, is_kind, given, read_drive_state,
  is_installer_uuid, carries_installer_uuid, require_may_format, require_baseline_drive,
  not_baseline, is_ok, stamp_installer_identity, known_state,
}

-- the output tells of one disk, and these are its line and all lines
pub record IsDisk (d : Lsblk) (disk : Row) (rows : List Row) : Type 0 where
  pub out : List ℕ
  pub printed : d ≡ printed out
  pub read : rows_of out ≡ some rows
  pub single : keep (is_kind "disk") rows ≡ disk ∷ []

-- every drive's state is unknown, and then holds data, or read off the lines of a single disk
reads-IsDisk :
    (d : Lsblk)
    → (((read_drive_state d).known ≡ false) × ((read_drive_state d).has_data ≡ true))
      ⊎ ((disk : Row) × (rows : List Row) × IsDisk d disk rows
          × (read_drive_state d ≡ known_state disk rows))
unfolding read_drive_state
reads-IsDisk unknown = inl (refl, refl)
reads-IsDisk (printed out) = elim (Option-cases (rows_of out)) [
  | inl q ↦ inl (rw (q, read_drive_state) refl, rw (q, read_drive_state) refl)
  | inr (rows, q) ↦ elim (List-cases (keep (is_kind "disk") rows)) [
    | inl k ↦ inl (rw (q, k, read_drive_state) refl, rw (q, k, read_drive_state) refl)
    | inr (disk, [], k) ↦ inr (
      disk,
      rows,
      record { out = out; printed = refl; read = q; single = k },
      rw (q, k, read_drive_state) refl,
    )
    | inr (disk, r ∷ rs, k) ↦
        inl (rw (q, k, read_drive_state) refl, rw (q, k, read_drive_state) refl)
  ]
]

blank : (s : List ℕ) → is_empty s ≡ true → s ≡ []
blank [] h = refl
blank (c ∷ s) h = cc

none_left : (rs : List Row) → any (λ r. true) rs ≡ false → rs ≡ []
none_left [] h = refl
none_left (r ∷ rs) h = cc

carried :
    (registered : List (List ℕ)) (s : DriveState)
    → carries_installer_uuid registered s ≡ true
    → (guid : List ℕ) × (s.ptuuid ≡ some guid) × (is_installer_uuid registered guid ≡ true)
carried registered s h = elim (Option-cases s.ptuuid) [
  | inl k ↦ absurd (false≢true (rw (k, carries_installer_uuid) at h))
  | inr (guid, k) ↦ (guid, k, rw (k, carries_installer_uuid) at h)
]

allowed :
    (registered : List (List ℕ)) (d : Lsblk)
    → require_may_format registered d ≡ ok tt
    → (read_drive_state d).has_data ≡ true
    → ((read_drive_state d).known ≡ true)
      × (carries_installer_uuid registered (read_drive_state d) ≡ true)
unfolding require_may_format
allowed registered d h k = ground arith

-- A drive may be formatted only if its output could be read as that of a single disk, and it is blank,
-- with neither a filesystem nor a partition, or its disk identifier is one that the installer
-- registered.
pub may_format_only :
    (registered : List (List ℕ)) (d : Lsblk)
    → require_may_format registered d ≡ ok tt
    → (disk : Row) × (rows : List Row) × IsDisk d disk rows
      × (((strip disk.fstype ≡ []) × (keep (λ r. not (is_kind "disk" r)) rows ≡ []))
          ⊎ ((guid : List ℕ) × (given disk.ptuuid ≡ some guid)
              × (is_installer_uuid registered guid ≡ true)))
may_format_only registered d h = elim (reads-IsDisk d) [
  | inl (unread, holds) ↦ let known = allowed registered d h holds in absurd (cc (known.0, unread))
  | inr (disk, rows, is, e) ↦ (
    disk,
    rows,
    is,
    elim (Bool-cases (known_state disk rows).has_data) [
      | inr q ↦ inl (blank _ (ground arith), none_left _ (ground arith))
      | inl q ↦
          let carries = allowed registered d h (ap (λ (s : DriveState). s.has_data) e ∙ q) in
          inr (
            carried registered (known_state disk rows)
              (ap (carries_installer_uuid registered) (sym e) ∙ carries.1))
    ],
  )
]

-- A drive that may not be formatted, and is not Baseline's own, cannot be adopted either: whatever the
-- stamp would do, it reports a failure and the registry stays as it is.
pub cannot_launder :
    (registered : List (List ℕ)) (before after : Lsblk) (sets : Bool) (guid : List ℕ)
    → require_may_format registered before ≢ ok tt
    → require_baseline_drive before ≡ err not_baseline
    → ((stamp_installer_identity registered before after sets guid).0 ≡ registered)
      × (is_ok (stamp_installer_identity registered before after sets guid).1 ≡ false)
unfolding require_may_format require_baseline_drive stamp_installer_identity
cannot_launder registered before after sets guid h k = ground arith
