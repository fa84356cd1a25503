-- ===== src/Repair/Restores.antt =====
-- What the rollback does with an attempt that can be rolled back.
use base_line_prox.Base.{
  ℕ, ◌≡◌, inl, inr, refl, sym, ap, ◌∙◌, Bool, true, false, none, [], ◌∷◌, ◌++◌, codes_eq, nat_eq,
  arith, Eq, Result, ok, err, Option-cases, Bool-cases, Result-cases,
}
use base_line_prox.Base.Dict.{Dict}
use base_line_prox.Interfaces.Data.{Text}
use base_line_prox.Interfaces.Closure.{content}
use base_line_prox.Repair.Host.{Host, World, Stop}
use base_line_prox.Repair.Checks.{succeeded, VerificationResult, verify_target}
use base_line_prox.Repair.Attempts.{restore_backup, clear_pending_manifest, close_attempt}
use base_line_prox.Repair.Rollback.{reload_restored, same_boot_rollback}
use base_line_prox.Repair.Safe.{Has, CanRollBack}
use base_line_prox.Repair.Writes.{restore_backup-Has, restore_backup-ok}

-- the host behind a rollback that exits with 0
Restores : {D : Type 0} → Result Stop Bool × Host D → Host D → Type 0
Restores (ok true, n) after = (after.files ≡ n.files) × (after.pending ≡ none)
Restores (ok false, n) after = ⊥
Restores (err s, n) after = ⊥

module _ {D : Type 0} ⦃e : Eq D⦄ (w : World D) (id : Text) where
  reload_restored-zero :
      (n : Host D)
      → (reload_restored w id true n).0 ≡ ok 0
      → ((reload_restored w id true n).1.files ≡ n.files)
        × ((reload_restored w id true n).1.pending ≡ none)
  unfolding reload_restored clear_pending_manifest close_attempt
  reload_restored-zero n q = elim (Bool-cases (succeeded w.reload)) [
    | inr r ↦ absurd (cc (rw (r, reload_restored) at q))
    | inl r ↦ elim (Option-cases n.pending) [
      | inl p ↦ rw (r, p, reload_restored) (refl, refl)
      | inr (x, p) ↦ elim (Result-cases (verify_target w false)) [
        | inl (v, t) ↦ (ground arith, ground arith)
        | inr (s, t) ↦ absurd (ground arith)
      ]
    ]
  ]

  rollback-Restores :
      (h after : Host D) (r : Result Stop Bool × Host D)
      → restore_backup w id h ≡ r
      → same_boot_rollback w id h ≡ (ok 0, after)
      → Restores r after
  unfolding same_boot_rollback Restores
  rollback-Restores h after (ok true, n) r q =
      let logged = record n {
        log = n.log ++ record { step = "rolled_back"; status = "pass" } ∷ [];
      } in
      let run : reload_restored w id true logged ≡ (ok 0, after) =
        rw (r, same_boot_rollback) at q in
      let done = reload_restored-zero logged (ap (λ (x : Result Stop ℕ × Host D). x.0) run) in
      let last = ap (λ (x : Result Stop ℕ × Host D). x.1) run in
      (
        sym (ap (λ (x : Host D). x.files) last) ∙ done.0,
        sym (ap (λ (x : Host D). x.pending) last) ∙ done.1,
      )
  rollback-Restores h after (ok false, n) r q = absurd (ground arith)
  rollback-Restores h after (err s, n) r q = absurd (ground arith)

  module _ (base : Dict Text Text)
      (collision_free : (s t : Text) → w.sha256 s ≡ w.sha256 t → s ≡ t) where
    rollback-Has_from :
        (h after : Host D) (r : Result Stop Bool × Host D)
        → CanRollBack w id base h
        → restore_backup w id h ≡ r
        → Restores r after
        → Has w id base after × (after.pending ≡ none)
    unfolding Restores
    rollback-Has_from h after (ok true, n) can q (files, pending) =
        let has = (restore_backup-Has w id base collision_free h n can q).0 in
        (λ k. ap (content k) files ∙ has k, pending)
    rollback-Has_from h after (ok false, n) can q x = absurd x
    rollback-Has_from h after (err s, n) can q x = absurd x

    pub rollback-Has :
        (h after : Host D)
        → CanRollBack w id base h
        → same_boot_rollback w id h ≡ (ok 0, after)
        → Has w id base after × (after.pending ≡ none)
    rollback-Has h after can q =
        rollback-Has_from h after (restore_backup w id h) can refl
          (rollback-Restores h after (restore_backup w id h) refl q)

    reload_restored-ok :
        (n : Host D)
        → succeeded w.reload ≡ true
        → (v : VerificationResult) → verify_target w false ≡ ok v
        → (reload_restored w id true n).0 ≡ ok 0
    unfolding reload_restored clear_pending_manifest close_attempt
    reload_restored-ok n r v t = elim (Option-cases n.pending) [
      | inl p ↦ ground arith
      | inr (x, p) ↦ ground arith
    ]

    -- A rollback that is armed and has its backups exits with 0 and brings every path back, a missing file
    -- counting as an empty one, if the disk keeps what is written, no two texts have one hash, the reload
    -- succeeds and the output of the commands that look for an address can be parsed.
    pub rollback_succeeds :
        ((path text : Text) → w.written path text ≡ text)
        → (h : Host D) → CanRollBack w id base h
        → succeeded w.reload ≡ true
        → (v : VerificationResult) → verify_target w false ≡ ok v
        → (after : Host D) × (same_boot_rollback w id h ≡ (ok 0, after))
          × Has w id base after
          × (after.pending ≡ none)
    unfolding same_boot_rollback
    rollback_succeeds keeps h can r v t =
        let (n, done) = restore_backup-ok w id base collision_free keeps h can in
        let logged = record n {
          log = n.log ++ record { step = "rolled_back"; status = "pass" } ∷ [];
        } in
        let after = (reload_restored w id true logged).1 in
        let run : same_boot_rollback w id h ≡ (ok 0, after) =
          rw (done, same_boot_rollback)
            (ap (λ (c : Result Stop ℕ). (c, after)) (reload_restored-ok logged r v t)) in
        let back = rollback-Has h after can run in (after, run, back.0, back.1)
