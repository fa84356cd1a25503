-- ===== src/Repair/Writes.antt =====
-- A repair from its first write on: whatever goes wrong, the armed rollback can bring the files back.
use base_line_prox.Base.{
  String, ◌≡◌, ◌⊎◌, inl, inr, refl, sym, ap, subst, ◌∙◌, Bool, true, false, List, [], ◌∷◌, ◌==◌,
  codes_eq, nat_eq, arith, contains, Eq, Result, ok, err, Option-cases, Bool-cases, Result-cases,
}
use base_line_prox.Base.Dict.{contains-keys, Dict, lookup, insert, keys}
use base_line_prox.Interfaces.Data.{Text, Name, ParsedConfig}
use base_line_prox.Interfaces.Rewrite.{
  Refusal, key_error, index_error, not_confident, no_stanza, wrong_family, wrong_method,
}
use base_line_prox.Repair.Host.{
  BackedUp, Event, Host, World, Code, Stop, refused, crashed, rewrite_error, syntax_invalid, ◌>>◌,
  raise,
}
use base_line_prox.Repair.Checks.{succeeded, advisory_only, VerificationResult}
use base_line_prox.Repair.Attempts.{
  rollback_unit_name, attempt_at, restore_files, restore_backup, cancel_rollback, close_attempt,
  clear_pending_manifest,
}
use base_line_prox.Repair.Backups.{content-insert, restore_files-IsRestored, restore_files-ok}
use base_line_prox.Repair.Pipeline.{
  Shape, Request, success, rolled_back, was_refused, RepairResult, write_files, restore_and_abandon,
  write, log_restore, refuse_syntax, check_syntax, apply, verification, finish, verify,
}
use base_line_prox.Repair.Safe.{
  Holds, Holds-bind, IsIdle, Has, HasElsewhere, CanRollBack, IsLeft, contains-keep,
}
use base_line_prox.Repair.Armed.{give_up-Left, abandon-Left}

module _ {D : Type 0} ⦃e : Eq D⦄ (w : World D) (id : Text) (base : Dict Text Text) where
  pub log-CanRollBack :
      (h : Host D) (log : List Event)
      → CanRollBack w id base h
      → CanRollBack w id base (record h { log = log })
  log-CanRollBack h log c = record {
    manifest = c.manifest;
    in_attempt = c.in_attempt;
    saved = c.saved;
    elsewhere = c.elsewhere;
    is_armed = c.is_armed;
  }

  elsewhere-insert :
      (manifest : Dict Text (BackedUp D)) (h : Host D) (path text : Text)
      → contains (keys manifest) path ≡ true
      → HasElsewhere w id base manifest h
      → HasElsewhere w id base manifest (record h { files = insert path text h.files })
  elsewhere-insert manifest h path text c others k = elim (Bool-cases (k == path)) [
    | inl q ↦ inl (ground arith)
    | inr q ↦ elim (others k) [
      | inl d ↦ inl d
      | inr d ↦ inr (ground (arith, content-insert k path text h.files))
    ]
  ]

  -- a write to a path that is backed up
  insert-CanRollBack :
      (h : Host D) (path text : Text) (c : CanRollBack w id base h)
      → contains (keys c.manifest) path ≡ true
      → CanRollBack w id base (record h { files = insert path text h.files })
  insert-CanRollBack h path text c backed = record {
    manifest = c.manifest;
    in_attempt = c.in_attempt;
    saved = c.saved;
    elsewhere = elsewhere-insert c.manifest h path text backed c.elsewhere;
    is_armed = c.is_armed;
  }

  module _ (collision_free : (s t : Text) → w.sha256 s ≡ w.sha256 t → s ≡ t) where
    -- a restoring that reports success has brought every path back
    pub restore_backup-Has :
        (h after : Host D)
        → CanRollBack w id base h
        → restore_backup w id h ≡ (ok true, after)
        → Has w id base after × (after ≡ record h { files = after.files })
    unfolding restore_backup
    restore_backup-Has h after c q =
        let run : restore_files w (attempt_at id h).backups c.manifest h ≡ (ok true, after) =
          (sym (rw (c.in_attempt, restore_backup) refl)) ∙ q in
        let all =
          restore_files-IsRestored w base collision_free (attempt_at id h).backups c.manifest h
            after c.saved run in
        (λ k. all.0 k ∙ elim (c.elsewhere k) [ inl d ↦ rw d refl | inr d ↦ ground arith ], all.1)

    pub restore_backup-ok :
        ((path text : Text) → w.written path text ≡ text)
        → (h : Host D) → CanRollBack w id base h
        → (n : Host D) × (restore_backup w id h ≡ (ok true, n))
    unfolding restore_backup
    restore_backup-ok keeps h c =
        let done = restore_files-ok w base keeps (attempt_at id h).backups c.manifest h c.saved in
        let after = (restore_files w (attempt_at id h).backups c.manifest h).1 in
        (after, rw (c.in_attempt, restore_backup) (ap (λ (r : Result Stop Bool). (r, after)) done))

module _ {D : Type 0} ⦃e : Eq D⦄ (w : World D) (shape : Shape) (q : Request)
    (old : Dict Text Text) where
  abbrev now : Dict Text Text
  now = w.edits old

  abbrev unit : Text
  unit = rollback_unit_name q.attempt_id

  abbrev Can : Host D → Type 0
  Can = CanRollBack w q.attempt_id now

  abbrev Left : Stop → Host D → Type 0
  Left = IsLeft w q.attempt_id old now

  Can-Left : (s : Stop) (h : Host D) → Can h → Left s h
  Can-Left (refused c) h can = inr can
  Can-Left crashed h can = inr (inr can)

  -- what a repair has come to when it returns
  abbrev pub IsSettled : RepairResult → Host D → Type 0
  IsSettled r h = elim r.outcome [
    | success ↦ IsIdle w q.attempt_id h
    | rolled_back ↦ Can h
    | was_refused c ↦ Left (refused c) h
  ]

  -- every path of the files is in the manifest
  Covers : Dict Text Text → (h : Host D) → Can h → Type 0
  Covers files h can =
      (k : Text) → (contains (keys files) k ≡ false) ⊎ (contains (keys can.manifest) k ≡ true)

  write_files-Holds :
      (before files : Dict Text Text) (h : Host D) (can : Can h)
      → Covers before h can
      → Holds (λ done n. Can n) Left (write_files w shape q before files h)
  unfolding write_files Covers insert-CanRollBack
  write_files-Holds before [] h can covers = can
  write_files-Holds before ((path, text) ∷ files) h can covers =
      elim (Option-cases (lookup path before)) [
        | inl n ↦ rw (n, Holds, write_files) (inr (inr can))
        | inr (was, n) ↦ elim (Bool-cases (text == was)) [
          | inl t ↦ rw (n, t, write_files) (write_files-Holds before files h can covers)
          | inr t ↦
              let backed : contains (keys can.manifest) path ≡ true = elim (covers path) [
                | inl c ↦ absurd (cc (c, contains-keys path was before n))
                | inr c ↦ c
              ] in
              rw (n, t, write_files)
                (write_files-Holds before files
                  (record h { files = insert path (w.written path text) h.files })
                  (insert-CanRollBack w q.attempt_id now h path (w.written path text) can backed)
                  covers)
        ]
      ]

  module _ (stops : w.systemctl_stop.returncode ≡ 0)
      (keeps : (path text : Text) → w.written path text ≡ text)
      (collision_free : (s t : Text) → w.sha256 s ≡ w.sha256 t → s ≡ t) where
    restore_and_abandon-Left :
        {A : Type 0} (P : A → Host D → Type 0) (outcome : String) (code : Code) (h : Host D)
        → Can h
        → Holds P Left (restore_and_abandon w shape q {A = A} unit outcome code h)
    unfolding restore_and_abandon
    restore_and_abandon-Left {A} P outcome code h can =
        let (n, done) = restore_backup-ok w q.attempt_id now collision_free keeps h can in
        Holds-bind (λ restored m. Has w q.attempt_id now m) P Left (restore_backup w q.attempt_id) _
          h
          (subst (Holds (λ restored m. Has w q.attempt_id now m) Left) (sym done)
            (restore_backup-Has w q.attempt_id now collision_free h n can done).0)
          (λ restored m has. abandon-Left w shape q old stops P outcome code m has)

    refuse_syntax-Left :
        (h : Host D) → Can h → Holds (λ done n. Can n) Left (refuse_syntax w shape q unit h)
    unfolding refuse_syntax
    refuse_syntax-Left h can =
        let (n, done) = restore_backup-ok w q.attempt_id now collision_free keeps h can in
        Holds-bind (λ restored m. Has w q.attempt_id now m) (λ done n. Can n) Left
          (restore_backup w q.attempt_id) _ h
          (subst (Holds (λ restored m. Has w q.attempt_id now m) Left) (sym done)
            (restore_backup-Has w q.attempt_id now collision_free h n can done).0)
          (λ restored m has.
            give_up-Left w shape q old stops {A = Unit {0}} (λ done n. Can n)
              "refused_syntax_invalid"
              (log_restore w shape q restored >> raise (refused syntax_invalid)) m has
              (λ n idle here. inl (idle, inr here)))

    rewrite_failed :
        (name : Name) (cfg : ParsedConfig) (h : Host D) (e : Refusal)
        → shape.rewrite cfg name ≡ err e
        → Can h
        → Holds (λ done n. Can n) Left (write w shape q unit name cfg h)
    unfolding write
    rewrite_failed name cfg h key_error r can = rw (r, Holds, write) (inr (inr can))
    rewrite_failed name cfg h index_error r can = rw (r, Holds, write) (inr (inr can))
    rewrite_failed name cfg h not_confident r can =
        rw (r, write)
          (restore_and_abandon-Left (λ done n. Can n) "refused_rewrite_error" rewrite_error h can)
    rewrite_failed name cfg h no_stanza r can =
        rw (r, write)
          (restore_and_abandon-Left (λ done n. Can n) "refused_rewrite_error" rewrite_error h can)
    rewrite_failed name cfg h wrong_family r can =
        rw (r, write)
          (restore_and_abandon-Left (λ done n. Can n) "refused_rewrite_error" rewrite_error h can)
    rewrite_failed name cfg h wrong_method r can =
        rw (r, write)
          (restore_and_abandon-Left (λ done n. Can n) "refused_rewrite_error" rewrite_error h can)

    pub write-Holds :
        (name : Name) (cfg : ParsedConfig) (h : Host D) (can : Can h)
        → ((k : Text) → contains (keys can.manifest) k ≡ contains (keys cfg.files) k)
        → Holds (λ done n. Can n) Left (write w shape q unit name cfg h)
    unfolding write Covers
    write-Holds name cfg h can same = elim (Result-cases (shape.rewrite cfg name)) [
      | inr (e, r) ↦ rewrite_failed name cfg h e r can
      | inl (files, r) ↦
          rw (r, write)
            (Holds-bind (λ done n. Can n) (λ done n. Can n) Left
              (write_files w shape q cfg.files files) _ h
              (write_files-Holds cfg.files files h can (λ k.
                elim (Bool-cases (contains (keys cfg.files) k)) [
                  | inr c ↦ inl c
                  | inl c ↦ inr (same k ∙ c)
                ]))
              (λ done n c. log-CanRollBack w q.attempt_id now n _ c))
    ]

    pub check_syntax-Holds :
        (h : Host D) → Can h → Holds (λ done n. Can n) Left (check_syntax w shape q unit h)
    unfolding check_syntax
    check_syntax-Holds h can = elim (Bool-cases (succeeded w.syntax_check)) [
      | inl s ↦ rw (s, Holds, check_syntax) can
      | inr s ↦ elim (Bool-cases (advisory_only w w.syntax_check.stderr)) [
        | inl a ↦ rw (s, a, Holds, check_syntax) (log-CanRollBack w q.attempt_id now h _ can)
        | inr a ↦ rw (s, a, check_syntax) (refuse_syntax-Left h can)
      ]
    ]

    pub apply-Holds : (h : Host D) → Can h → Holds (λ done n. Can n) Left (apply w shape q h)
    unfolding apply
    apply-Holds h can = elim (Bool-cases (succeeded w.reload)) [
      | inr r ↦ rw (r, Holds, apply) (inr (log-CanRollBack w q.attempt_id now h _ can))
      | inl r ↦ elim (Bool-cases shape.is_additive) [
        | inr a ↦ rw (r, a, Holds, apply) (log-CanRollBack w q.attempt_id now h _ can)
        | inl a ↦ elim (Bool-cases (succeeded w.dhclient)) [
          | inr d ↦ rw (r, a, d, Holds, apply) (inr (log-CanRollBack w q.attempt_id now h _ can))
          | inl d ↦ rw (r, a, d, Holds, apply) (log-CanRollBack w q.attempt_id now h _ can)
        ]
      ]
    ]

    finish-IsSettled :
        (v : VerificationResult) (h : Host D) → Holds IsSettled Left (finish w shape q unit v h)
    unfolding finish cancel_rollback clear_pending_manifest close_attempt
    finish-IsSettled v h =
        let stopped : succeeded w.systemctl_stop ≡ true = ground arith in
        (rw stopped (contains-keep h.timers unit), refl)

    pub verify-Holds : (h : Host D) → Can h → Holds IsSettled Left (verify w shape q unit h)
    unfolding verify
    verify-Holds h can = elim (Result-cases (verification w shape q)) [
      | inr (s, r) ↦ rw (r, Holds, verify) (Can-Left s h can)
      | inl (v, r) ↦ elim (Bool-cases v.verified) [
        | inl t ↦ rw (r, t, verify) (finish-IsSettled v h)
        | inr t ↦ rw (r, t, Holds, verify) (log-CanRollBack w q.attempt_id now h _ can)
      ]
    ]
