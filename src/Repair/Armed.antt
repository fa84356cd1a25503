-- ===== src/Repair/Armed.antt =====
-- A repair with its rollback armed: what others do to the files, and the second look at them.
use base_line_prox.Base.{
  String, ◌≡◌, inl, inr, refl, sym, ap, subst, ◌∙◌, true, some, ◌==◌, codes_eq, nat_eq, arith,
  contains, Eq, ok, Option-cases, Bool-cases,
}
use base_line_prox.Base.Dict.{
  keys-lookup, Dict, lookup, keys, Entries, Entries-lookup, Entries-map_keys,
}
use base_line_prox.Interfaces.Data.{Text, Name, ParsedConfig}
use base_line_prox.Interfaces.Closure.{
  content, content_of, closure_text, closure_text_same, closure_text-keys, IsPlainFile,
}
use base_line_prox.Repair.Reading.{read_closure}
use base_line_prox.Repair.Terminates.{IsContent, read_closure-Entries}
use base_line_prox.Repair.Host.{
  BackedUp, Host, World, Code, refused, crashed, concurrent_config_change, rollback_arm_failed, M,
  ◌>>◌, raise,
}
use base_line_prox.Repair.Checks.{succeeded}
use base_line_prox.Repair.Attempts.{
  rollback_unit_name, attempt_at, arm_rollback, cancel_rollback, close_attempt,
  clear_pending_manifest, write_pending_manifest,
}
use base_line_prox.Repair.Backups.{IsSaved}
use base_line_prox.Repair.Pipeline.{
  Shape, Request, interfaces_path, read_config, arm, give_up, abandon, revalidate,
}
use base_line_prox.Repair.Safe.{
  Holds, Holds-bind, Holds-map, IsIdle, IsArmed, Has, CanRollBack, IsLeft, contains-keep,
}
use base_line_prox.Repair.Before.{
  IsReadFrom, read_config-Holds, read_files, IsBackedUp, Left-fresh, OnOk, on_ok,
}

-- a file that was read has what the disk has
keys-content :
    (disk files : Dict Text Text) (k : Text)
    → Entries (IsContent disk) files
    → contains (keys files) k ≡ true
    → content k files ≡ content k disk
keys-content disk files k h c = elim (Option-cases (lookup k files)) [
  | inl q ↦ absurd (cc (c, keys-lookup files k q))
  | inr (t, q) ↦ content_of k t files q ∙ sym (Entries-lookup (IsContent disk) k files t h q)
]

module _ {D : Type 0} ⦃e : Eq D⦄ (w : World D) (shape : Shape) (q : Request)
    (old : Dict Text Text) where
  abbrev pub now : Dict Text Text
  now = w.edits old

  -- behind the arming of the rollback, with the files that are on the disk
  pub record IsWaiting (disk : Dict Text Text) (digest : D) (h : Host D) : Type 0 where
    pub files : Dict Text Text
    pub closure : read_closure w.directories interfaces_path old ≡ ok files
    pub digest_of : digest ≡ w.sha256 (closure_text files)
    pub manifest : Dict Text (BackedUp D)
    pub in_attempt : (attempt_at q.attempt_id h).manifest ≡ some manifest
    pub saved : Entries (IsSaved w old (attempt_at q.attempt_id h).backups) manifest
    pub same_keys : (k : Text) → contains (keys manifest) k ≡ contains (keys files) k
    pub on_disk : h.files ≡ disk
    pub is_armed : IsArmed w q.attempt_id h

  abbrev pub ArmedUnit : D → Text → Host D → Type 0
  ArmedUnit digest u h = (u ≡ rollback_unit_name q.attempt_id) × IsWaiting old digest h

  pub arm-Holds :
      (digest : D) (name : Name) (h : Host D)
      → IsBackedUp w shape q old digest h
      → Holds (ArmedUnit digest) (IsLeft w q.attempt_id old now) (arm w shape q name h)
  unfolding arm arm_rollback write_pending_manifest
  arm-Holds digest name h b = elim (Bool-cases (succeeded w.systemd_run)) [
    | inr t ↦
        rw (t, Holds, arm, arm_rollback)
          (Left-fresh w shape q old now h (refused rollback_arm_failed) b.is_fresh)
    | inl t ↦
        rw (t, Holds, arm, arm_rollback)
          (
            refl,
            record {
              files = b.files;
              closure = b.closure;
              digest_of = b.digest_of;
              manifest = b.manifest;
              in_attempt = b.in_attempt;
              saved = b.saved;
              same_keys = b.same_keys;
              on_disk = b.is_fresh.same;
              is_armed = (ground arith, (_, refl, refl));
            },
          )
  ]

  pub edited-IsWaiting :
      (digest : D) (h : Host D)
      → IsWaiting old digest h
      → IsWaiting now digest (record h { files = w.edits h.files })
  edited-IsWaiting digest h b = record {
    files = b.files;
    closure = b.closure;
    digest_of = b.digest_of;
    manifest = b.manifest;
    in_attempt = b.in_attempt;
    saved = b.saved;
    same_keys = b.same_keys;
    on_disk = ap w.edits b.on_disk;
    is_armed = b.is_armed;
  }

  module _ (stops : w.systemctl_stop.returncode ≡ 0) where
    -- giving up disarms the rollback, and leaves the files
    pub give_up-Left :
        {A : Type 0} (P : A → Host D → Type 0) (outcome : String) (rest : M D A) (h : Host D)
        → Has w q.attempt_id now h
        → ((n : Host D)
            → IsIdle w q.attempt_id n
            → Has w q.attempt_id now n
            → Holds P (IsLeft w q.attempt_id old now) (rest n))
        → Holds P
            (IsLeft w q.attempt_id old now)
            ((give_up w shape q (rollback_unit_name q.attempt_id) outcome >> rest) h)
    unfolding give_up cancel_rollback clear_pending_manifest close_attempt
    give_up-Left P outcome rest h has next =
        let stopped : succeeded w.systemctl_stop ≡ true = ground arith in
        let n = (give_up w shape q (rollback_unit_name q.attempt_id) outcome h).1 in
        let files : n.files ≡ h.files = ground arith in
        next n (rw stopped (contains-keep h.timers (rollback_unit_name q.attempt_id)), refl)
          (λ k. ap (content k) files ∙ has k)

    pub abandon-Left :
        {A : Type 0} (P : A → Host D → Type 0) (outcome : String) (code : Code) (h : Host D)
        → Has w q.attempt_id now h
        → Holds P
            (IsLeft w q.attempt_id old now)
            (abandon w shape q {A = A} (rollback_unit_name q.attempt_id) outcome code h)
    unfolding abandon
    abandon-Left P outcome code h has =
        give_up-Left P outcome (raise (refused code)) h has (λ n idle here. inl (idle, inr here))

    module _ (collision_free : (s t : Text) → w.sha256 s ≡ w.sha256 t → s ≡ t)
        (plain_old : OnOk (Entries IsPlainFile) (read_closure w.directories interfaces_path old))
        (plain_now : OnOk
          (Entries IsPlainFile)
          (read_closure w.directories interfaces_path now)) where
      -- the second look saw the files that are backed up
      pub record IsValid (cfg : ParsedConfig) (h : Host D) : Type 0 where
        pub read : IsReadFrom w shape q old now cfg
        pub on_disk : h.files ≡ now
        pub can : CanRollBack w q.attempt_id now h
        pub same_keys : (k : Text) → contains (keys can.manifest) k ≡ contains (keys read.files) k

      IsWaiting-IsValid :
          (digest : D) (cfg : ParsedConfig) (h : Host D)
          → IsWaiting now digest h
          → IsReadFrom w shape q old now cfg
          → w.sha256 (closure_text cfg.files) ≡ digest
          → IsValid cfg h
      IsWaiting-IsValid digest cfg h b r same =
          let read = read_files w shape q old now cfg r in
          let texts =
            collision_free (closure_text b.files) (closure_text r.files)
              (sym b.digest_of ∙ sym same ∙ ap (λ fs. w.sha256 (closure_text fs)) read) in
          let pd = on_ok (Entries IsPlainFile) _ b.files plain_old b.closure in
          let pe = on_ok (Entries IsPlainFile) _ r.files plain_now r.closure in
          let same_keys = closure_text-keys b.files r.files pd pe texts in
          let entries_old =
            (read_closure-Entries w.directories old interfaces_path b.files b.closure).1 in
          let entries_now =
            (read_closure-Entries w.directories now interfaces_path r.files r.closure).1 in
          let unedited : (k : Text)
              → contains (keys b.manifest) k ≡ true
              → content k old ≡ content k now =
            λ k c.
              sym (keys-content old b.files k entries_old (sym (b.same_keys k) ∙ c))
              ∙ closure_text_same b.files r.files pd pe texts k
              ∙ keys-content now r.files k entries_now
                  (sym (same_keys k) ∙ sym (b.same_keys k) ∙ c) in
          record {
            read = r;
            on_disk = b.on_disk;
            can = record {
              manifest = b.manifest;
              in_attempt = b.in_attempt;
              saved =
                  Entries-map_keys (IsSaved w old (attempt_at q.attempt_id h).backups)
                    (IsSaved w now (attempt_at q.attempt_id h).backups) b.manifest
                    (λ k info c s. (s.0 ∙ ap some (unedited k c), s.1 ∙ ap w.sha256 (unedited k c)))
                    b.saved;
              elsewhere = λ k. inr (ap (content k) b.on_disk);
              is_armed = b.is_armed;
            };
            same_keys = λ k. b.same_keys k ∙ same_keys k;
          }

      pub revalidate-Holds :
          (digest : D) (h : Host D)
          → IsWaiting now digest h
          → Holds IsValid
              (IsLeft w q.attempt_id old now)
              (revalidate w shape q (rollback_unit_name q.attempt_id) digest h)
      unfolding revalidate
      revalidate-Holds digest h b =
          Holds-bind (λ cfg n. IsReadFrom w shape q old now cfg × (n ≡ h)) IsValid
            (IsLeft w q.attempt_id old now) (read_config w shape q) _ h
            (Holds-map (λ cfg n. IsReadFrom w shape q old h.files cfg × (n ≡ h))
              (λ cfg n. IsReadFrom w shape q old now cfg × (n ≡ h)) (λ s n. (s ≡ crashed) × (n ≡ h))
              (IsLeft w q.attempt_id old now) (read_config w shape q h)
              (read_config-Holds w shape q old h)
              (λ cfg n (r, same).
                (subst (λ disk. IsReadFrom w shape q old disk cfg) b.on_disk r, same))
              (λ s n (what, same).
                subst (λ x. IsLeft w q.attempt_id old now x n) (sym what)
                  (subst (IsLeft w q.attempt_id old now crashed) (sym same)
                    (inr (inl (b.is_armed, λ k. ap (content k) b.on_disk))))))
            (λ cfg n (r, same). elim (Bool-cases (w.sha256 (closure_text cfg.files) == digest)) [
              | inl t ↦
                  let matches : w.sha256 (closure_text cfg.files) ≡ digest = ground arith in
                  rw t (subst (IsValid cfg) (sym same) (IsWaiting-IsValid digest cfg h b r matches))
              | inr t ↦ rw t (
                  abandon-Left IsValid "refused_concurrent_change" concurrent_config_change n
                    (λ k. ap (λ (m : Host D). content k m.files) same ∙ ap (content k) b.on_disk))
            ])
