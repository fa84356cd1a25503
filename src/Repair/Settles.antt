-- ===== src/Repair/Settles.antt =====
-- How a whole repair leaves the host.
use base_line_prox.Base.{
  ◌≡◌, inl, inr, sym, ap, subst, ◌∙◌, codes_eq, nat_eq, contains, Eq, Result, ok, err,
}
use base_line_prox.Base.Dict.{Dict, keys, Entries}
use base_line_prox.Interfaces.Data.{Text, Name, ParsedConfig}
use base_line_prox.Interfaces.Closure.{IsPlainFile}
use base_line_prox.Repair.Reading.{read_closure}
use base_line_prox.Repair.Host.{Host, World, Stop, refused, crashed, ◌>>=◌, ◌>>◌}
use base_line_prox.Repair.Attempts.{rollback_unit_name}
use base_line_prox.Repair.Backups.{HaveNames}
use base_line_prox.Repair.Pipeline.{
  Shape, Request, RepairResult, interfaces_path, discover, back_up, arm, edited, revalidate, write,
  check_syntax, apply, verify, transact, handle, repair,
}
use base_line_prox.Repair.Safe.{Holds, Holds-bind, Holds-map, IsIdle, CanRollBack, SameBut, IsLeft}
use base_line_prox.Repair.Before.{
  read_files, OnOk, IsFresh, IsBackedUp, Left-fresh, back_up-Holds, discover-SameBut,
}
use base_line_prox.Repair.Armed.{ArmedUnit, IsValid, arm-Holds, edited-IsWaiting, revalidate-Holds}
use base_line_prox.Repair.Writes.{
  IsSettled, log-CanRollBack, write-Holds, check_syntax-Holds, apply-Holds, verify-Holds,
}

Holds-last :
    {D A : Type 0} (P : Host D → Type 0) (r : Result Stop A × Host D)
    → P r.1
    → Holds (λ a h. P h) (λ s h. P h) r
Holds-last P (ok a, h) p = p
Holds-last P (err s, h) p = p

module _ {D : Type 0} ⦃e : Eq D⦄ (w : World D) (shape : Shape) (q : Request) (old : Dict Text Text)
    (stops : w.systemctl_stop.returncode ≡ 0)
    (keeps : (path text : Text) → w.written path text ≡ text)
    (collision_free : (s t : Text) → w.sha256 s ≡ w.sha256 t → s ≡ t)
    (names_ok : OnOk HaveNames (read_closure w.directories interfaces_path old))
    (plain_old : OnOk (Entries IsPlainFile) (read_closure w.directories interfaces_path old))
    (plain_now : OnOk
      (Entries IsPlainFile)
      (read_closure w.directories interfaces_path (w.edits old))) where
  abbrev Settled : RepairResult → Host D → Type 0
  Settled = IsSettled w shape q old

  abbrev Left : Stop → Host D → Type 0
  Left = IsLeft w q.attempt_id old (w.edits old)

  abbrev Can : Host D → Type 0
  Can = CanRollBack w q.attempt_id (w.edits old)

  -- from the second look on
  write_on-Holds :
      (name : Name) (cfg : ParsedConfig) (h : Host D)
      → IsValid w shape q old stops collision_free plain_old plain_now cfg h
      → Holds Settled Left (
          (write w shape q (rollback_unit_name q.attempt_id) name cfg
              >> (check_syntax w shape q (rollback_unit_name q.attempt_id)
                  >> (apply w shape q >> verify w shape q (rollback_unit_name q.attempt_id))))
            h)
  write_on-Holds name cfg h v =
      let unit = rollback_unit_name q.attempt_id in
      Holds-bind (λ done n. Can n) Settled Left (write w shape q unit name cfg) _ h
        (write-Holds w shape q old stops keeps collision_free name cfg h v.can (λ k.
          v.same_keys k
          ∙ ap (λ (fs : Dict Text Text). contains (keys fs) k)
              (sym (read_files w shape q old (w.edits old) cfg v.read))))
        (λ done n can.
          Holds-bind (λ done m. Can m) Settled Left (check_syntax w shape q unit) _ n
            (check_syntax-Holds w shape q old stops keeps collision_free n can)
            (λ done m can'.
              Holds-bind (λ done k. Can k) Settled Left (apply w shape q) _ m
                (apply-Holds w shape q old stops keeps collision_free m can')
                (λ done k can''. verify-Holds w shape q old stops keeps collision_free k can'')))

  transact-Holds :
      (name : Name) (h : Host D)
      → IsFresh w shape q old h
      → Holds Settled Left (transact w shape q name h)
  unfolding transact
  transact-Holds name h f =
      let unit = rollback_unit_name q.attempt_id in
      Holds-bind (IsBackedUp w shape q old) Settled Left (back_up w shape q) _ h
        (back_up-Holds w shape q old names_ok (w.edits old) h f)
        (λ digest n b.
          Holds-bind (ArmedUnit w shape q old digest) Settled Left (arm w shape q name) _ n
            (arm-Holds w shape q old digest name n b)
            (λ u m (same, waiting).
              subst
                (λ u. Holds Settled Left (
                  (edited w shape q
                      >> (revalidate w shape q u digest >>= λ cfg.
                          write w shape q u name cfg
                          >> (check_syntax w shape q u >> (apply w shape q >> verify w shape q u))))
                    m))
                (sym same)
                (Holds-bind (IsValid w shape q old stops collision_free plain_old plain_now) Settled
                  Left (revalidate w shape q unit digest) _ (record m { files = w.edits m.files })
                  (revalidate-Holds w shape q old stops collision_free plain_old plain_now digest
                    (record m { files = w.edits m.files })
                    (edited-IsWaiting w shape q old digest m waiting))
                  (λ cfg k v. write_on-Holds name cfg k v))))

  fresh :
      (h n : Host D)
      → h.files ≡ old
      → IsIdle w q.attempt_id h
      → SameBut w q.attempt_id h n
      → IsFresh w shape q old n
  fresh h n same idle p = record { same = p.0 ∙ same; idle = (rw p.3 idle.0, p.2 ∙ idle.1) }

  handle-Holds :
      (r : Result Stop RepairResult × Host D)
      → Holds Settled Left r
      → Holds Settled Left (handle w shape q r)
  unfolding handle
  handle-Holds (ok r, h) p = p
  handle-Holds (err crashed, h) p = p
  handle-Holds (err (refused c), h) (inl p) = inl p
  handle-Holds (err (refused c), h) (inr p) =
      inr (log-CanRollBack w q.attempt_id (w.edits old) h _ p)

  -- Whatever a repair meets, and whatever others do to the files between its backup and its second look at
  -- them: behind a success no rollback is armed and nothing is pending. Behind a verification that
  -- failed, the armed rollback can bring every path to what it had before the repair's first write, a
  -- missing file counting as an empty one. Behind a refusal, either no rollback is armed, nothing is
  -- pending and every path has what it had at first or after what the others did, or the armed rollback
  -- can bring it there. Behind an exception, it is one of these, or the others' files are in place and
  -- the rollback is armed. No rollback of the attempt is armed or pending at first, the disk keeps what
  -- is written, the timer stops when it is told to, no two texts have one hash, no two files are backed
  -- up under one name, and no path or file that is read has a NUL.
  pub repair-IsSettled :
      (h : Host D)
      → h.files ≡ old
      → IsIdle w q.attempt_id h
      → Holds Settled Left (repair w shape q h)
  unfolding repair
  repair-IsSettled h same idle = handle-Holds ((discover w shape q >>= transact w shape q) h) (
      Holds-bind (λ name n. SameBut w q.attempt_id h n) Settled Left (discover w shape q)
        (transact w shape q) h
        (Holds-map (λ name n. SameBut w q.attempt_id h n) (λ name n. SameBut w q.attempt_id h n)
          (λ s n. SameBut w q.attempt_id h n) Left (discover w shape q h)
          (Holds-last (SameBut w q.attempt_id h) (discover w shape q h)
            (discover-SameBut w shape q h))
          (λ name n p. p)
          (λ s n p. Left-fresh w shape q old (w.edits old) n s (fresh h n same idle p)))
        (λ name n p. transact-Holds name n (fresh h n same idle p)))
