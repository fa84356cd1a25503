-- ===== src/Repair/Before.antt =====
-- A repair up to its first write: the plan, the backup, the rollback that is armed, and the second look.
use base_line_prox.Base.{
  ◌≡◌, inl, inr, refl, sym, ap, subst, ◌∙◌, Option, some, List, [], codes_eq, nat_eq, arith,
  contains, Eq, Result, ok, err, Result-cases, Option-cases,
}
use base_line_prox.Base.Dict.{Dict, insert, lookup-insert, keys, Entries}
use base_line_prox.Interfaces.Data.{Text, ParsedConfig}
use base_line_prox.Interfaces.Parser.{parse_files}
use base_line_prox.Interfaces.Located.{parse_files-Entries}
use base_line_prox.Interfaces.Closure.{content, closure_text}
use base_line_prox.Repair.Reading.{read_closure, read_interfaces_config}
use base_line_prox.Repair.Terminates.{read_closure-Entries}
use base_line_prox.Repair.Host.{
  BackedUp, Attempt, Event, Host, World, Stop, refused, crashed, backup_unverified,
}
use base_line_prox.Repair.Attempts.{rollback_unit_name, attempt_at, copy_files, create_backup}
use base_line_prox.Repair.Backups.{IsSaved, HaveNames, copy_files-IsSaved}
use base_line_prox.Repair.Pipeline.{Shape, Request, interfaces_path, read_config, discover, back_up}
use base_line_prox.Repair.Safe.{Holds, Holds-bind, Holds-map, IsIdle, SameBut, IsLeft}

module _ {D : Type 0} ⦃e : Eq D⦄ (w : World D) (shape : Shape) (q : Request) where
  read_config-SameBut : (h : Host D) → (read_config w shape q h).1 ≡ h
  unfolding read_config
  read_config-SameBut h = ground arith

  pub discover-SameBut : (h : Host D) → SameBut w q.attempt_id h (discover w shape q h).1
  unfolding discover
  discover-SameBut h = ground arith

abbrev pub OnOk : {E A : Type 0} → (A → Type 0) → Result E A → Type 0
OnOk P (ok a) = P a
OnOk P (err e) = Unit

pub on_ok : {E A : Type 0} (P : A → Type 0) (r : Result E A) (a : A) → OnOk P r → r ≡ ok a → P a
on_ok P r a h q = subst (OnOk P) q h

module _ {D : Type 0} ⦃e : Eq D⦄ (w : World D) (shape : Shape) (q : Request)
    (old : Dict Text Text) where
  abbrev pub unit : Text
  unit = rollback_unit_name q.attempt_id

  -- the configuration that is parsed from a disk
  pub record IsReadFrom (disk : Dict Text Text) (cfg : ParsedConfig) : Type 0 where
    pub files : Dict Text Text
    pub closure : read_closure w.directories interfaces_path disk ≡ ok files
    pub parsed : cfg ≡ parse_files files

  pub read_config-Holds :
      (h : Host D)
      → Holds
          (λ cfg n. IsReadFrom h.files cfg × (n ≡ h))
          (λ s n. (s ≡ crashed) × (n ≡ h))
          (read_config w shape q h)
  unfolding read_config read_interfaces_config
  read_config-Holds h = elim (Result-cases (read_closure w.directories interfaces_path h.files)) [
    | inl (files, r) ↦
        rw (r, Holds, read_config, read_interfaces_config)
          (record { files = files; closure = r; parsed = refl }, refl)
    | inr (s, r) ↦ rw (r, Holds, read_config, read_interfaces_config) (refl, refl)
  ]

  -- nothing is armed, and nothing was changed
  pub record IsFresh (h : Host D) : Type 0 where
    pub same : h.files ≡ old
    pub idle : IsIdle w q.attempt_id h

  -- behind the backup
  pub record IsBackedUp (digest : D) (h : Host D) : Type 0 where
    pub files : Dict Text Text
    pub closure : read_closure w.directories interfaces_path old ≡ ok files
    pub digest_of : digest ≡ w.sha256 (closure_text files)
    pub manifest : Dict Text (BackedUp D)
    pub in_attempt : (attempt_at q.attempt_id h).manifest ≡ some manifest
    pub saved : Entries (IsSaved w old (attempt_at q.attempt_id h).backups) manifest
    pub same_keys : (k : Text) → contains (keys manifest) k ≡ contains (keys files) k
    pub is_fresh : IsFresh h

  attempt_at-put :
      (a : Attempt D) (h : Host D)
      → attempt_at q.attempt_id (record h { attempts = insert q.attempt_id a h.attempts }) ≡ a
  attempt_at-put a h = ground (arith, lookup-insert q.attempt_id q.attempt_id a h.attempts)

  pub Left-fresh :
      (now : Dict Text Text) (h : Host D) (s : Stop) → IsFresh h → IsLeft w q.attempt_id old now s h
  Left-fresh now h (refused c) f = inl (f.idle, inl (λ k. ap (content k) f.same))
  Left-fresh now h crashed f = inl (f.idle, λ k. ap (content k) f.same)

  copied_pair :
      (r : Dict Text Text × Option (Dict Text (BackedUp D))) (m : Dict Text (BackedUp D))
      → r.1 ≡ some m
      → r ≡ (r.0, some m)
  copied_pair r m n = ground arith

  backed_up :
      (files : Dict Text Text) (m : Dict Text (BackedUp D)) (a : Attempt D) (h : Host D)
      → read_closure w.directories interfaces_path old ≡ ok files
      → a.manifest ≡ some m
      → Entries (IsSaved w old a.backups) m
      → ((k : Text) → contains (keys m) k ≡ contains (keys files) k)
      → IsFresh h
      → IsBackedUp
          (w.sha256 (closure_text files))
          (record h { attempts = insert q.attempt_id a h.attempts })
  backed_up files m a h closure has saved same_keys f = record {
    files = files;
    closure = closure;
    digest_of = refl;
    manifest = m;
    in_attempt = ap (λ (x : Attempt D). x.manifest) (attempt_at-put a h) ∙ has;
    saved =
        subst (λ (x : Attempt D). Entries (IsSaved w old x.backups) m) (sym (attempt_at-put a h))
          saved;
    same_keys = same_keys;
    is_fresh = record { same = f.same; idle = f.idle };
  }

  pub read_files :
      (disk : Dict Text Text) (cfg : ParsedConfig) (r : IsReadFrom disk cfg) → cfg.files ≡ r.files
  read_files disk cfg r =
      ap (λ (c : ParsedConfig). c.files) r.parsed
      ∙ (parse_files-Entries r.files
          (read_closure-Entries w.directories disk interfaces_path r.files r.closure).0).1

  module _ (names_ok : OnOk HaveNames (read_closure w.directories interfaces_path old)) where
    create_backup-Holds :
        (files now : Dict Text Text) (h : Host D)
        → read_closure w.directories interfaces_path old ≡ ok files
        → IsFresh h
        → Holds IsBackedUp (IsLeft w q.attempt_id old now) (create_backup w q.attempt_id files h)
    unfolding create_backup
    create_backup-Holds files now h closure f =
        let r = copy_files w files (attempt_at q.attempt_id h).backups [] in
        elim (Option-cases r.1) [
          | inl n ↦
              rw (n, create_backup)
                (Left-fresh now _ (refused backup_unverified)
                  (record { same = f.same; idle = f.idle }))
          | inr (m, n) ↦
              let copied =
                copy_files-IsSaved w old files (attempt_at q.attempt_id h).backups r.0 [] m
                  (on_ok HaveNames (read_closure w.directories interfaces_path old) files names_ok
                    closure)
                  (read_closure-Entries w.directories old interfaces_path files closure).1 tt
                  (copied_pair r m n) in
              rw (n, create_backup)
                (backed_up files m
                  (record (attempt_at q.attempt_id h) { backups = r.0; manifest = some m }) h
                  closure refl copied.0 copied.1 f)
        ]

    log-IsBackedUp :
        (digest : D) (h : Host D) (log : List Event)
        → IsBackedUp digest h
        → IsBackedUp digest (record h { log = log })
    log-IsBackedUp digest h log b = record {
      files = b.files;
      closure = b.closure;
      digest_of = b.digest_of;
      manifest = b.manifest;
      in_attempt = b.in_attempt;
      saved = b.saved;
      same_keys = b.same_keys;
      is_fresh = record { same = b.is_fresh.same; idle = b.is_fresh.idle };
    }

    abbrev ReadFresh : ParsedConfig → Host D → Type 0
    ReadFresh cfg h = IsReadFrom old cfg × IsFresh h

    read_fresh :
        (now : Dict Text Text) (h : Host D)
        → IsFresh h
        → Holds ReadFresh (IsLeft w q.attempt_id old now) (read_config w shape q h)
    read_fresh now h f =
        Holds-map (λ cfg n. IsReadFrom h.files cfg × (n ≡ h)) ReadFresh
          (λ s n. (s ≡ crashed) × (n ≡ h)) (IsLeft w q.attempt_id old now) (read_config w shape q h)
          (read_config-Holds h)
          (λ cfg n (r, same).
            (subst (λ disk. IsReadFrom disk cfg) f.same r, subst IsFresh (sym same) f))
          (λ s n (c, same). Left-fresh now n s (subst IsFresh (sym same) f))

    pub back_up-Holds :
        (now : Dict Text Text) (h : Host D)
        → IsFresh h
        → Holds IsBackedUp (IsLeft w q.attempt_id old now) (back_up w shape q h)
    unfolding back_up
    back_up-Holds now h f =
        Holds-bind ReadFresh IsBackedUp (IsLeft w q.attempt_id old now) (read_config w shape q) _ h
          (read_fresh now h f)
          (λ cfg n (r, g).
            Holds-bind IsBackedUp IsBackedUp (IsLeft w q.attempt_id old now)
              (create_backup w q.attempt_id cfg.files) _ n
              (create_backup-Holds cfg.files now n
                (subst (λ fs. read_closure w.directories interfaces_path old ≡ ok fs)
                  (sym (read_files old cfg r)) r.closure)
                g)
              (λ digest m b. log-IsBackedUp digest m _ b))
