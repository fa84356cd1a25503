-- ===== src/Repair/Backups.antt =====
-- A backup that was made can be restored, on a disk that may fail to keep what is written to it.
use base_line_prox.Base.{
  ◌≡◌, refl, sym, ap, ◌∙◌, true, false, ◌||◌, some, List, [], ◌∷◌, ◌==◌, codes_eq, if◌then◌else◌,
  arith, contains, Eq, Bool-cases, inl, inr, ok,
}
use base_line_prox.Base.Dict.{
  Dict, lookup, insert, lookup-insert, keys, contains-keys-insert, Entries, Entries-insert,
  Entries-map,
}
use base_line_prox.Interfaces.Data.{Text}
use base_line_prox.Interfaces.Closure.{content}
use base_line_prox.Repair.Host.{BackedUp, Host, World}
use base_line_prox.Repair.Attempts.{backup_name, copy_files, restore_files}

-- the names under which the files are backed up
abbrev pub names : Dict Text Text → List Text
names [] = []
names ((path, text) ∷ files) = backup_name path ∷ names files

-- no two files are backed up under one name
abbrev pub HaveNames : Dict Text Text → Type 0
HaveNames [] = Unit
HaveNames ((path, text) ∷ files) =
    (contains (names files) (backup_name path) ≡ false) × HaveNames files

pub content-insert :
    (k path text : Text) (files : Dict Text Text)
    → content k (insert path text files) ≡ (if k == path then text else content k files)
content-insert k path text files = ground (arith, lookup-insert k path text files)

module _ {D : Type 0} ⦃e : Eq D⦄ (w : World D) (original : Dict Text Text) where
  -- the backup of a path holds what the original has there
  abbrev pub IsSaved : Dict Text Text → Text → BackedUp D → Type 0
  IsSaved backups path info =
      (lookup info.backup_name backups ≡ some (content path original))
      × (info.hash ≡ w.sha256 (content path original))

  -- and none of the files to come is backed up under its name
  abbrev IsKept : Dict Text Text → Dict Text Text → Text → BackedUp D → Type 0
  IsKept files backups path info =
      IsSaved backups path info × (contains (names files) info.backup_name ≡ false)

  IsKept-insert :
      (path text kept : Text) (files backups : Dict Text Text) (k : Text) (info : BackedUp D)
      → IsKept ((path, text) ∷ files) backups k info
      → IsKept files (insert (backup_name path) kept backups) k info
  IsKept-insert path text kept files backups k info h = (
    (ground (arith, lookup-insert info.backup_name (backup_name path) kept backups), h.0.1),
    ground arith,
  )

  copied :
      (path text kept : Text) (files backups : Dict Text Text)
      → kept ≡ text
      → content path original ≡ text
      → contains (names files) (backup_name path) ≡ false
      → IsKept files
          (insert (backup_name path) kept backups)
          path
          (record { backup_name = backup_name path; hash = w.sha256 text })
  copied path text kept files backups read same fresh = (
    (
      ground (arith, lookup-insert (backup_name path) (backup_name path) kept backups),
      ap w.sha256 (sym same),
    ),
    fresh,
  )

  grown :
      (k path : Text) (info : BackedUp D) (manifest : Dict Text (BackedUp D))
      (files : Dict Text Text)
      → (contains (keys (insert path info manifest)) k || contains (keys files) k)
        ≡ (contains (keys manifest) k || (k == path || contains (keys files) k))
  grown k path info manifest files = ground (arith, contains-keys-insert k path info manifest)

  pub copy_files-IsSaved :
      (files backups next : Dict Text Text) (manifest done : Dict Text (BackedUp D))
      → HaveNames files
      → Entries (λ path text. content path original ≡ text) files
      → Entries (IsKept files backups) manifest
      → copy_files w files backups manifest ≡ (next, some done)
      → Entries (IsSaved next) done
        × ((k : Text)
            → contains (keys done) k ≡ (contains (keys manifest) k || contains (keys files) k))
  unfolding copy_files
  copy_files-IsSaved [] backups next manifest done names_ok same kept q =
      let first : backups ≡ next = ground arith in
      let second : manifest ≡ done = ground arith in
      (
        rw (← first, ← second)
            (Entries-map (IsKept [] backups) (IsSaved backups) (λ k info h. h.0) manifest kept),
        λ k. rw (← second) (ground arith),
      )
  copy_files-IsSaved ((path, text) ∷ files) backups next manifest done names_ok same kept q =
      elim (Bool-cases (w.written (backup_name path) text == text)) [
        | inr t ↦ absurd (cc (rw (t, copy_files) at q))
        | inl t ↦
            let name = backup_name path in
            let read : w.written name text ≡ text = ground arith in
            let info : BackedUp D = record { backup_name = name; hash = w.sha256 text } in
            let rest =
              copy_files-IsSaved files (insert name (w.written name text) backups) next
                (insert path info manifest) done names_ok.1 same.1
                (Entries-insert (IsKept files (insert name (w.written name text) backups)) path info
                  manifest
                  (copied path text (w.written name text) files backups read same.0 names_ok.0)
                  (Entries-map (IsKept ((path, text) ∷ files) backups)
                    (IsKept files (insert name (w.written name text) backups))
                    (IsKept-insert path text (w.written name text) files backups) manifest kept))
                (rw (t, copy_files) at q) in
            (rest.0, λ k. rest.1 k ∙ grown k path info manifest files)
      ]

  -- where the manifest says so, the original; elsewhere what was there
  abbrev pub IsRestored : Dict Text (BackedUp D) → Host D → Host D → Type 0
  IsRestored manifest h after =
      (k : Text)
      → content k after.files
        ≡ (if contains (keys manifest) k then content k original else content k h.files)

  self_eq : (x y : D) → x ≡ y → (y == x) ≡ true
  self_eq x y h = ground arith

  -- a step of the loop, at a backup that holds the original
  abbrev restored_once : Text → Host D → Host D
  restored_once path h = record h {
    files = insert path (w.written path (content path original)) h.files;
  }

  restore_read_back :
      (backups : Dict Text Text) (path : Text) (info : BackedUp D)
      (manifest : Dict Text (BackedUp D)) (h : Host D)
      → IsSaved backups path info
      → (w.sha256 (w.written path (content path original)) == info.hash) ≡ true
      → restore_files w backups ((path, info) ∷ manifest) h
        ≡ restore_files w backups manifest (restored_once path h)
  unfolding restore_files
  restore_read_back backups path info manifest h saved t =
      rw (saved.0, self_eq info.hash (w.sha256 (content path original)) saved.1, t, restore_files)
        refl

  restore_corrupt :
      (backups : Dict Text Text) (path : Text) (info : BackedUp D)
      (manifest : Dict Text (BackedUp D)) (h : Host D)
      → IsSaved backups path info
      → (w.sha256 (w.written path (content path original)) == info.hash) ≡ false
      → restore_files w backups ((path, info) ∷ manifest) h ≡ (ok false, restored_once path h)
  unfolding restore_files
  restore_corrupt backups path info manifest h saved t =
      rw (saved.0, self_eq info.hash (w.sha256 (content path original)) saved.1, t, restore_files)
        refl

  module _ (collision_free : (s t : Text) → w.sha256 s ≡ w.sha256 t → s ≡ t) where
    restored_at :
        (k path : Text) (manifest : Dict Text (BackedUp D)) (h : Host D)
        → w.written path (content path original) ≡ content path original
        → (if contains (keys manifest) k
            then content k original
            else content k (restored_once path h).files)
          ≡ (if k == path || contains (keys manifest) k
              then content k original
              else content k h.files)
    restored_at k path manifest h read =
        ground (arith, content-insert k path (w.written path (content path original)) h.files)

    pub restore_files-IsRestored :
        (backups : Dict Text Text) (manifest : Dict Text (BackedUp D)) (h after : Host D)
        → Entries (IsSaved backups) manifest
        → restore_files w backups manifest h ≡ (ok true, after)
        → IsRestored manifest h after × (after ≡ record h { files = after.files })
    unfolding restore_files
    restore_files-IsRestored backups [] h after saved q =
        let same : h ≡ after = ground arith in rw (← same) ((λ k. refl), refl)
    restore_files-IsRestored backups ((path, info) ∷ manifest) h after saved q =
        elim (Bool-cases (w.sha256 (w.written path (content path original)) == info.hash)) [
          | inr t ↦ absurd (cc (q, restore_corrupt backups path info manifest h saved.0 t))
          | inl t ↦
              let kept : w.sha256 (w.written path (content path original)) ≡ info.hash =
                ground arith in
              let read =
                collision_free (w.written path (content path original)) (content path original)
                  (kept ∙ saved.0.1) in
              let rest =
                restore_files-IsRestored backups manifest (restored_once path h) after saved.1
                  (sym (restore_read_back backups path info manifest h saved.0 t) ∙ q) in
              (λ k. rest.0 k ∙ restored_at k path manifest h read, rest.1)
        ]

  -- a disk that keeps what is written is restored
  pub restore_files-ok :
      ((path text : Text) → w.written path text ≡ text)
      → (backups : Dict Text Text) (manifest : Dict Text (BackedUp D)) (h : Host D)
      → Entries (IsSaved backups) manifest
      → (restore_files w backups manifest h).0 ≡ ok true
  unfolding restore_files
  restore_files-ok keeps backups [] h saved = refl
  restore_files-ok keeps backups ((path, info) ∷ manifest) h saved =
      let kept = saved.0.1 ∙ ap w.sha256 (sym (keeps path (content path original))) in
      rw (restore_read_back backups path info manifest h saved.0 (self_eq info.hash _ kept))
        (restore_files-ok keeps backups manifest (restored_once path h) saved.1)
