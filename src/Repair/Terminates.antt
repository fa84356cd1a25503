-- ===== src/Repair/Terminates.antt =====
-- The loop that reads the sourced files ends, also where files source one another, and what it reads.
use base_line_prox.Base.{
  ℕ, zero, suc, ◌+◌, ◌≤◌, ◌≡◌, ◌≢◌, refl, false, some, List, [], ◌∷◌, ◌++◌, codes_eq, contains,
  length, length-append, arith, ok, err, Bool-cases, Option-cases, Result-cases, inl, inr,
}
use base_line_prox.Base.Dict.{
  Dict, lookup, insert, NodupKeys, NodupKeys-insert, Entries, Entries-insert,
}
use base_line_prox.Interfaces.Data.{Text}
use base_line_prox.Interfaces.Closure.{content, content_of, content_absent}
use base_line_prox.Repair.Reading.{
  out_of_fuel, Directories, line_targets, all_targets, file_targets, read_from, target_count,
  unseen_targets, read_closure,
}

module _ (d : Directories) where
  line_targets_ends : (line : Text) → line_targets d line ≢ err out_of_fuel
  unfolding line_targets
  line_targets_ends line h = ground arith

  all_targets_ends : (lines : List Text) → all_targets d lines ≢ err out_of_fuel
  unfolding all_targets
  all_targets_ends [] h = cc h
  all_targets_ends (line ∷ lines) h = ground (arith, line_targets_ends line, all_targets_ends lines)

  file_targets_ends : (text : Text) → file_targets d text ≢ err out_of_fuel
  unfolding file_targets
  file_targets_ends text = all_targets_ends _

  unseen_targets-le :
      (path : Text) (seen : List Text) (files : Dict Text Text)
      → unseen_targets d (path ∷ seen) files ≤ unseen_targets d seen files
  unfolding unseen_targets
  unseen_targets-le path seen [] = omega arith
  unseen_targets-le path seen ((k, t) ∷ files) = ground (arith, unseen_targets-le path seen files)

  -- a file that is read is seen from then on
  unseen_targets-seen :
      (path text : Text) (seen : List Text) (files : Dict Text Text)
      → contains seen path ≡ false
      → lookup path files ≡ some text
      → unseen_targets d (path ∷ seen) files + target_count d text ≤ unseen_targets d seen files
  unfolding unseen_targets lookup
  unseen_targets-seen path text seen [] h q = cc
  unseen_targets-seen path text seen ((k, t) ∷ files) h q =
      ground (arith, unseen_targets-le path seen files, unseen_targets-seen path text seen files h)

  read_from_ends :
      (disk : Dict Text Text) (n : ℕ) (queue seen : List Text) (files : Dict Text Text)
      → length queue + unseen_targets d seen disk ≤ n
      → read_from d disk n queue seen files ≢ err out_of_fuel
  unfolding read_from target_count
  read_from_ends disk n [] seen files h q = cc q
  read_from_ends disk zero (path ∷ queue) seen files h q = absurd (omega arith)
  read_from_ends disk (suc n) (path ∷ queue) seen files h q =
      elim (Bool-cases (contains seen path)) [
        | inl s ↦ read_from_ends disk n queue seen files (omega (arith, h)) (rw (s, read_from) at q)
        | inr s ↦ elim (Option-cases (lookup path disk)) [
          | inl l ↦
              read_from_ends disk n queue (path ∷ seen) (insert path [] files)
                (omega (arith, h, unseen_targets-le path seen disk)) (rw (s, l, read_from) at q)
          | inr (text, l) ↦ elim (Result-cases (file_targets d text)) [
            | inl (targets, t) ↦
                read_from_ends disk n (queue ++ targets) (path ∷ seen) (insert path text files)
                  (let counted : target_count d text ≡ length targets = rw (t, target_count) refl in
                    omega (
                      arith,
                      h,
                      counted,
                      length-append queue targets,
                      unseen_targets-seen path text seen disk s l,
                    ))
                  (rw (s, l, t, read_from) at q)
            | inr (e, t) ↦
                let ended : e ≡ out_of_fuel = cc (rw (s, l, t, read_from) at q) in
                file_targets_ends text (rw ended at t)
          ]
        ]
      ]

  -- Reading the sourced files ends: one round of the loop for the root, and one for each path that a file
  -- on the disk names, are enough, also where files source one another.
  pub read_closure_ends :
      (root : Text) (disk : Dict Text Text) → read_closure d root disk ≢ err out_of_fuel
  unfolding read_closure
  read_closure_ends root disk =
      read_from_ends disk (suc (unseen_targets d [] disk)) (root ∷ []) [] [] (omega arith)

abbrev pub IsContent : Dict Text Text → Text → Text → Type 0
IsContent disk path text = content path disk ≡ text

module _ (d : Directories) (disk : Dict Text Text) where
  read_from-Entries :
      (n : ℕ) (queue seen : List Text) (files next : Dict Text Text)
      → NodupKeys files
      → Entries (IsContent disk) files
      → read_from d disk n queue seen files ≡ ok next
      → NodupKeys next × Entries (IsContent disk) next
  unfolding read_from
  read_from-Entries n [] seen files next nodup h q =
      let same : files ≡ next = ground arith in (rw (← same) nodup, rw (← same) h)
  read_from-Entries zero (path ∷ queue) seen files next nodup h q = absurd (cc q)
  read_from-Entries (suc n) (path ∷ queue) seen files next nodup h q =
      elim (Bool-cases (contains seen path)) [
        | inl s ↦ read_from-Entries n queue seen files next nodup h (rw (s, read_from) at q)
        | inr s ↦ elim (Option-cases (lookup path disk)) [
          | inl l ↦
              read_from-Entries n queue (path ∷ seen) (insert path [] files) next
                (NodupKeys-insert path [] files nodup)
                (Entries-insert (IsContent disk) path [] files (content_absent path disk l) h)
                (rw (s, l, read_from) at q)
          | inr (text, l) ↦ elim (Result-cases (file_targets d text)) [
            | inl (targets, t) ↦
                read_from-Entries n (queue ++ targets) (path ∷ seen) (insert path text files) next
                  (NodupKeys-insert path text files nodup)
                  (Entries-insert (IsContent disk) path text files (content_of path text disk l) h)
                  (rw (s, l, t, read_from) at q)
            | inr (e, t) ↦ absurd (cc (rw (s, l, t, read_from) at q))
          ]
        ]
      ]

  -- every file read holds what the disk has
  pub read_closure-Entries :
      (root : Text) (files : Dict Text Text)
      → read_closure d root disk ≡ ok files
      → NodupKeys files × Entries (IsContent disk) files
  unfolding read_closure
  read_closure-Entries root files q =
      read_from-Entries (suc (unseen_targets d [] disk)) (root ∷ []) [] [] files tt tt q
