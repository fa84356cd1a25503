-- ===== src/Repair/Retention.antt =====
-- What `prune_old_backups` of baseline/lib/repair.py removes.
use base_line_prox.Base.{
  ℕ, zero, suc, ◌+◌, ◌-◌, ◌≤◌, ◌≡◌, ◌⊎◌, inl, inr, refl, sym, ap, ◌∙◌, true, false, not, Option,
  none, some, List, [], ◌∷◌, ◌==◌, codes_eq, nat_eq, Distinct, if◌then◌else◌, arith, contains, keep,
  take, drop, length, Eq, All, Option-cases, Bool-cases,
}
use base_line_prox.Base.Dict.{Dict, lookup, keys, keys-Distinct, NodupKeys}
use base_line_prox.Base.Sorting.{sort_texts, Distinct-sort_texts}
use base_line_prox.Interfaces.Data.{Text}
use base_line_prox.Repair.Host.{Attempt, World}
use base_line_prox.Repair.Attempts.{
  min_age, min_attempts, attempt_of, closed_at, closed_attempts, latest_first, pruned_from, pruned,
  prune_old_backups, is_kept,
}
use base_line_prox.Repair.Latest.{
  Closed, In, IsLatest, All-latest_first, latest_first-IsLatest, take-later, All-take, In-drop,
  Distinct-latest_first, Distinct-take, All-disjoint,
}

module _ {D : Type 0} (attempts : Dict Text (Attempt D)) where
  abbrev pub closed_time : Text → Option ℕ
  closed_time id = closed_at (attempt_of (lookup id attempts))

  closed_attempts-All :
      (ids : List Text) → All (λ x. closed_time x.0 ≡ some x.1) (closed_attempts attempts ids)
  unfolding closed_attempts
  closed_attempts-All [] = tt
  closed_attempts-All (id ∷ ids) = elim (Option-cases (closed_time id)) [
    | inl q ↦ rw (q, closed_attempts) (closed_attempts-All ids)
    | inr (t, q) ↦ rw (q, closed_attempts) (q, closed_attempts-All ids)
  ]

  keys-closed_attempts :
      (ids : List Text) (k : Text)
      → contains (keys (closed_attempts attempts ids)) k ≡ true
      → contains ids k ≡ true
  unfolding closed_attempts
  keys-closed_attempts [] k h = h
  keys-closed_attempts (id ∷ ids) k h = ground (arith, keys-closed_attempts ids k)

  Distinct-closed_attempts :
      (ids : List Text) → Distinct ids → Distinct (keys (closed_attempts attempts ids))
  unfolding closed_attempts
  Distinct-closed_attempts [] h = tt
  Distinct-closed_attempts (id ∷ ids) h =
      ground (arith, Distinct-closed_attempts ids h.1, keys-closed_attempts ids id)

lookup-keep :
    {V : Type 0} (gone : List Text) (k : Text) (d : Dict Text V)
    → lookup k (keep (λ x. not (contains gone x.0)) d)
      ≡ (if contains gone k then none else lookup k d)
unfolding lookup
lookup-keep gone k [] = ground arith
lookup-keep gone k ((j, v) ∷ d) = ground (arith, lookup-keep gone k d)

module _ {D : Type 0} ⦃e : Eq D⦄ (w : World D) where
  -- the first ten are kept
  pruned_from-drop :
      (n i : ℕ) (xs : Closed)
      → i + n ≡ min_attempts
      → pruned_from w i xs ≡ pruned_from w min_attempts (drop n xs)
  unfolding pruned_from
  pruned_from-drop zero i xs h = ap (λ (j : ℕ). pruned_from w j xs) (omega (arith, h))
  pruned_from-drop (suc n) i [] h = refl
  pruned_from-drop (suc n) i ((id, t) ∷ xs) h = ground (arith, pruned_from-drop n (suc i) xs)

  pruned_from-In :
      (i : ℕ) (xs : Closed) (id : Text)
      → min_attempts ≤ i
      → contains (pruned_from w i xs) id ≡ true
      → (t : ℕ) × In (id, t) xs × (min_age ≤ w.now - t)
  unfolding pruned_from
  pruned_from-In i [] id h q = absurd (cc q)
  pruned_from-In i ((j, t) ∷ xs) id h q = elim (Bool-cases (is_kept w i t)) [
    | inl k ↦
        let (u, found, old) =
          pruned_from-In (suc i) xs id (omega arith) (rw (k, pruned_from) at q) in
        (u, inr found, old)
    | inr k ↦ elim (Bool-cases (id == j)) [
      | inl same ↦ (t, inl (ground arith), ground arith)
      | inr other ↦
          let (u, found, old) = pruned_from-In (suc i) xs id (omega arith) (ground arith) in
          (u, inr found, old)
    ]
  ]

  pruned_from-keys :
      (i : ℕ) (xs : Closed) (k : Text)
      → contains (keys xs) k ≡ false
      → contains (pruned_from w i xs) k ≡ false
  unfolding pruned_from
  pruned_from-keys i [] k h = h
  pruned_from-keys i ((j, t) ∷ xs) k h = ground (arith, pruned_from-keys (suc i) xs k)

  -- Ten others that stay were closed no earlier, and the attempt is a month old.
  pub record IsPrunable (attempts : Dict Text (Attempt D)) (id : Text) : Type 0 where
    pub time : ℕ
    pub was_closed : closed_time attempts id ≡ some time
    pub is_old : min_age ≤ w.now - time
    pub newer : List (Text × ℕ)
    pub ten : length newer ≡ min_attempts
    pub distinct : Distinct (keys newer)
    pub no_earlier : All (λ x. time ≤ x.1) newer
    pub are_closed : All (λ x. closed_time attempts x.0 ≡ some x.1) newer
    pub stay : All (λ x. lookup x.0 (prune_old_backups w attempts) ≡ lookup x.0 attempts) newer

  sorted_attempts : Dict Text (Attempt D) → Closed
  sorted_attempts attempts = latest_first (closed_attempts attempts (sort_texts (keys attempts)))

  module _ (attempts : Dict Text (Attempt D)) (nodup : NodupKeys attempts) where
    sorted_attempts-Distinct : Distinct (keys (sorted_attempts attempts))
    unfolding sorted_attempts
    sorted_attempts-Distinct =
        Distinct-latest_first (closed_attempts attempts (sort_texts (keys attempts))) (
          Distinct-closed_attempts attempts (sort_texts (keys attempts))
            (Distinct-sort_texts (keys attempts) (keys-Distinct attempts nodup)))

    sorted_attempts-All : All (λ x. closed_time attempts x.0 ≡ some x.1) (sorted_attempts attempts)
    unfolding sorted_attempts
    sorted_attempts-All =
        All-latest_first (λ x. closed_time attempts x.0 ≡ some x.1)
          (closed_attempts attempts (sort_texts (keys attempts)))
          (closed_attempts-All attempts (sort_texts (keys attempts)))

    sorted_attempts-IsLatest : IsLatest (sorted_attempts attempts)
    unfolding sorted_attempts
    sorted_attempts-IsLatest = latest_first-IsLatest _

    pruned_lem :
        pruned w attempts
        ≡ pruned_from w min_attempts (drop min_attempts (sorted_attempts attempts))
    unfolding pruned sorted_attempts
    pruned_lem = pruned_from-drop min_attempts 0 (sorted_attempts attempts) (omega arith)

    lookup-prune :
        (k : Text)
        → lookup k (prune_old_backups w attempts)
          ≡ (if contains (pruned w attempts) k then none else lookup k attempts)
    unfolding prune_old_backups
    lookup-prune k = lookup-keep (pruned w attempts) k attempts

    stays :
        (xs : Closed)
        → All (λ x. contains (keys (drop min_attempts (sorted_attempts attempts))) x.0 ≡ false) xs
        → All (λ x. lookup x.0 (prune_old_backups w attempts) ≡ lookup x.0 attempts) xs
    stays [] h = tt
    stays (x ∷ xs) h = (
      lookup-prune x.0
          ∙ (let kept : contains (pruned w attempts) x.0 ≡ false =
                ap (λ ids. contains ids x.0) pruned_lem
                ∙ pruned_from-keys min_attempts (drop min_attempts (sorted_attempts attempts)) x.0
                    h.0 in
              rw kept refl),
      stays xs h.1,
    )

    pruned-IsPrunable :
        (id : Text) → contains (pruned w attempts) id ≡ true → IsPrunable attempts id
    pruned-IsPrunable id h =
        let sorted = sorted_attempts attempts in
        let (t, found, old) =
          pruned_from-In min_attempts (drop min_attempts sorted) id (omega arith)
            (sym (ap (λ ids. contains ids id) pruned_lem) ∙ h) in
        let first = take-later min_attempts sorted (id, t) sorted_attempts-IsLatest found in
        record {
          time = t;
          was_closed =
              In-drop (λ x. closed_time attempts x.0 ≡ some x.1) min_attempts sorted (id, t)
                sorted_attempts-All found;
          is_old = old;
          newer = take min_attempts sorted;
          ten = first.0;
          distinct = Distinct-take min_attempts sorted sorted_attempts-Distinct;
          no_earlier = first.1;
          are_closed =
              All-take (λ x. closed_time attempts x.0 ≡ some x.1) min_attempts sorted
                sorted_attempts-All;
          stay =
              stays (take min_attempts sorted)
                (All-disjoint min_attempts sorted sorted_attempts-Distinct);
        }

    -- The removal of old backups leaves an attempt as it is, unless the attempt has a backup, is closed and
    -- was closed 30 days ago at least, and ten other closed attempts stay that were closed no earlier. So
    -- an attempt that is not closed is never removed. No identifier stands twice among the attempts.
    pub prune_removes_old :
        (id : Text)
        → (lookup id (prune_old_backups w attempts) ≡ lookup id attempts) ⊎ IsPrunable attempts id
    prune_removes_old id = elim (Bool-cases (contains (pruned w attempts) id)) [
      | inl h ↦ inr (pruned-IsPrunable id h)
      | inr h ↦ inl (lookup-prune id ∙ rw h refl)
    ]
