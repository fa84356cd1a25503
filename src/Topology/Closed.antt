-- ===== src/Topology/Closed.antt =====
-- The search sees everything above the device, and collects its candidates.
use base_line_prox.Base.{
  ◌≡◌, ◌≢◌, ◌⊎◌, inl, inr, Bool, true, false, some, List, [], ◌∷◌, ◌++◌, ◌==◌, codes_eq, arith,
  contains, Option-cases, Bool-cases,
}
use base_line_prox.Base.Dict.{lookup, lookup-insert}
use base_line_prox.Topology.Stanzas.{Name, Stanza, Stanzas}
use base_line_prox.Topology.Walk.{TargetCandidate, candidate, Search, note, visit}
use base_line_prox.Topology.Edges.{contains-append}

abbrev pub In : Name → List Name → Type 0
In x xs = contains xs x ≡ true

pub seen_one : (x p : Name) (seen : List Name) → In x (p ∷ seen) → (x ≡ p) ⊎ In x seen
seen_one x p seen h = ground arith

module _ (test : Stanza → Bool) (cfg : Stanzas) where
  -- every name that was seen, but the first, has its candidate among those found
  abbrev pub IsCollected : Name → Search → Type 0
  IsCollected dev s =
      (x : Name) (c : TargetCandidate)
      → In x s.seen
      → x ≢ dev
      → candidate test cfg x ≡ some c
      → lookup x s.found ≡ some c

  -- what a visit leaves
  pub record IsVisited (ps : List Name) (s t : Search) : Type 0 where
    pub keeps : (x : Name) → In x s.seen → In x t.seen
    pub sees : (x : Name) → In x ps → In x t.seen
    pub queues : (x : Name) → In x t.seen → (In x s.seen) ⊎ (In x t.next)
    pub queued : (x : Name) → In x s.next → In x t.next

  pub visit-IsVisited : (ps : List Name) (s : Search) → IsVisited ps s (visit test cfg ps s)
  unfolding visit
  visit-IsVisited [] s = record {
    keeps = λ x h. h;
    sees = λ x h. absurd (ground arith);
    queues = λ x h. inl h;
    queued = λ x h. h;
  }
  visit-IsVisited (p ∷ ps) s = elim (Bool-cases (contains s.seen p)) [
    | inl q ↦
        let v = visit-IsVisited ps s in
        rw (q, visit)
          (record {
            keeps = v.keeps;
            sees = λ x h. ground (arith, v.sees x, v.keeps x);
            queues = v.queues;
            queued = v.queued;
          })
    | inr q ↦
        let r : Search = record {
          seen = p ∷ s.seen;
          found = note test cfg p s.found;
          next = s.next ++ p ∷ [];
        } in
        let v = visit-IsVisited ps r in
        rw (q, visit)
          (record {
            keeps = λ x h. v.keeps x (ground arith);
            sees = λ x h. ground (arith, v.sees x, v.keeps x);
            queues =
                λ x h. ground (arith, v.queues x h, v.queued x, contains-append x s.next (p ∷ []));
            queued = λ x h. v.queued x (ground (arith, contains-append x s.next (p ∷ [])));
          })
  ]

  note-IsCollected :
      (dev p : Name) (s : Search) (more : List Name)
      → contains s.seen p ≡ false
      → IsCollected dev s
      → IsCollected dev (record { seen = p ∷ s.seen; found = note test cfg p s.found; next = more })
  note-IsCollected dev p s more fresh h x c seen other is =
      elim (Option-cases (candidate test cfg p)) [
        | inl q ↦
            rw (q, note)
              (elim (seen_one x p s.seen seen) [
                | inl e ↦ absurd (cc (e, q, is))
                | inr k ↦ h x c k other is
              ])
        | inr (d, q) ↦
            rw (q, note, lookup-insert x p d s.found)
              (elim (Bool-cases (x == p)) [
                | inl e ↦ let same : x ≡ p = ground arith in rw e (cc (same, q, is))
                | inr e ↦ rw e (h x c (ground arith) other is)
              ])
      ]

  pub visit-IsCollected :
      (dev : Name) (ps : List Name) (s : Search)
      → IsCollected dev s
      → IsCollected dev (visit test cfg ps s)
  unfolding visit
  visit-IsCollected dev [] s h = h
  visit-IsCollected dev (p ∷ ps) s h = elim (Bool-cases (contains s.seen p)) [
    | inl q ↦ rw (q, visit) (visit-IsCollected dev ps s h)
    | inr q ↦
        rw (q, visit) (visit-IsCollected dev ps _ (note-IsCollected dev p s (s.next ++ p ∷ []) q h))
  ]
