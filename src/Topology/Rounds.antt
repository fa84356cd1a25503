-- ===== src/Topology/Rounds.antt =====
-- As many rounds as there are stanzas, and one, see everything above the device.
use base_line_prox.Base.{
  ℕ, zero, suc, ◌+◌, ◌≤◌, ◌<◌, ◌≡◌, ◌⊎◌, inl, inr, refl, Bool, true, false, not, List, [], ◌∷◌,
  ◌++◌, ◌==◌, codes_eq, arith, contains, keep, Bool-cases, length, length-append,
}
use base_line_prox.Base.Dict.{keys}
use base_line_prox.Topology.Stanzas.{Name, Stanza, Stanzas, Reverse, parents, reverse_members}
use base_line_prox.Topology.Walk.{Search, note, visit, all_parents, rounds}
use base_line_prox.Topology.Edges.{has_edge, contains-append, parents-reverse_members}
use base_line_prox.Topology.Closed.{In, visit-IsVisited}

abbrev pub unseen : List Name → List Name → List Name
unseen names seen = keep (λ x. not (contains seen x)) names

unseen-le :
    (p : Name) (names seen : List Name)
    → length (unseen names (p ∷ seen)) ≤ length (unseen names seen)
unseen-le p [] seen = omega arith
unseen-le p (x ∷ names) seen = ground (arith, unseen-le p names seen)

pub unseen-lt :
    (p : Name) (names seen : List Name)
    → In p names
    → contains seen p ≡ false
    → length (unseen names (p ∷ seen)) < length (unseen names seen)
unseen-lt p [] seen h k = cc
unseen-lt p (x ∷ names) seen h k = ground (arith, unseen-lt p names seen, unseen-le p names seen)

edge_named : (cfg : Stanzas) (x y : Name) → has_edge cfg x y ≡ true → In y (keys cfg)
edge_named [] x y h = cc
edge_named ((n, s) ∷ cfg) x y h = ground (arith, edge_named cfg x y)

module _ (test : Stanza → Bool) (cfg : Stanzas) where
  visit-unseen :
      (ps : List Name) (s : Search)
      → ((x : Name) → In x ps → In x (keys cfg))
      → length (unseen (keys cfg) (visit test cfg ps s).seen) + length (visit test cfg ps s).next
        ≤ length (unseen (keys cfg) s.seen) + length s.next
  unfolding visit
  visit-unseen [] s h = omega arith
  visit-unseen (p ∷ ps) s h = elim (Bool-cases (contains s.seen p)) [
    | inl q ↦ rw (q, visit) (visit-unseen ps s (λ x k. h x (ground arith)))
    | inr q ↦
        let r : Search = record {
          seen = p ∷ s.seen;
          found = note test cfg p s.found;
          next = s.next ++ p ∷ [];
        } in
        let fewer = unseen-lt p (keys cfg) s.seen (h p (ground arith)) q in
        let rest = visit-unseen ps r (λ x k. h x (ground arith)) in
        let longer = length-append s.next (p ∷ []) in
        rw (q, visit) (omega (arith, fewer, rest, longer))
  ]

  abbrev pub rev : Reverse
  rev = reverse_members cfg

  In-all_parents :
      (x y : Name) (frontier : List Name)
      → In x frontier
      → In y (parents x rev)
      → In y (all_parents test cfg rev frontier)
  In-all_parents x y [] h k = cc
  In-all_parents x y (d ∷ ds) h k = elim (Bool-cases (x == d)) [
    | inl e ↦
        let same : x ≡ d = ground arith in
        let there : In y (parents d rev) = rw (← same) k in
        rw (contains-append y (parents d rev) (all_parents test cfg rev ds)) (ground (arith, there))
    | inr e ↦
        let there = In-all_parents x y ds (ground arith) k in
        rw (contains-append y (parents d rev) (all_parents test cfg rev ds)) (ground (arith, there))
  ]

  parents_named :
      (frontier : List Name) (y : Name) → In y (all_parents test cfg rev frontier) → In y (keys cfg)
  parents_named [] y h = cc
  parents_named (d ∷ ds) y h = ground (
    arith,
    contains-append y (parents d rev) (all_parents test cfg rev ds),
    parents-reverse_members d cfg y,
    edge_named cfg d y,
    parents_named ds y,
  )

  -- everything that was seen waits in the frontier, or its parents were seen too
  abbrev pub IsOpen : List Name → Search → Type 0
  IsOpen frontier s =
      (x : Name) → In x s.seen → (In x frontier) ⊎ ((y : Name) → In y (parents x rev) → In y s.seen)

  abbrev pub IsClosed : Search → Type 0
  IsClosed s = (x y : Name) → In x s.seen → In y (parents x rev) → In y s.seen

  IsOpen-IsClosed : (s : Search) → IsOpen [] s → IsClosed s
  IsOpen-IsClosed s h x y k p = elim (h x k) [ inl e ↦ absurd (cc e) | inr f ↦ f y p ]

  pub rounds-IsClosed :
      (n : ℕ) (frontier : List Name) (s : Search)
      → IsOpen frontier s
      → (frontier ≡ []) ⊎ (length (unseen (keys cfg) s.seen) < n)
      → IsClosed (rounds test cfg n rev frontier s)
  unfolding rounds
  rounds-IsClosed zero [] s waits fuel = IsOpen-IsClosed s waits
  rounds-IsClosed zero (d ∷ ds) s waits fuel = absurd (ground arith)
  rounds-IsClosed (suc n) [] s waits fuel = IsOpen-IsClosed s waits
  rounds-IsClosed (suc n) (d ∷ ds) s waits fuel =
      let ps = all_parents test cfg rev (d ∷ ds) in
      let r : Search = record s { next = [] } in
      let t = visit test cfg ps r in
      let v = visit-IsVisited test cfg ps r in
      let fewer = visit-unseen ps r (parents_named (d ∷ ds)) in
      rounds-IsClosed n t.next t
        (λ x k. elim (v.queues x k) [
          | inr q ↦ inl q
          | inl q ↦ inr (λ y p. elim (waits x q) [
            | inl f ↦ v.sees y (In-all_parents x y (d ∷ ds) f p)
            | inr f ↦ v.keeps y (f y p)
          ])
        ])
        (some_left t.next fewer fuel)
    where
      some_left :
          (next : List Name) {a b m : ℕ}
          → a + length next ≤ b + 0
          → (d ∷ ds ≡ []) ⊎ (b < suc m)
          → (next ≡ []) ⊎ (a < m)
      some_left [] h k = inl refl
      some_left (x ∷ xs) h k = inr (ground arith)
