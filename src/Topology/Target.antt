-- ===== src/Topology/Target.antt =====
-- The derived target is the one candidate above the device.
use base_line_prox.Base.{
  ℕ, zero, suc, ◌≡◌, inl, inr, sym, ◌∙◌, Bool, true, some, List, [], ◌∷◌, codes_eq, arith, contains,
  Option-cases, Bool-cases, length,
}
use base_line_prox.Base.Dict.{Entries, Entries-insert}
use base_line_prox.Topology.Stanzas.{Name, Stanza, Stanzas, Reverse, parents, reverse_members}
use base_line_prox.Topology.Walk.{
  TargetCandidate, candidate, Search, note, visit, all_parents, rounds, initial,
}
use base_line_prox.Topology.Edges.{has_edge, contains-append, parents-reverse_members}
use base_line_prox.Topology.Closed.{In, visit-IsVisited, IsCollected, visit-IsCollected, seen_one}

-- what a device is a member of, at any distance
pub data Above (cfg : Stanzas) (dev : Name) : Name → Type 0 where
  here : Above cfg dev dev
  up : {x y : Name} → Above cfg dev x → has_edge cfg x y ≡ true → Above cfg dev y

module _ (test : Stanza → Bool) (cfg : Stanzas) (dev : Name) where
  -- of an entry of the candidates
  abbrev pub IsSoundAt : Name → TargetCandidate → Type 0
  IsSoundAt k c = Above cfg dev k × (candidate test cfg k ≡ some c)

  pub record IsSoundSearch (s : Search) : Type 0 where
    pub above : (x : Name) → In x s.seen → Above cfg dev x
    pub sound : Entries IsSoundAt s.found
    pub next_above : (x : Name) → In x s.next → Above cfg dev x

  visit-IsSoundSearch :
      (ps : List Name) (s : Search)
      → ((x : Name) → In x ps → Above cfg dev x)
      → IsSoundSearch s
      → IsSoundSearch (visit test cfg ps s)
  unfolding visit
  visit-IsSoundSearch [] s a h = h
  visit-IsSoundSearch (p ∷ ps) s a h = elim (Bool-cases (contains s.seen p)) [
    | inl q ↦ rw (q, visit) (visit-IsSoundSearch ps s (λ x k. a x (ground arith)) h)
    | inr q ↦
        let at : Above cfg dev p = a p (ground arith) in
        rw (q, visit)
          (visit-IsSoundSearch ps _ (λ x k. a x (ground arith))
            (record {
              above =
                  λ x k. elim (seen_one x p s.seen k) [ inl e ↦ rw e at | inr old ↦ h.above x old ];
              sound = elim (Option-cases (candidate test cfg p)) [
                | inl none_there ↦ rw (none_there, note) h.sound
                | inr (c, is) ↦
                    rw (is, note) (Entries-insert IsSoundAt p c s.found (at, is) h.sound)
              ];
              next_above = λ x k. elim (Bool-cases (contains s.next x)) [
                | inl old ↦ h.next_above x old
                | inr new ↦
                    let e : x ≡ p = ground (arith, contains-append x s.next (p ∷ [])) in rw e at
              ];
            }))
  ]

  abbrev pub rev : Reverse
  rev = reverse_members cfg

  parents-Above :
      (frontier : List Name)
      → ((x : Name) → In x frontier → Above cfg dev x)
      → (y : Name) → In y (all_parents test cfg rev frontier)
      → Above cfg dev y
  parents-Above [] a y h = absurd (cc h)
  parents-Above (d ∷ ds) a y h = elim (Bool-cases (contains (parents d rev) y)) [
    | inl e ↦ up (a d (ground arith)) (sym (parents-reverse_members d cfg y) ∙ e)
    | inr e ↦
        parents-Above ds (λ x k. a x (ground arith)) y
          (ground (arith, contains-append y (parents d rev) (all_parents test cfg rev ds)))
  ]

  pub rounds-IsSoundSearch :
      (n : ℕ) (frontier : List Name) (s : Search)
      → ((x : Name) → In x frontier → Above cfg dev x)
      → IsSoundSearch s
      → IsSoundSearch (rounds test cfg n rev frontier s)
  unfolding rounds
  rounds-IsSoundSearch zero frontier s a h = h
  rounds-IsSoundSearch (suc n) [] s a h = h
  rounds-IsSoundSearch (suc n) (d ∷ ds) s a h =
      let r : Search = record s { next = [] } in
      let t =
        visit-IsSoundSearch (all_parents test cfg rev (d ∷ ds)) r (parents-Above (d ∷ ds) a)
          (record { above = h.above; sound = h.sound; next_above = λ x k. absurd (cc k) }) in
      rounds-IsSoundSearch n _ _ t.next_above t

  pub rounds-keeps :
      (n : ℕ) (frontier : List Name) (s : Search)
      → IsCollected test cfg dev s
      → In dev s.seen
      → IsCollected test cfg dev (rounds test cfg n rev frontier s)
        × In dev (rounds test cfg n rev frontier s).seen
  unfolding rounds
  rounds-keeps zero frontier s c h = (c, h)
  rounds-keeps (suc n) [] s c h = (c, h)
  rounds-keeps (suc n) (d ∷ ds) s c h =
      let r : Search = record s { next = [] } in
      let ps = all_parents test cfg rev (d ∷ ds) in
      let v = visit-IsVisited test cfg ps r in
      rounds-keeps n _ _ (visit-IsCollected test cfg dev ps r c) (v.keeps dev h)

  abbrev pub final : Search
  final = rounds test cfg (suc (length cfg)) rev (dev ∷ []) (initial test cfg dev)
