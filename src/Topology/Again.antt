-- ===== src/Topology/Again.antt =====
-- A derivation from the target of a derivation.
use base_line_prox.Base.{
  ◌≡◌, refl, Bool, true, some, List, [], ◌∷◌, codes_eq, arith, Option-cases, inl, inr,
}
use base_line_prox.Base.Dict.{
  Dict, lookup, has_key, values, NodupKeys, NodupKeys-insert, Entries, Entries-map,
}
use base_line_prox.Topology.Stanzas.{Name, Stanza, Stanzas}
use base_line_prox.Topology.Walk.{
  TargetCandidate, candidate, set_default, set_defaults, direct, walk_upward, all_candidates,
  target, derive,
}
use base_line_prox.Topology.Target.{Above, here, up, IsSoundAt}
use base_line_prox.Topology.Derived.{all_candidates-Entries, all_candidates_complete}
use base_line_prox.Topology.Unique.{unique_target}

Above-Above :
    (cfg : Stanzas) (dev x : Name) {y : Name} → Above cfg dev x → Above cfg x y → Above cfg dev y
Above-Above cfg dev x a here = a
Above-Above cfg dev x a (up b e) = up (Above-Above cfg dev x a b) e

-- a dict whose keys are all one
only_entry :
    (x : Name) (t : TargetCandidate) (d : Dict Name TargetCandidate)
    → NodupKeys d
    → Entries (λ k c. k ≡ x) d
    → lookup x d ≡ some t
    → d ≡ (x, t) ∷ []
unfolding lookup
only_entry x t [] nodup all is = absurd (cc is)
only_entry x t ((k, c) ∷ []) nodup all is = ground arith
only_entry x t ((k, c) ∷ (j, b) ∷ d) nodup all is = absurd (ground arith)

module _ (test : Stanza → Bool) (cfg : Stanzas) where
  set_default-NodupKeys :
      (c : TargetCandidate) (d : Dict Name TargetCandidate)
      → NodupKeys d
      → NodupKeys (set_default test cfg c d)
  set_default-NodupKeys c d h = elim (Option-cases (lookup c.name d)) [
    | inl q ↦ rw (q, set_default) (NodupKeys-insert c.name c d h)
    | inr (old, q) ↦ rw (q, set_default) h
  ]

  set_defaults-NodupKeys :
      (cs : List TargetCandidate) (d : Dict Name TargetCandidate)
      → NodupKeys d
      → NodupKeys (set_defaults test cfg cs d)
  set_defaults-NodupKeys [] d h = h
  set_defaults-NodupKeys (c ∷ cs) d h =
      set_defaults-NodupKeys cs (set_default test cfg c d) (set_default-NodupKeys c d h)

  direct-NodupKeys : (dev : Name) → NodupKeys (direct test cfg dev)
  unfolding lookup
  direct-NodupKeys dev = elim (Option-cases (candidate test cfg dev)) [
    | inl q ↦ rw (q, direct) tt
    | inr (c, q) ↦ rw (q, direct) (refl, tt)
  ]

  all_candidates-NodupKeys : (dev : Name) → NodupKeys (all_candidates test cfg dev)
  unfolding all_candidates
  all_candidates-NodupKeys dev =
      set_defaults-NodupKeys (values (walk_upward test cfg dev)) (direct test cfg dev)
        (direct-NodupKeys dev)

  has_stanza :
      (x : Name) (c : TargetCandidate) → candidate test cfg x ≡ some c → has_key x cfg ≡ true
  unfolding candidate
  has_stanza x c h = elim (Option-cases (lookup x cfg)) [
    | inl q ↦ absurd (ground arith)
    | inr (s, q) ↦ rw (q, has_key) refl
  ]

  -- A derivation from its own target yields this target again: where a person is shown a target, and the
  -- repair derives it anew from the target's name, as long as the configuration is the same, no other
  -- interface is changed.
  pub derive_again :
      (dev : Name) (t : TargetCandidate)
      → derive test cfg dev ≡ target t
      → derive test cfg t.name ≡ target t
  unfolding derive
  derive_again dev t h =
      let (above, is, alone) = unique_target test cfg dev t h in
      let own : Entries (λ k c. k ≡ t.name) (all_candidates test cfg t.name) =
        Entries-map (IsSoundAt test cfg t.name) (λ k c. k ≡ t.name)
          (λ k c (over, of). alone k c (Above-Above cfg dev t.name above over) of)
          (all_candidates test cfg t.name) (all_candidates-Entries test cfg t.name) in
      let only =
        only_entry t.name t (all_candidates test cfg t.name) (all_candidates-NodupKeys t.name) own
          (all_candidates_complete test cfg t.name t.name t here is) in
      rw (has_stanza t.name t is, only, derive) refl
