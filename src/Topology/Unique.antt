-- ===== src/Topology/Unique.antt =====
-- A derivation never guesses.
use base_line_prox.Base.{
  ◌≡◌, refl, sym, subst, ◌∙◌, Bool, none, some, [], ◌∷◌, codes_eq, arith, Option-cases, inl, inr,
}
use base_line_prox.Base.Dict.{Dict, lookup, values}
use base_line_prox.Topology.Stanzas.{Name, Stanza, Stanzas}
use base_line_prox.Topology.Walk.{
  TargetCandidate, candidate, all_candidates, Derivation, target, nothing_found, ambiguous,
  unknown_device, derive,
}
use base_line_prox.Topology.Target.{Above, IsSoundAt}
use base_line_prox.Topology.Derived.{
  candidate-name, all_candidates-Entries, all_candidates_complete,
}

module _ (test : Stanza → Bool) (cfg : Stanzas) (dev : Name) where
  abbrev chosen : Dict Name TargetCandidate → Derivation
  chosen d = elim (values d) [
    | [] ↦ nothing_found
    | c ∷ [] ↦ target c
    | c ∷ more ↦ ambiguous (c ∷ more)
  ]

  chosen_target :
      (d : Dict Name TargetCandidate) (t : TargetCandidate)
      → chosen d ≡ target t
      → (k : Name) × (d ≡ (k, t) ∷ [])
  chosen_target [] t h = absurd (ground arith)
  chosen_target ((k, v) ∷ []) t h = (k, ground arith)
  chosen_target ((k, v) ∷ e ∷ d) t h = absurd (ground arith)

  derived_target :
      (t : TargetCandidate)
      → derive test cfg dev ≡ target t
      → chosen (all_candidates test cfg dev) ≡ target t
  unfolding derive
  derived_target t h = ground arith

  chosen_none : (d : Dict Name TargetCandidate) → chosen d ≡ nothing_found → d ≡ []
  chosen_none [] h = refl
  chosen_none ((k, v) ∷ []) h = absurd (ground arith)
  chosen_none ((k, v) ∷ e ∷ d) h = absurd (ground arith)

  derived_none :
      derive test cfg dev ≡ nothing_found → chosen (all_candidates test cfg dev) ≡ nothing_found
  unfolding derive
  derived_none h = ground arith

  lookup_one : (x k : Name) (t c : TargetCandidate) → lookup x ((k, t) ∷ []) ≡ some c → x ≡ k
  unfolding lookup
  lookup_one x k t c h = ground arith

  pub unique_target :
      (t : TargetCandidate)
      → derive test cfg dev ≡ target t
      → Above cfg dev t.name
        × (candidate test cfg t.name ≡ some t)
        × ((x : Name) (c : TargetCandidate)
            → Above cfg dev x
            → candidate test cfg x ≡ some c
            → x ≡ t.name)
  unique_target t h =
      let d = all_candidates test cfg dev in
      let (k, only) = chosen_target d t (derived_target t h) in
      let entry = rw only at (all_candidates-Entries test cfg dev) in
      let n = candidate-name test cfg dev k t entry.0.1 in
      let own = subst (λ (j : Name). IsSoundAt test cfg dev j t) (sym n) entry.0 in
      (
        own.0,
        own.1,
        λ x c above is.
            lookup_one x k t c (rw only at (all_candidates_complete test cfg dev x c above is))
            ∙ sym n,
      )

  nowhere :
      derive test cfg dev ≡ nothing_found
      → (x : Name) → Above cfg dev x
      → candidate test cfg x ≡ none
  unfolding lookup
  nowhere h x above = elim (Option-cases (candidate test cfg x)) [
    | inl q ↦ q
    | inr (c, q) ↦
        let only = chosen_none (all_candidates test cfg dev) (derived_none h) in
        absurd (cc (rw only at (all_candidates_complete test cfg dev x c above q)))
  ]

  -- what a derivation's result says of the stanzas
  abbrev pub IsRight : Derivation → Type 0
  IsRight (target t) =
      Above cfg dev t.name
      × (candidate test cfg t.name ≡ some t)
      × ((x : Name) (c : TargetCandidate)
          → Above cfg dev x
          → candidate test cfg x ≡ some c
          → x ≡ t.name)
  IsRight nothing_found = (x : Name) → Above cfg dev x → candidate test cfg x ≡ none
  IsRight _ = Unit

  right : (r : Derivation) → derive test cfg dev ≡ r → IsRight r
  right (target t) h = unique_target t h
  right nothing_found h = nowhere h
  right unknown_device h = tt
  right (ambiguous cs) h = tt

  -- A derivation never guesses: a target that it yields is a candidate, the device itself or above it,
  -- and the only one, at any distance along the membership edges; and it reports that nothing was found
  -- only if there is none.
  pub derive_never_guesses : IsRight (derive test cfg dev)
  derive_never_guesses = right (derive test cfg dev) refl
