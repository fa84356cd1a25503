-- ===== src/Topology/Depth.antt =====
-- The depth that is given to the search for physical devices is enough.
use base_line_prox.Base.{
  ℕ, zero, suc, ◌+◌, ◌<◌, ◌≡◌, refl, ap, not, some, List, [], ◌∷◌, codes_eq, arith, contains,
  Option-cases, Bool-cases, inl, inr, length, length-keep-le,
}
use base_line_prox.Base.Dict.{lookup, keys}
use base_line_prox.Topology.Stanzas.{
  Name, Stanza, Stanzas, physical, classify, members, extend_all, or_itself, physical_below,
  underlying_physical,
}
use base_line_prox.Topology.Closed.{In}
use base_line_prox.Topology.Rounds.{unseen, unseen-lt}
use base_line_prox.Topology.Derived.{length-keys}

lookup_named : (x : Name) (cfg : Stanzas) (s : Stanza) → lookup x cfg ≡ some s → In x (keys cfg)
unfolding lookup
lookup_named x [] s h = cc
lookup_named x ((n, t) ∷ cfg) s h = ground (arith, lookup_named x cfg s)

extend_all-same :
    (f g : Name → List Name) (ms : List Name)
    → ((m : Name) → f m ≡ g m)
    → extend_all f ms ≡ extend_all g ms
extend_all-same f g [] h = refl
extend_all-same f g (m ∷ ms) h = rw (h m, extend_all-same f g ms h) refl

deeper :
    (n m : ℕ) (cfg : Stanzas) (seen : List Name) (name : Name)
    → length (unseen (keys cfg) seen) < n
    → length (unseen (keys cfg) seen) < m
    → physical_below n cfg seen name ≡ physical_below m cfg seen name
unfolding physical_below
deeper zero m cfg seen name h k = absurd (omega (arith, h))
deeper (suc n) zero cfg seen name h k = absurd (omega (arith, k))
deeper (suc n) (suc m) cfg seen name h k = elim (Option-cases (lookup name cfg)) [
  | inl q ↦ rw (q, physical_below) refl
  | inr (s, q) ↦ elim (Bool-cases (contains seen name)) [
    | inl e ↦ rw (q, e, physical_below) refl
    | inr e ↦
        let fewer = unseen-lt name (keys cfg) seen (lookup_named name cfg s q) e in
        let same =
          extend_all-same (λ x. or_itself x (physical_below n cfg (name ∷ seen) x))
            (λ x. or_itself x (physical_below m cfg (name ∷ seen) x)) (members s)
            (λ x. ap (or_itself x) (
              deeper n m cfg (name ∷ seen) x (omega (arith, fewer, h))
                (omega (arith, fewer, k)))) in
        rw (q, e, physical_below)
          (ap
            (λ (ds : List Name). elim (classify s) as (λ k. List Name) [
              | physical ↦ name ∷ []
              | _ ↦ ds
            ])
            same)
  ]
]

-- The physical devices beneath an interface do not change with any greater depth of the search, also
-- where the members go in a circle.
pub underlying_enough :
    (cfg : Stanzas) (name : Name) (more : ℕ)
    → physical_below (suc (length cfg) + more) cfg [] name ≡ underlying_physical cfg name
unfolding underlying_physical
underlying_enough cfg name more =
    let few = length-keep-le (λ x. not (contains [] x)) (keys cfg) in
    let same = length-keys cfg in
    deeper (suc (length cfg) + more) (suc (length cfg)) cfg [] name (omega (arith, few, same))
      (omega (arith, few, same))
