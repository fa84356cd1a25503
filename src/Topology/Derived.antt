-- ===== src/Topology/Derived.antt =====
-- The derived target is the one candidate above the device.
use base_line_prox.Base.{
  suc, ◌≡◌, ◌⊎◌, inl, inr, refl, sym, subst, ◌∙◌, Bool, true, not, some, List, [], ◌∷◌, ◌==◌,
  codes_eq, arith, contains, any, Option-cases, Bool-cases, length, length-keep-le, All,
}
use base_line_prox.Base.Dict.{
  Dict, lookup, keys, values, lookup-insert, Entries, Entries-insert, Entries-lookup,
}
use base_line_prox.Topology.Stanzas.{Name, Stanza, Stanzas}
use base_line_prox.Topology.Walk.{
  TargetCandidate, candidate, initial, walk_upward, set_default, set_defaults, direct,
  all_candidates,
}
use base_line_prox.Topology.Edges.{parents-reverse_members}
use base_line_prox.Topology.Closed.{In, IsCollected}
use base_line_prox.Topology.Rounds.{IsClosed, rounds-IsClosed}
use base_line_prox.Topology.Target.{
  Above, here, up, IsSoundAt, rounds-IsSoundSearch, rounds-keeps, final,
}

pub length-keys : (cfg : Stanzas) → length (keys cfg) ≡ length cfg
length-keys [] = refl
length-keys ((n, s) ∷ cfg) = omega (arith, length-keys cfg)

module _ (test : Stanza → Bool) (cfg : Stanzas) (dev : Name) where
  pub candidate-name : (x : Name) (c : TargetCandidate) → candidate test cfg x ≡ some c → c.name ≡ x
  unfolding candidate
  candidate-name x c h = elim (Option-cases (lookup x cfg)) [
    | inl q ↦ absurd (ground arith)
    | inr (s, q) ↦ ground arith
  ]

  start-IsClosed : IsClosed test cfg (final test cfg dev)
  start-IsClosed =
      rounds-IsClosed test cfg (suc (length cfg)) (dev ∷ []) (initial test cfg dev) (λ x h. inl h)
        (inr (
          omega
            (arith, length-keep-le (λ x. not (contains (dev ∷ []) x)) (keys cfg), length-keys cfg)))

  start-IsCollected :
      IsCollected test cfg dev (final test cfg dev) × In dev (final test cfg dev).seen
  start-IsCollected =
      rounds-keeps test cfg dev (suc (length cfg)) (dev ∷ []) (initial test cfg dev)
        (λ x c h other is. absurd (other (ground arith))) (ground arith)

  seen-Above : {x : Name} → Above cfg dev x → In x (final test cfg dev).seen
  seen-Above here = start-IsCollected.1
  seen-Above (up {x} {y} a e) =
      start-IsClosed x y (seen-Above a) (parents-reverse_members x cfg y ∙ e)

  start_sound : Entries (IsSoundAt test cfg dev) (final test cfg dev).found
  start_sound =
      (rounds-IsSoundSearch test cfg dev (suc (length cfg)) (dev ∷ []) (initial test cfg dev)
        (λ x h. one_above x h)
        (record {
          above = λ x h. one_above x h;
          sound = tt;
          next_above = λ x h. absurd (cc h);
        })).sound
    where
      one_above : (x : Name) → In x (dev ∷ []) → Above cfg dev x
      one_above x h = let e : x ≡ dev = ground arith in rw e here

  abbrev HasEntry : Name → Dict Name TargetCandidate → Type 0
  HasEntry k d = (c : TargetCandidate) × (lookup k d ≡ some c)

  abbrev named : Name → List TargetCandidate → Bool
  named k cs = any (λ (c : TargetCandidate). c.name == k) cs

  named-values :
      (k : Name) (d : Dict Name TargetCandidate)
      → Entries (IsSoundAt test cfg dev) d
      → HasEntry k d
      → named k (values d) ≡ true
  unfolding lookup
  named-values k [] h (c, q) = cc
  named-values k ((j, w) ∷ d) h (c, q) = elim (Bool-cases (k == j)) [
    | inl e ↦ let n = candidate-name j w h.0.1 in ground arith
    | inr e ↦ let rest = named-values k d h.1 (c, ground arith) in ground (arith, rest)
  ]

  sound-values :
      (d : Dict Name TargetCandidate)
      → Entries (IsSoundAt test cfg dev) d
      → All (λ c. IsSoundAt test cfg dev c.name c) (values d)
  sound-values [] h = tt
  sound-values ((j, w) ∷ d) h =
      let n = candidate-name j w h.0.1 in
      (subst (λ (k : Name). IsSoundAt test cfg dev k w) (sym n) h.0, sound-values d h.1)

  set_default-Entries :
      (c : TargetCandidate) (d : Dict Name TargetCandidate)
      → IsSoundAt test cfg dev c.name c
      → Entries (IsSoundAt test cfg dev) d
      → Entries (IsSoundAt test cfg dev) (set_default test cfg c d)
  set_default-Entries c d h k = elim (Option-cases (lookup c.name d)) [
    | inl q ↦ rw (q, set_default) (Entries-insert (IsSoundAt test cfg dev) c.name c d h k)
    | inr (old, q) ↦ rw (q, set_default) k
  ]

  set_default-HasEntry :
      (x : Name) (c : TargetCandidate) (d : Dict Name TargetCandidate)
      → (HasEntry x d) ⊎ (c.name ≡ x)
      → HasEntry x (set_default test cfg c d)
  set_default-HasEntry x c d h = elim (Option-cases (lookup c.name d)) [
    | inr (old, q) ↦ rw (q, set_default) (elim h [ inl e ↦ e | inr e ↦ (old, rw (← e) q) ])
    | inl q ↦
        rw (q, set_default)
          (elim (Bool-cases (x == c.name)) [
            | inl e ↦ (c, rw (lookup-insert x c.name c d, e) refl)
            | inr e ↦ elim h [
              | inl (v, k) ↦ (v, rw (lookup-insert x c.name c d, e) k)
              | inr k ↦ absurd (ground arith)
            ]
          ])
  ]

  set_defaults_sound :
      (cs : List TargetCandidate) (d : Dict Name TargetCandidate)
      → All (λ c. IsSoundAt test cfg dev c.name c) cs
      → Entries (IsSoundAt test cfg dev) d
      → Entries (IsSoundAt test cfg dev) (set_defaults test cfg cs d)
  set_defaults_sound [] d h k = k
  set_defaults_sound (c ∷ cs) d h k =
      set_defaults_sound cs (set_default test cfg c d) h.1 (set_default-Entries c d h.0 k)

  set_defaults-HasEntry :
      (x : Name) (cs : List TargetCandidate) (d : Dict Name TargetCandidate)
      → (HasEntry x d) ⊎ (named x cs ≡ true)
      → HasEntry x (set_defaults test cfg cs d)
  set_defaults-HasEntry x [] d (inl h) = h
  set_defaults-HasEntry x [] d (inr h) = absurd (cc h)
  set_defaults-HasEntry x (c ∷ cs) d h =
      set_defaults-HasEntry x cs (set_default test cfg c d) (elim h [
        | inl e ↦ inl (set_default-HasEntry x c d (inl e))
        | inr e ↦ elim (Bool-cases (c.name == x)) [
          | inl k ↦ inl (set_default-HasEntry x c d (inr (ground arith)))
          | inr k ↦ inr (ground arith)
        ]
      ])

  direct-Entries : Entries (IsSoundAt test cfg dev) (direct test cfg dev)
  direct-Entries = elim (Option-cases (candidate test cfg dev)) [
    | inl q ↦ rw (q, direct) tt
    | inr (c, q) ↦
        let n = candidate-name dev c q in
        rw (q, direct) (subst (λ (k : Name). IsSoundAt test cfg dev k c) (sym n) (here, q), tt)
  ]

  direct-HasEntry :
      (c : TargetCandidate) → candidate test cfg dev ≡ some c → HasEntry dev (direct test cfg dev)
  unfolding lookup
  direct-HasEntry c q = let n = candidate-name dev c q in rw (q, direct) (c, ground arith)

  -- every candidate above the device is among those collected, and nothing else
  pub all_candidates-Entries : Entries (IsSoundAt test cfg dev) (all_candidates test cfg dev)
  unfolding all_candidates walk_upward
  all_candidates-Entries =
      set_defaults_sound (values (walk_upward test cfg dev)) (direct test cfg dev)
        (sound-values (walk_upward test cfg dev) start_sound) direct-Entries

  pub all_candidates_complete :
      (x : Name) (c : TargetCandidate)
      → Above cfg dev x
      → candidate test cfg x ≡ some c
      → lookup x (all_candidates test cfg dev) ≡ some c
  unfolding all_candidates walk_upward
  all_candidates_complete x c above is =
      let there : HasEntry x (all_candidates test cfg dev) =
        set_defaults-HasEntry x (values (walk_upward test cfg dev)) (direct test cfg dev)
          (elim (codes_eq.dec x dev) [
            | yes e ↦ inl (rw e (direct-HasEntry c (rw e at is)))
            | no e ↦ inr (
                named-values x (walk_upward test cfg dev) start_sound
                  (c, start-IsCollected.0 x c (seen-Above above) e is))
          ]) in
      let sound =
        Entries-lookup (IsSoundAt test cfg dev) x _ there.0 all_candidates-Entries there.1 in
      there.1 ∙ (sym sound.1 ∙ is)
