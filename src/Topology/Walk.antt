-- ===== src/Topology/Walk.antt =====
-- The search for a target and its derivation, of baseline/lib/topology.py. The searches for a static and
-- for an additive candidate differ only in the test of a stanza, which is a parameter here.
use base_line_prox.Base.{
  ℕ, zero, suc, Bool, not, ◌&&◌, Option, none, some, List, [], ◌∷◌, ◌++◌, ◌==◌, codes_eq, string_eq,
  if◌then◌else◌, contains, length,
}
use base_line_prox.Base.Dict.{Dict, lookup, insert, has_key, values}
use base_line_prox.Base.Text.{codes}
use base_line_prox.Topology.Stanzas.{
  Name, Stanza, Stanzas, Kind, physical, classify, Reverse, parents, reverse_members,
  underlying_physical,
}

pub record TargetCandidate : Type 0 where
  pub name : Name
  pub kind : Kind
  pub stanza : Stanza
  pub physical_devices : List Name

abbrev pub is_static : Stanza → Bool
is_static s = s.family == codes "inet" && s.method == codes "static"

abbrev pub is_additive : Stanza → Bool
is_additive s = not (s.family == codes "inet") && s.method == codes "static"

abbrev devices_of : Stanzas → Name → Stanza → List Name
devices_of cfg name s = elim (classify s) [
  | physical ↦ name ∷ []
  | _ ↦ underlying_physical cfg name
]

abbrev pub candidate_of : Stanzas → Name → Stanza → TargetCandidate
candidate_of cfg name s = record {
  name = name;
  kind = classify s;
  stanza = s;
  physical_devices = devices_of cfg name s;
}

-- `_is_static_candidate` and `_is_additive_candidate`
unfoldable pub candidate : (Stanza → Bool) → Stanzas → Name → Option TargetCandidate
unfolding classify underlying_physical
candidate test cfg name = elim (lookup name cfg) [
  | none ↦ none
  | some s ↦ if test s then some (candidate_of cfg name s) else none
]

pub record Search : Type 0 where
  pub seen : List Name
  pub found : Dict Name TargetCandidate
  pub next : List Name

-- `DerivationResult`: only `target` is ok
pub data Derivation : Type 0 where
  unknown_device nothing_found : Derivation
  target : TargetCandidate → Derivation
  ambiguous : List TargetCandidate → Derivation

module _ (test : Stanza → Bool) (cfg : Stanzas) where
  abbrev pub note : Name → Dict Name TargetCandidate → Dict Name TargetCandidate
  note p found = elim (candidate test cfg p) [ none ↦ found | some c ↦ insert p c found ]

  -- the body of the inner loop, over the parents of the frontier's devices
  unfoldable pub visit : List Name → Search → Search
  unfolding candidate
  visit [] s = s
  visit (p ∷ ps) s =
      if contains s.seen p
      then visit ps s
      else visit ps (record { seen = p ∷ s.seen; found = note p s.found; next = s.next ++ p ∷ [] })

  abbrev pub all_parents : Reverse → List Name → List Name
  all_parents rev [] = []
  all_parents rev (d ∷ ds) = parents d rev ++ all_parents rev ds

  -- the outer loop, for a number of rounds
  unfoldable pub rounds : ℕ → Reverse → List Name → Search → Search
  unfolding visit
  rounds zero rev frontier s = s
  rounds (suc n) rev [] s = s
  rounds (suc n) rev (d ∷ ds) s =
      let t = visit (all_parents rev (d ∷ ds)) (record s { next = [] }) in rounds n rev t.next t

  abbrev pub initial : Name → Search
  initial dev = record { seen = dev ∷ []; found = []; next = [] }

  -- `_walk_upward`: every round but the first starts from stanzas that were not seen before
  unfoldable pub walk_upward : Name → Dict Name TargetCandidate
  unfolding rounds reverse_members
  walk_upward dev = (rounds (suc (length cfg)) (reverse_members cfg) (dev ∷ []) (initial dev)).found

  -- `candidates.setdefault(cand.name, cand)`
  abbrev pub set_default : TargetCandidate → Dict Name TargetCandidate → Dict Name TargetCandidate
  set_default c d = elim (lookup c.name d) [ some old ↦ d | none ↦ insert c.name c d ]

  abbrev pub set_defaults :
      List TargetCandidate → Dict Name TargetCandidate → Dict Name TargetCandidate
  set_defaults [] d = d
  set_defaults (c ∷ cs) d = set_defaults cs (set_default c d)

  abbrev pub direct : Name → Dict Name TargetCandidate
  direct dev = elim (candidate test cfg dev) [ none ↦ [] | some c ↦ (c.name, c) ∷ [] ]

  unfoldable pub all_candidates : Name → Dict Name TargetCandidate
  unfolding walk_upward candidate
  all_candidates dev = set_defaults (values (walk_upward dev)) (direct dev)

  -- `derive_target` with `is_static`, `derive_additive_target` with `is_additive`
  unfoldable pub derive : Name → Derivation
  unfolding all_candidates reverse_members
  derive dev =
      if not (has_key dev cfg) && not (has_key dev (reverse_members cfg))
      then unknown_device
      else elim (values (all_candidates dev)) [
        | [] ↦ nothing_found
        | c ∷ [] ↦ target c
        | c ∷ more ↦ ambiguous (c ∷ more)
      ]

-- `derive_target` looks for the one static IPv4 configuration that may be reset, and
-- `derive_additive_target` for the one other configuration that DHCP may be added to.
abbrev pub derive_target : Stanzas → Name → Derivation
derive_target = derive is_static

abbrev pub walk_upward_additive : Stanzas → Name → Dict Name TargetCandidate
walk_upward_additive = walk_upward is_additive

abbrev pub derive_additive_target : Stanzas → Name → Derivation
derive_additive_target = derive is_additive
