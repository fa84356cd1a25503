-- ===== src/Topology/Stanzas.antt =====
-- The reverse membership edges and physical devices of baseline/lib/topology.py, over the stanzas that
-- ifnet_config.py parses.
use base_line_prox.Base.{
  ℕ, zero, suc, none, some, List, [], ◌∷◌, ◌++◌, codes_eq, if◌then◌else◌, contains, length,
}
use base_line_prox.Base.Dict.{Dict, lookup, insert}
pub use base_line_prox.Interfaces.Data.{
  Name, Stanza, Stanzas, Kind, bridge, bond, vlan, loopback, physical,
}
unfoldable pub use base_line_prox.Interfaces.Data.{
  classify, bridge_members, bond_members, vlan_parent,
}

-- the devices that a stanza names as its members
unfoldable pub members : Stanza → List Name
unfolding classify bridge_members bond_members vlan_parent
members s = elim (classify s) [
  | bridge ↦ bridge_members s
  | bond ↦ bond_members s
  | vlan ↦ vlan_parent s
  | _ ↦ []
]

-- device name -> names of the stanzas that have it as a member
abbrev pub Reverse : Type 0
Reverse = Dict Name (List Name)

abbrev pub parents : Name → Reverse → List Name
parents dev rev = elim (lookup dev rev) [ none ↦ [] | some names ↦ names ]

-- `rev.setdefault(m, []).append(name)`, for each member
unfoldable pub add_members : Name → List Name → Reverse → Reverse
add_members name [] rev = rev
add_members name (m ∷ ms) rev = add_members name ms (insert m (parents m rev ++ name ∷ []) rev)

unfoldable pub reverse_from : Stanzas → Reverse → Reverse
unfolding add_members members
reverse_from [] rev = rev
reverse_from ((name, s) ∷ cfg) rev = reverse_from cfg (add_members name (members s) rev)

unfoldable pub reverse_members : Stanzas → Reverse
unfolding reverse_from
reverse_members cfg = reverse_from cfg []

-- `... or [m]`
abbrev pub or_itself : Name → List Name → List Name
or_itself m [] = m ∷ []
or_itself m (d ∷ ds) = d ∷ ds

-- `out.extend(f(m))`, for each of the names
abbrev pub extend_all : (Name → List Name) → List Name → List Name
extend_all f [] = []
extend_all f (m ∷ ms) = f m ++ extend_all f ms

-- The recursion of `_underlying_physical`, to a depth. It stops at a name that was seen.
unfoldable pub physical_below : ℕ → Stanzas → List Name → Name → List Name
unfolding classify members
physical_below zero cfg seen name = []
physical_below (suc n) cfg seen name = elim (lookup name cfg) [
  | none ↦ []
  | some s ↦ if contains seen name then [] else elim (classify s) [
    | physical ↦ name ∷ []
    | _ ↦ extend_all (λ m. or_itself m (physical_below n cfg (name ∷ seen) m)) (members s)
  ]
]

-- every call but the last has seen one more of the stanzas
unfoldable pub underlying_physical : Stanzas → Name → List Name
unfolding physical_below
underlying_physical cfg name = physical_below (suc (length cfg)) cfg [] name
