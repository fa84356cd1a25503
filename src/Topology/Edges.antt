-- ===== src/Topology/Edges.antt =====
-- The reverse edges say who names whom as a member.
use base_line_prox.Base.{
  ◌≡◌, refl, Bool, false, ◌&&◌, ◌||◌, List, [], ◌∷◌, ◌++◌, ◌==◌, codes_eq, arith, contains,
}
use base_line_prox.Base.Dict.{lookup, insert, lookup-insert}
use base_line_prox.Topology.Stanzas.{
  Name, Stanzas, members, Reverse, parents, add_members, reverse_from, reverse_members,
}

-- a stanza of the name has the device as a member
abbrev pub has_edge : Stanzas → Name → Name → Bool
has_edge [] dev name = false
has_edge ((n, s) ∷ cfg) dev name = (name == n && contains (members s) dev) || has_edge cfg dev name

pub contains-append :
    (x : Name) (xs ys : List Name) → contains (xs ++ ys) x ≡ (contains xs x || contains ys x)
contains-append x [] ys = refl
contains-append x (y ∷ xs) ys = ground (arith, contains-append x xs ys)

parents-insert :
    (dev m name : Name) (rev : Reverse) (y : Name)
    → contains (parents dev (insert m (parents m rev ++ name ∷ []) rev)) y
      ≡ (contains (parents dev rev) y || (y == name && dev == m))
parents-insert dev m name rev y =
    rw (lookup-insert dev m (parents m rev ++ name ∷ []) rev, parents)
      (ground (arith, contains-append y (parents m rev) (name ∷ [])))

parents-add_members :
    (dev name : Name) (ms : List Name) (rev : Reverse) (y : Name)
    → contains (parents dev (add_members name ms rev)) y
      ≡ (contains (parents dev rev) y || (y == name && contains ms dev))
unfolding add_members
parents-add_members dev name [] rev y = ground arith
parents-add_members dev name (m ∷ ms) rev y =
    let r = insert m (parents m rev ++ name ∷ []) rev in
    ground (arith, parents-add_members dev name ms r y, parents-insert dev m name rev y)

parents-reverse_from :
    (dev : Name) (cfg : Stanzas) (rev : Reverse) (y : Name)
    → contains (parents dev (reverse_from cfg rev)) y
      ≡ (contains (parents dev rev) y || has_edge cfg dev y)
unfolding reverse_from
parents-reverse_from dev [] rev y = ground arith
parents-reverse_from dev ((n, s) ∷ cfg) rev y =
    let r = add_members n (members s) rev in
    ground (arith, parents-reverse_from dev cfg r y, parents-add_members dev n (members s) rev y)

-- The parents of a device are the stanzas that name it as a member.
pub parents-reverse_members :
    (dev : Name) (cfg : Stanzas) (y : Name)
    → contains (parents dev (reverse_members cfg)) y ≡ has_edge cfg dev y
unfolding reverse_members lookup
parents-reverse_members dev cfg y = parents-reverse_from dev cfg [] y
