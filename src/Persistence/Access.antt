-- ===== src/Persistence/Access.antt =====
-- When a grant gives access: never again once it is revoked, and never while its application is not
-- installed.
use base_line_prox.Base.{
  ℕ, zero, suc, ap, ◌≡◌, ◌≢◌, ◌⊎◌, inl, inr, refl, subst, true, false, List, [], ◌∷◌, map, arith,
  All,
}
use base_line_prox.Persistence.Grants.{
  GrantState, active, suspended, revoked, expired, Grant, is_effective, suspend, reactivate, revoke,
  expire, Change, suspends, reactivates, revokes, expires, change, change_all, installed,
  Application, disable, re_enable, uninstall, delete_state, Action, disables, uninstalls,
  deletes_state, re_enables, changes, change_at, act, act_all,
}

-- the states that a grant in a state can come to
abbrev pub Later : GrantState → GrantState → Type 0
Later revoked t = t ≡ revoked
Later expired t = (t ≡ expired) ⊎ (t ≡ revoked)
Later _ t = Unit

Later-same : (s : GrantState) → Later s s
Later-same revoked = refl
Later-same expired = inl refl
Later-same active = tt
Later-same suspended = tt

Later-change : (c : Change) (g : Grant) → Later g.state (change c g).state
unfolding suspend reactivate revoke expire
Later-change suspends g = ground arith
Later-change reactivates g = ground arith
Later-change revokes g = ground arith
Later-change expires g = ground arith

Later-trans : (s t u : GrantState) → Later s t → Later t u → Later s u
Later-trans revoked t u h k = rw h at k
Later-trans expired t u (inl h) k = rw h at k
Later-trans expired t u (inr h) k = inr (rw h at k)
Later-trans active t u h k = tt
Later-trans suspended t u h k = tt

-- A revoked grant stays revoked, and an expired grant stays expired or is revoked, whatever is done to
-- it.
pub change_is_terminal : (cs : List Change) (g : Grant) → Later g.state (change_all cs g).state
change_is_terminal [] g = Later-same g.state
change_is_terminal (c ∷ cs) g =
    Later-trans g.state (change c g).state (change_all cs (change c g)).state (Later-change c g)
      (change_is_terminal cs (change c g))

change-IsRevoked : (c : Change) (g : Grant) → g.state ≡ revoked → (change c g).state ≡ revoked
change-IsRevoked c g h = subst (λ s. Later s (change c g).state) h (Later-change c g)

abbrev pub IsIdle : Grant → Type 0
IsIdle g = is_effective g ≡ false

abbrev pub IsRevoked : Grant → Type 0
IsRevoked g = g.state ≡ revoked

suspend-IsIdle : (gs : List Grant) → All IsIdle (map suspend gs)
unfolding suspend
suspend-IsIdle [] = tt
suspend-IsIdle (g ∷ gs) = (ground arith, suspend-IsIdle gs)

revoke-IsRevoked : (gs : List Grant) → All IsRevoked (map revoke gs)
unfolding revoke
revoke-IsRevoked [] = tt
revoke-IsRevoked (g ∷ gs) = (refl, revoke-IsRevoked gs)

IsRevoked-IsIdle : (gs : List Grant) → All IsRevoked gs → All IsIdle gs
IsRevoked-IsIdle [] h = tt
IsRevoked-IsIdle (g ∷ gs) h = (ground arith, IsRevoked-IsIdle gs h.1)

-- no change of a list of revoked grants shows
suspend-IsRevoked : (gs : List Grant) → All IsRevoked gs → All IsRevoked (map suspend gs)
unfolding suspend
suspend-IsRevoked [] h = tt
suspend-IsRevoked (g ∷ gs) h = (ground arith, suspend-IsRevoked gs h.1)

reactivate-IsRevoked : (gs : List Grant) → All IsRevoked gs → All IsRevoked (map reactivate gs)
unfolding reactivate
reactivate-IsRevoked [] h = tt
reactivate-IsRevoked (g ∷ gs) h = (ground arith, reactivate-IsRevoked gs h.1)

-- an application that is not installed holds no grant that gives access
abbrev pub IsShut : Application → Type 0
IsShut a = a.state ≢ installed → All IsIdle a.grants

-- nobody reactivates a single grant
abbrev pub IsIndirect : Action → Type 0
IsIndirect c = (n : ℕ) → c ≢ changes n reactivates

change-IsIdle : (c : Change) (g : Grant) → c ≢ reactivates → IsIdle g → IsIdle (change c g)
unfolding suspend reactivate revoke expire
change-IsIdle reactivates g n h = absurd (n refl)
change-IsIdle suspends g n h = ground arith
change-IsIdle revokes g n h = ground arith
change-IsIdle expires g n h = ground arith

change_at-IsIdle :
    (n : ℕ) (c : Change) (gs : List Grant)
    → c ≢ reactivates
    → All IsIdle gs
    → All IsIdle (change_at n c gs)
change_at-IsIdle n c [] h k = tt
change_at-IsIdle zero c (g ∷ gs) h k = (change-IsIdle c g h k.0, k.1)
change_at-IsIdle (suc n) c (g ∷ gs) h k = (k.0, change_at-IsIdle n c gs h k.1)

act-IsShut : (c : Action) (a : Application) → IsIndirect c → IsShut a → IsShut (act c a)
unfolding disable re_enable uninstall delete_state
act-IsShut (changes n c) a never k h =
    change_at-IsIdle n c a.grants (λ q. never n (ap (changes n) q)) (k h)
act-IsShut disables a never k h = suspend-IsIdle a.grants
act-IsShut uninstalls a never k h = suspend-IsIdle a.grants
act-IsShut deletes_state a never k h = IsRevoked-IsIdle _ (revoke-IsRevoked a.grants)
act-IsShut (re_enables b) a never k h = absurd (h refl)

act_all-IsShut :
    (cs : List Action) (a : Application) → All IsIndirect cs → IsShut a → IsShut (act_all cs a)
act_all-IsShut [] a never h = h
act_all-IsShut (c ∷ cs) a never h = act_all-IsShut cs (act c a) never.1 (act-IsShut c a never.0 h)

-- An application that was installed once and is not installed any more holds no grant that gives
-- access, after every sequence of its lifecycle operations and of changes of single grants from outside,
-- as long as nobody outside reactivates one.
pub act_all-IsIdle :
    (cs : List Action) (a : Application)
    → All IsIndirect cs
    → a.state ≡ installed
    → (act_all cs a).state ≢ installed
    → All IsIdle (act_all cs a).grants
act_all-IsIdle cs a never first now = act_all-IsShut cs a never (λ h. absurd (h first)) now

change_at-IsRevoked :
    (n : ℕ) (c : Change) (gs : List Grant) → All IsRevoked gs → All IsRevoked (change_at n c gs)
change_at-IsRevoked n c [] h = tt
change_at-IsRevoked zero c (g ∷ gs) h = (change-IsRevoked c g h.0, h.1)
change_at-IsRevoked (suc n) c (g ∷ gs) h = (h.0, change_at-IsRevoked n c gs h.1)

act-IsRevoked :
    (c : Action) (a : Application) → All IsRevoked a.grants → All IsRevoked (act c a).grants
unfolding disable re_enable uninstall delete_state
act-IsRevoked disables a h = suspend-IsRevoked a.grants h
act-IsRevoked uninstalls a h = suspend-IsRevoked a.grants h
act-IsRevoked deletes_state a h = revoke-IsRevoked a.grants
act-IsRevoked (re_enables true) a h = reactivate-IsRevoked a.grants h
act-IsRevoked (re_enables false) a h = h
act-IsRevoked (changes n c) a h = change_at-IsRevoked n c a.grants h

act_all-IsRevoked :
    (cs : List Action) (a : Application)
    → All IsRevoked a.grants
    → All IsRevoked (act_all cs a).grants
act_all-IsRevoked [] a h = h
act_all-IsRevoked (c ∷ cs) a h = act_all-IsRevoked cs (act c a) (act-IsRevoked c a h)

-- Once an application's state is deleted, all its grants are revoked for good: no later disabling,
-- re-enabling, with or without the reactivation of grants, or uninstalling, and no change of a single
-- grant from outside gives access again.
pub deleted_for_good :
    (before after : List Action) (a : Application)
    → All IsRevoked (act_all after (delete_state (act_all before a))).grants
unfolding delete_state
deleted_for_good before after a =
    act_all-IsRevoked after (delete_state (act_all before a))
      (revoke-IsRevoked (act_all before a).grants)
