-- ===== src/Persistence/Grants.antt =====
-- `Grant` of baseline/lib/testpersistence/grants.py and `Application` of lifecycle.py, which acts on
-- the grants that it holds.
use base_line_prox.Base.{ℕ, zero, suc, String, Bool, true, false, List, [], ◌∷◌, map, if◌then◌else◌}

pub data GrantState : Type 0 where
  active suspended revoked expired : GrantState

pub record Grant : Type 0 where
  pub grant_id : String
  pub person : String
  pub application : String
  pub collection : String
  pub access_mode : String
  pub duration : String
  pub authorized_by : String
  pub state : GrantState

abbrev pub is_effective : Grant → Bool
is_effective g = elim g.state [ active ↦ true | _ ↦ false ]

unfoldable pub suspend : Grant → Grant
suspend g = elim g.state [ active ↦ record g { state = suspended } | _ ↦ g ]

unfoldable pub reactivate : Grant → Grant
reactivate g = elim g.state [ suspended ↦ record g { state = active } | _ ↦ g ]

unfoldable pub revoke : Grant → Grant
revoke g = record g { state = revoked }

unfoldable pub expire : Grant → Grant
expire g = elim g.state [
  | active ↦ record g { state = expired }
  | suspended ↦ record g { state = expired }
  | _ ↦ g
]

-- what a caller may do to one grant
pub data Change : Type 0 where
  suspends reactivates revokes expires : Change

abbrev pub change : Change → Grant → Grant
change suspends g = suspend g
change reactivates g = reactivate g
change revokes g = revoke g
change expires g = expire g

abbrev pub change_all : List Change → Grant → Grant
change_all [] g = g
change_all (c ∷ cs) g = change_all cs (change c g)

pub data LifecycleState : Type 0 where
  installed disabled uninstalled_retained state_deleted : LifecycleState

pub record Application : Type 0 where
  pub application_id : String
  pub state : LifecycleState
  pub grants : List Grant

unfoldable pub disable : Application → Application
disable a = record a { state = disabled; grants = map suspend a.grants }

unfoldable pub re_enable : Bool → Application → Application
re_enable reactivate_grants a = record a {
  state = installed;
  grants = if reactivate_grants then map reactivate a.grants else a.grants;
}

unfoldable pub uninstall : Application → Application
uninstall a = record a { state = uninstalled_retained; grants = map suspend a.grants }

unfoldable pub delete_state : Application → Application
delete_state a = record a { state = state_deleted; grants = map revoke a.grants }

-- A grant that the application holds is an object that others hold too, and may change.
abbrev pub change_at : ℕ → Change → List Grant → List Grant
change_at n c [] = []
change_at zero c (g ∷ gs) = change c g ∷ gs
change_at (suc n) c (g ∷ gs) = g ∷ change_at n c gs

-- the lifecycle's operations, and a change of one of the grants from outside
pub data Action : Type 0 where
  disables uninstalls deletes_state : Action
  re_enables : (reactivate_grants : Bool) → Action
  changes : (position : ℕ) → Change → Action

abbrev pub act : Action → Application → Application
act disables a = disable a
act uninstalls a = uninstall a
act deletes_state a = delete_state a
act (re_enables b) a = re_enable b a
act (changes n c) a = record a { grants = change_at n c a.grants }

abbrev pub act_all : List Action → Application → Application
act_all [] a = a
act_all (c ∷ cs) a = act_all cs (act c a)
