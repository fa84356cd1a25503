-- ===== src/Hitl/Calls.antt =====
-- The calls that a program can make on a `ConfirmationStore`, one after another: every method holds
-- the store's lock from start to end, so threads only choose the order.
use base_line_prox.Base.{ℕ, String, Option, List, [], ◌∷◌, Eq}
use base_line_prox.Hitl.Types.{Arg, Env, Authorization, Store, Draw}
use base_line_prox.Hitl.Operations.{challenge, pending_request, confirm}
use base_line_prox.Hitl.Approvals.{
  require, grant_approval, authorization_from_grant, authorization_from_daily, list_daily,
  list_all_daily, list_grants, revoke, revoke_daily,
}

pub data Call (P D : Type 0) : Type 0 where
  challenges : (who action : String) (params : P) (serial : String) → Call P D
  asks_pending : (id : String) → Call P D
  confirms : (who id typed secret : String) (daily_for : Option String) → Call P D
  requires :
      (auth : Option (Authorization D)) (action : String) (params : P) (serial : String) → Call P D
  grants : (who action serial : String) (minutes max_uses : Arg) (typed secret : String) → Call P D
  from_grant : (who action : String) (params : P) (serial : String) → Call P D
  from_daily : (account action : String) (params : P) (serial : String) → Call P D
  lists_daily : (account : String) → Call P D
  lists_all_daily : Call P D
  lists_grants : (who : String) → Call P D
  revokes revokes_daily : (id : String) → Call P D

-- a call with the time at which it is made and what it draws
pub record Timed (P D : Type 0) : Type 0 where
  pub now : ℕ
  pub draw : Draw
  pub call : Call P D

module _ {P D : Type 0} ⦃e : Eq D⦄ (env : Env P D) where
  unfoldable pub perform : ℕ → Draw → Call P D → Store P D → Store P D
  perform now draw (challenges who action params serial) s =
      (challenge env now draw who action params serial s).0
  perform now draw (asks_pending id) s = (pending_request env now id s).0
  perform now draw (confirms who id typed secret daily_for) s =
      (confirm env now draw who id typed secret daily_for s).0
  perform now draw (requires auth action params serial) s =
      (require env now auth action params serial s).0
  perform now draw (grants who action serial minutes max_uses typed secret) s =
      (grant_approval env now draw who action serial minutes max_uses typed secret s).0
  perform now draw (from_grant who action params serial) s =
      (authorization_from_grant env now draw who action params serial s).0
  perform now draw (from_daily account action params serial) s =
      (authorization_from_daily env now draw account action params serial s).0
  perform now draw (lists_daily account) s = (list_daily env now account s).0
  perform now draw lists_all_daily s = (list_all_daily env now s).0
  perform now draw (lists_grants who) s = (list_grants env now who s).0
  perform now draw (revokes id) s = (revoke id s).0
  perform now draw (revokes_daily id) s = (revoke_daily id s).0

  unfoldable pub run : Store P D → List (Timed P D) → Store P D
  run s [] = s
  run s (c ∷ cs) = run (perform c.now c.draw c.call s) cs

-- `ConfirmationStore.__init__`
unfoldable pub new_store : {P D : Type 0} → ℕ → ℕ → ℕ → Store P D
new_store ident ttl min_wait = record {
  ident = ident;
  ttl = ttl;
  min_wait = min_wait;
  pending = [];
  grants = [];
  live = [];
  daily = [];
  audit = [];
}
