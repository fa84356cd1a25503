-- ===== src/Hitl/Invariant.antt =====
-- What holds of a `ConfirmationStore` between two calls.
use base_line_prox.Base.{ℕ, String, Option, none, some, List, [], ◌∷◌, arith, Eq, string_eq}
use base_line_prox.Base.Dict.{Entries-erase}
use base_line_prox.Hitl.Types.{Env, Authorization, Store, Draw}
use base_line_prox.Hitl.Operations.{pending_request}
use base_line_prox.Hitl.Approvals.{
  use_live, use_authorization, require, list_daily, list_all_daily, list_grants,
}
use base_line_prox.Hitl.Calls.{
  Call, challenges, confirms, requires, grants, from_grant, from_daily, revokes, revokes_daily,
  Timed, perform, run, new_store,
}
use base_line_prox.Hitl.Sound.{IsIssued, IsSound, prune-IsSound, challenge-IsSound}
use base_line_prox.Hitl.Confirming.{confirm-IsSound}
use base_line_prox.Hitl.Granting.{
  grant_approval-IsSound, authorization_from_grant-IsSound, authorization_from_daily-IsSound,
  revoke-IsSound, revoke_daily-IsSound,
}

module _ {P D : Type 0} ⦃e : Eq D⦄ (env : Env P D) where
  require-IsSound :
      (now : ℕ) (auth : Option (Authorization D)) (action : String) (params : P) (serial : String)
      (s : Store P D)
      → IsSound env s
      → IsSound env (require env now auth action params serial s).0
  unfolding require use_authorization use_live
  require-IsSound now none action params serial s h = ground arith
  require-IsSound now (some auth) action params serial s h =
      ground (arith, Entries-erase (IsIssued env s.ident) auth.nonce s.live h.issued)

  perform-IsSound :
      (now : ℕ) (draw : Draw) (c : Call P D) (s : Store P D)
      → IsSound env s
      → IsSound env (perform env now draw c s)
  unfolding perform pending_request list_daily list_all_daily list_grants
  perform-IsSound now draw (challenges who action params serial) s h =
      challenge-IsSound env now draw who action params serial s h
  perform-IsSound now draw (confirms who id typed secret daily_for) s h =
      confirm-IsSound env now draw who id typed secret daily_for s h
  perform-IsSound now draw (requires auth action params serial) s h =
      require-IsSound now auth action params serial s h
  perform-IsSound now draw (grants who action serial minutes max_uses typed secret) s h =
      grant_approval-IsSound env now draw who action serial minutes max_uses typed secret s h
  perform-IsSound now draw (from_grant who action params serial) s h =
      authorization_from_grant-IsSound env now draw who action params serial s h
  perform-IsSound now draw (from_daily account action params serial) s h =
      authorization_from_daily-IsSound env now draw account action params serial s h
  perform-IsSound now draw (revokes id) s h = revoke-IsSound env id s h
  perform-IsSound now draw (revokes_daily id) s h = revoke_daily-IsSound env id s h
  perform-IsSound now draw _ s h = prune-IsSound env now s h

  -- Whatever the calls, a store that starts sound stays so: at most 20 challenges are pending, each
  -- for an action that takes a confirmation, with its own digest and phrase and under 5 failures;
  -- every approval and every authorization for the day is for an action that may be pre-approved, an
  -- approval with 5 uses at most; and every live authorization was issued by this store, under its
  -- nonce, with a genuine MAC.
  pub run-IsSound :
      (s : Store P D) (cs : List (Timed P D)) → IsSound env s → IsSound env (run env s cs)
  unfolding run
  run-IsSound s [] h = h
  run-IsSound s (c ∷ cs) h =
      run-IsSound (perform env c.now c.draw c.call s) cs (perform-IsSound c.now c.draw c.call s h)

  pub new_store-IsSound : (ident ttl min_wait : ℕ) → IsSound env (new_store ident ttl min_wait)
  unfolding new_store
  new_store-IsSound ident ttl min_wait = record {
    few = omega arith;
    asked = tt;
    allowed = tt;
    issued = tt;
    days = tt;
  }
