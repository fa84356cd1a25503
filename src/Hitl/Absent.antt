-- ===== src/Hitl/Absent.antt =====
-- A nonce that is not live stays so, as long as no call draws it again.
use base_line_prox.Base.{
  ℕ, ◌≡◌, ◌≢◌, String, Option, none, some, List, [], ◌∷◌, arith, Eq, Option-cases, inl, inr, ltb,
  string_eq, nat_eq, codes_eq, All,
}
use base_line_prox.Base.Dict.{lookup, lookup-insert, lookup-erase, find_entry, keep_values_absent}
use base_line_prox.Hitl.Types.{
  day_key, max_grant_minutes, max_grant_uses, Env, Challenge, Authorization, Store, Draw, Kind,
}
use base_line_prox.Hitl.Operations.{
  prune, mint, authorize_day, accept, confirm_found, confirm, challenge, pending_request,
}
use base_line_prox.Hitl.Approvals.{
  use_live, use_authorization, require, authorization_from_grant, authorization_from_daily,
  spend_grant, grant_serves, daily_serves, list_daily, list_all_daily, list_grants, grant_approval,
  grant_limits, grant_within, in_limits, revoke, revoke_daily,
}
use base_line_prox.Hitl.Calls.{
  Call, challenges, confirms, requires, grants, from_grant, from_daily, revokes, revokes_daily,
  Timed, perform, run,
}
use base_line_prox.Hitl.Confirmed.{live-count_failure}

module _ {P D : Type 0} (env : Env P D) (nonce : String) where
  pub prune_absent :
      (now : ℕ) (s : Store P D)
      → lookup nonce s.live ≡ none
      → lookup nonce (prune env now s).live ≡ none
  unfolding prune
  prune_absent now s h = keep_values_absent (λ a. ltb now a.expires) nonce s.live h

  pub mint_absent :
      (draw : Draw) (digest : D) (kind : Kind) (expires : ℕ) (s : Store P D)
      → draw.nonce ≢ nonce
      → lookup nonce s.live ≡ none
      → lookup nonce (mint env draw digest kind expires s).0.live ≡ none
  unfolding mint
  mint_absent draw digest kind expires s fresh h = rw lookup-insert (ground arith)

  pub live-authorize_day :
      (now : ℕ) (draw : Draw) (account : Option String) (r : Challenge P D) (s : Store P D)
      → (authorize_day env now draw account r s).live ≡ s.live
  unfolding authorize_day
  live-authorize_day now draw account r s = ground arith

  pub accept_absent :
      (now : ℕ) (draw : Draw) (who id : String) (account : Option String) (r : Challenge P D)
      (s : Store P D)
      → draw.nonce ≢ nonce
      → lookup nonce s.live ≡ none
      → lookup nonce (accept env now draw who id account r s).0.live ≡ none
  unfolding accept
  accept_absent now draw who id account r s fresh h =
      mint_absent draw _ _ _ (authorize_day env now draw account r _) fresh
        (rw live-authorize_day h)

  pub confirm_absent :
      (now : ℕ) (draw : Draw) (who id typed secret : String) (account : Option String)
      (s : Store P D)
      → draw.nonce ≢ nonce
      → lookup nonce s.live ≡ none
      → lookup nonce (confirm env now draw who id typed secret account s).0.live ≡ none
  unfolding confirm confirm_found
  confirm_absent now draw who id typed secret account s fresh h =
      let t = prune env now s in
      let k = prune_absent now s h in
      elim (Option-cases (lookup id t.pending)) [
        | inl q ↦ rw (q, confirm) k
        | inr (r, q) ↦
            rw (q, confirm)
              (ground (
                arith,
                k,
                accept_absent now draw who id account r t fresh k,
                live-count_failure id r t,
              ))
      ]

  pub from_grant_absent :
      (now : ℕ) (draw : Draw) (who action : String) (params : P) (serial : String) (s : Store P D)
      → draw.nonce ≢ nonce
      → lookup nonce s.live ≡ none
      → lookup nonce (authorization_from_grant env now draw who action params serial s).0.live
        ≡ none
  unfolding authorization_from_grant spend_grant
  from_grant_absent now draw who action params serial s fresh h =
      let t = prune env now s in
      let k = prune_absent now s h in
      elim (Option-cases (find_entry (grant_serves who action serial) t.grants)) [
        | inl q ↦ rw (q, authorization_from_grant) k
        | inr ((id, g), q) ↦ rw (q, authorization_from_grant) (rw lookup-insert (ground (arith, k)))
      ]

  pub from_daily_absent :
      (now : ℕ) (draw : Draw) (account action : String) (params : P) (serial : String)
      (s : Store P D)
      → draw.nonce ≢ nonce
      → lookup nonce s.live ≡ none
      → lookup nonce (authorization_from_daily env now draw account action params serial s).0.live
        ≡ none
  unfolding authorization_from_daily
  from_daily_absent now draw account action params serial s fresh h =
      let t = prune env now s in
      let k = prune_absent now s h in
      elim (Option-cases
        (find_entry (daily_serves account action serial (day_key env now)) t.daily)) [
          | inl q ↦ rw (q, authorization_from_daily) k
          | inr ((id, d), q) ↦
              rw (q, authorization_from_daily) (rw lookup-insert (ground (arith, k)))
        ]

  -- `grant` files no authorization
  pub live-grant_approval :
      (now : ℕ) (draw : Draw) (who action serial : String) (minutes uses : Option ℕ)
      (typed secret : String) (s : Store P D)
      → (grant_limits env now draw who action serial minutes uses typed secret s).0.live ≡ s.live
  unfolding grant_limits grant_within
  live-grant_approval now draw who action serial minutes uses typed secret s = ground arith

module _ {P D : Type 0} ⦃e : Eq D⦄ (env : Env P D) (nonce : String) where
  pub require_absent :
      (now : ℕ) (given : Option (Authorization D)) (action : String) (params : P) (serial : String)
      (s : Store P D)
      → lookup nonce s.live ≡ none
      → lookup nonce (require env now given action params serial s).0.live ≡ none
  unfolding require use_authorization use_live
  require_absent now none action params serial s h = ground arith
  require_absent now (some auth) action params serial s h =
      ground (arith, lookup-erase nonce auth.nonce s.live)

  -- a nonce that is not live stays so, unless it is drawn again
  pub perform_absent :
      (now : ℕ) (draw : Draw) (c : Call P D) (s : Store P D)
      → draw.nonce ≢ nonce
      → lookup nonce s.live ≡ none
      → lookup nonce (perform env now draw c s).live ≡ none
  unfolding perform challenge grant_approval revoke revoke_daily pending_request list_daily
      list_all_daily list_grants
  perform_absent now draw (challenges who action params serial) s fresh h =
      ground (arith, prune_absent env nonce now s h)
  perform_absent now draw (confirms who id typed secret daily_for) s fresh h =
      confirm_absent env nonce now draw who id typed secret daily_for s fresh h
  perform_absent now draw (requires auth action params serial) s fresh h =
      require_absent now auth action params serial s h
  perform_absent now draw (grants who action serial minutes max_uses typed secret) s fresh h =
      ground (
        arith,
        prune_absent env nonce now s h,
        live-grant_approval env nonce now draw who action serial
            (in_limits minutes max_grant_minutes) (in_limits max_uses max_grant_uses) typed secret
            (prune env now s),
      )
  perform_absent now draw (from_grant who action params serial) s fresh h =
      from_grant_absent env nonce now draw who action params serial s fresh h
  perform_absent now draw (from_daily account action params serial) s fresh h =
      from_daily_absent env nonce now draw account action params serial s fresh h
  perform_absent now draw (revokes id) s fresh h = ground arith
  perform_absent now draw (revokes_daily id) s fresh h = ground arith
  perform_absent now draw _ s fresh h = prune_absent env nonce now s h

  -- no call draws the nonce again
  abbrev pub NeverDrawn : List (Timed P D) → Type 0
  NeverDrawn = All (λ c. c.draw.nonce ≢ nonce)

  pub run_absent :
      (s : Store P D) (cs : List (Timed P D))
      → NeverDrawn cs
      → lookup nonce s.live ≡ none
      → lookup nonce (run env s cs).live ≡ none
  unfolding run
  run_absent s [] fresh h = h
  run_absent s (c ∷ cs) fresh h =
      run_absent (perform env c.now c.draw c.call s) cs fresh.1
        (perform_absent c.now c.draw c.call s fresh.0 h)
