-- ===== src/Hitl/Spent.antt =====
-- The use of an authorization: once, in time, and for the request that was confirmed.
use base_line_prox.Base.{
  ok, err, ℕ, ◌<◌, ◌≡◌, refl, String, true, Option, none, some, arith, Eq, Option-cases, inl, inr,
  ltb, string_eq, nat_eq, codes_eq, if◌then◌else◌,
}
use base_line_prox.Base.Dict.{lookup, erase, lookup-erase}
use base_line_prox.Hitl.Types.{
  mac_of, request_digest, is_confirmed, Env, Authorization, Store, expired,
}
use base_line_prox.Hitl.Approvals.{use_live, use_authorization, require}

module _ {P D : Type 0} ⦃e : Eq D⦄ (env : Env P D) where
  -- `require` lets an action that needs a confirmation pass only with an authorization of this store
  -- that is live, by identity and not by its contents, not expired, with a genuine MAC, and for the
  -- digest of exactly this action, parameters and drive; and then it is live no longer.
  pub require_ok :
      (now : ℕ) (given : Option (Authorization D)) (action : String) (params : P) (serial : String)
      (s : Store P D)
      → is_confirmed action ≡ true
      → (require env now given action params serial s).1 ≡ ok tt
      → (auth live : Authorization D) × (given ≡ some auth)
        × (auth.store ≡ s.ident)
        × (lookup auth.nonce s.live ≡ some live)
        × (live.ident ≡ auth.ident)
        × (now < auth.expires)
        × (auth.mac ≡ mac_of env auth.nonce auth.digest auth.expires auth.kind)
        × (auth.digest ≡ request_digest env action params serial)
        × (lookup auth.nonce (require env now given action params serial s).0.live ≡ none)
  unfolding require use_authorization use_live
  require_ok now none action params serial s c h = cc
  require_ok now (some auth) action params serial s c h =
      elim (Option-cases (lookup auth.nonce s.live)) [
        | inl q ↦ absurd (ground arith)
        | inr (live, q) ↦
            let gone : lookup auth.nonce (erase auth.nonce s.live) ≡ none =
              rw lookup-erase (ground arith) in
            (
              auth,
              live,
              refl,
              ground arith,
              q,
              ground arith,
              ground arith,
              ground arith,
              ground arith,
              ground arith,
            )
      ]

  -- Conversely: a live authorization passes `require` for its own request until it expires, and from
  -- then on never.
  pub require_live :
      (now : ℕ) (auth : Authorization D) (action : String) (params : P) (serial : String)
      (s : Store P D)
      → is_confirmed action ≡ true
      → auth.store ≡ s.ident
      → lookup auth.nonce s.live ≡ some auth
      → auth.mac ≡ mac_of env auth.nonce auth.digest auth.expires auth.kind
      → auth.digest ≡ request_digest env action params serial
      → (require env now (some auth) action params serial s).1
        ≡ (if ltb now auth.expires then ok tt else err expired)
  unfolding require use_authorization use_live
  require_live now auth action params serial s c own live genuine same = ground arith
