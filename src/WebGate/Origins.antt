-- ===== src/WebGate/Origins.antt =====
-- What an origin proves: who may get one, and what it is good for.
use base_line_prox.Base.{
  ok, err, ℕ, ◌+◌, ◌<◌, ◌≡◌, ◌↔◌, String, Bool, true, Option, some, arith, Eq, inl, inr,
  Option-cases, string_eq, nat_eq, if◌then◌else◌, ltb,
}
use base_line_prox.WebGate.Gate.{
  origin_ttl, Params, Env, WebOrigin, expired, role_permits, Sessions, find_session, require_login,
  sign_origin, origin_for_session, check, require, origin,
}

module _ {D : Type 0} ⦃e : Eq D⦄ (env : Env D) where
  -- `require` lets an operation run exactly when a web service has configured its gate, the proof is
  -- signed by the gate's key over its own fields, has not expired, and names this operation with the
  -- digest of these parameters.
  pub require_iff :
      (configured : Bool) (now : ℕ) (o : WebOrigin D) (op : String) (params : Params)
      → (require env configured now (some o) op params ≡ ok tt) ↔ (
          (configured ≡ true)
          × (o.mac ≡ env.hmac (origin o.kind o.op o.digest o.expires))
          × (now < o.expires)
          × (o.op ≡ op)
          × (o.digest ≡ env.sha256 op params))
  unfolding require check
  require_iff configured now o op params = ground arith

  -- A login gets a proof exactly when its session is live and its role permits the operation; the
  -- proof then passes for this operation and these parameters until it expires, and is refused from
  -- then on.
  pub session_origin_lives :
      (sessions : Sessions) (token : Option String) (op : String) (params : Params) (now later : ℕ)
      (o : WebOrigin D)
      → origin_for_session env sessions token op params now ≡ ok o
      → ((role : String) × (find_session sessions token now ≡ some role)
          × (role_permits role op params ≡ true))
        × (require env true later (some o) op params
            ≡ (if ltb later (now + origin_ttl) then ok tt else err expired))
  unfolding origin_for_session require_login require check sign_origin
  session_origin_lives sessions token op params now later o h =
      elim (Option-cases (find_session sessions token now)) [
        | inl q ↦ absurd (ground arith)
        | inr (role, q) ↦ ((role, q, ground arith), ground arith)
      ]
