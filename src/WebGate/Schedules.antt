-- ===== src/WebGate/Schedules.antt =====
-- What a signed schedule proves.
use base_line_prox.Base.{
  ok, err, ℕ, ◌+◌, ◌<◌, ◌≡◌, refl, ap, sym, ◌∙◌, String, true, false, Option, none, some, arith, Eq,
  ◌⊎◌, inl, inr, Option-cases, string_eq, option_eq, if◌then◌else◌, ltb,
}
use mathlib.Core.Option.{some-injective}
use base_line_prox.Hitl.Types.{is_confirmed}
use base_line_prox.WebGate.Gate.{
  origin_ttl, Params, Env, WebOrigin, Message, Stored, expired, role_permits, Sessions, Kind, Hours,
  micro, find_session, require_login, sign_origin, sign_schedule, is_signed, origin_for_schedule,
  check, require,
}

module _ {D : Type 0} (env : Env D) where
  -- what `sign_schedule` returns
  abbrev pub signed : String → Params → ℕ → ℕ → Stored D
  signed op params every now = record {
    op = some op;
    params = some params;
    every = some every;
    created = some now;
    sig = some (env.hmac (Message.schedule op (env.sha256 op params) every now));
  }

  pub signs_only :
      (sessions : Sessions) (token : Option String) (op : String) (params : Params) (hours : Hours)
      (now : ℕ) (s : Stored D)
      → sign_schedule env sessions token op params hours now ≡ ok s
      → (role : String) × (every : ℕ) × (find_session sessions token now ≡ some role)
        × (role_permits role op params ≡ true)
        × (is_confirmed op ≡ false)
        × (hours ≡ micro every)
        × (0 < every)
        × (s ≡ signed op params every now)
  unfolding sign_schedule require_login
  signs_only sessions token op params (micro n) now s h =
      elim (Option-cases (find_session sessions token now)) [
        | inl q ↦ absurd (ground arith)
        | inr (role, q) ↦ (role, n, q, ground arith, ground arith, refl, ground arith, ground arith)
      ]
  signs_only sessions token op params _ now s h = absurd (ground arith)

module _ {D : Type 0} ⦃e : Eq D⦄ (env : Env D) where
  signed_runs :
      (op : String) (params : Params) (every now later at : ℕ)
      → (o : WebOrigin D) × (origin_for_schedule env (signed env op params every now) later ≡ ok o)
        × (require env true at (some o) op params
            ≡ (if ltb at (later + origin_ttl) then ok tt else err expired))
  unfolding origin_for_schedule is_signed sign_origin require check
  signed_runs op params every now later at =
      (sign_origin env Kind.schedule op params later, ground arith, ground arith)

  -- A schedule is signed only for a login that may ask for the operation, never for an action that a
  -- person confirms each time, and only for a positive number of hours. From then on it yields, at any
  -- time, a proof that passes for its operation and parameters until it expires.
  pub signed_schedule_runs :
      (sessions : Sessions) (token : Option String) (op : String) (params : Params) (hours : Hours)
      (now later at : ℕ) (s : Stored D)
      → sign_schedule env sessions token op params hours now ≡ ok s
      → (is_confirmed op ≡ false)
        × ((role : String) × (find_session sessions token now ≡ some role)
            × (role_permits role op params ≡ true))
        × ((every : ℕ) × (hours ≡ micro every) × (0 < every) × (s.every ≡ some every))
        × ((o : WebOrigin D) × (origin_for_schedule env s later ≡ ok o)
            × (require env true at (some o) op params
                ≡ (if ltb at (later + origin_ttl) then ok tt else err expired)))
  signed_schedule_runs sessions token op params hours now later at s h =
      let (role, every, q, permits, never, given, pos, same) =
        signs_only env sessions token op params hours now s h in
      (
        never,
        (role, q, permits),
        (every, given, pos, ap (λ (r : Stored D). r.every) same),
        rw same (signed_runs op params every now later at),
      )

  abbrev creation : Option ℕ → ℕ
  creation none = 0
  creation (some t) = t

  signature_of :
      (r : Stored D) (later : ℕ) (o : WebOrigin D)
      → origin_for_schedule env r later ≡ ok o
      → (op : String) × (params : Params) × (every : ℕ) × (r.op ≡ some op)
        × (r.params ≡ some params)
        × (r.every ≡ some every)
        × (r.sig
            ≡ some
                (env.hmac (Message.schedule op (env.sha256 op params) every (creation r.created))))
  unfolding origin_for_schedule is_signed
  signature_of r later o h = fields r.op r.params r.every r.created r.sig h
    where
      fields :
          (op : Option String) (params : Option Params) (every created : Option ℕ) (sig : Option D)
          → origin_for_schedule env
              (record { op = op; params = params; every = every; created = created; sig = sig })
              later
            ≡ ok o
          → (a : String) × (p : Params) × (n : ℕ) × (op ≡ some a)
            × (params ≡ some p)
            × (every ≡ some n)
            × (sig ≡ some (env.hmac (Message.schedule a (env.sha256 a p) n (creation created))))
      fields (some a) (some p) (some n) none sig k = (a, p, n, refl, refl, refl, ground arith)
      fields (some a) (some p) (some n) (some t) sig k = (a, p, n, refl, refl, refl, ground arith)
      fields (some a) (some p) none created sig k = absurd (ground arith)
      fields (some a) none every created sig k = absurd (ground arith)
      fields none params every created sig k = absurd (ground arith)

  -- A schedule that carries the signature of a signed one and was edited yields no proof, if the
  -- hashes differ for different texts: operation, parameters, interval and creation time are those that
  -- were signed.
  pub edited_schedule_refused :
      (sessions : Sessions) (token : Option String) (op : String) (params : Params) (hours : Hours)
      (now later : ℕ) (s r : Stored D) (o : WebOrigin D)
      → ((x y : Message D) → env.hmac x ≡ env.hmac y → x ≡ y)
      → ((a b : String) (p q : Params) → env.sha256 a p ≡ env.sha256 b q → (a ≡ b) × (p ≡ q))
      → sign_schedule env sessions token op params hours now ≡ ok s
      → r.sig ≡ s.sig
      → origin_for_schedule env r later ≡ ok o
      → (r.op ≡ s.op)
        × (r.params ≡ s.params)
        × (r.every ≡ s.every)
        × ((r.created ≡ s.created) ⊎ ((r.created ≡ none) × (now ≡ 0)))
  edited_schedule_refused sessions token op params hours now later s r o hmac_injective
        sha_injective h same ran =
      let (role, every, q, permits, never, given, pos, is) =
        signs_only env sessions token op params hours now s h in
      let (a, p, n, has_op, has_params, has_every, has_sig) = signature_of r later o ran in
      let message =
        hmac_injective (Message.schedule a (env.sha256 a p) n (creation r.created))
          (Message.schedule op (env.sha256 op params) every now)
          (some-injective _ _ (sym has_sig ∙ (same ∙ ap (λ (x : Stored D). x.sig) is))) in
      let digests : env.sha256 a p ≡ env.sha256 op params = ground arith in
      let agree = sha_injective a op p params digests in
      (
        ground (arith, agree),
        ground (arith, agree),
        ground arith,
        ground (arith, Option-cases r.created),
      )
