-- ===== src/Hitl/Confirmed.antt =====
-- What a confirmation proves and what it may be used for.
use base_line_prox.Base.{
  ok, err, ℕ, ◌+◌, ◌≤◌, ◌<◌, ◌≡◌, ◌≢◌, refl, String, true, false, Option, none, some, arith,
  Option-cases, Bool-cases, inl, inr, leb, ltb, string_eq, nat_eq, codes_eq, if◌then◌else◌, ◌⊎◌,
}
use base_line_prox.Base.Dict.{lookup, erase, lookup-insert, lookup-erase, lookup-keep_values}
use base_line_prox.Hitl.Types.{
  never_pre_approved, normalize, max_failed_attempts, authorization_use_window, Env, Reason, phrase,
  credential, Challenge, Authorization, Store, Draw, Kind, confirmation_error,
}
use base_line_prox.Hitl.Operations.{
  count_failure, prune, mint, authorize_day, accept, confirm_found, confirm, truthy,
}

module _ {P D : Type 0} (env : Env P D) where
  -- What a successful `confirm` has checked, and what it leaves.
  pub record IsConfirmed (now : ℕ) (who id typed secret : String) (account : Option String)
      (r : Challenge P D) (s : Store P D) (auth : Authorization D) (min_wait : ℕ) : Type 0 where
    pub same_session : r.session ≡ who
    pub waited : r.created + min_wait ≤ now
    pub typed_phrase : normalize typed ≡ r.phrase
    pub knows_secret : env.verify_secret secret ≡ true
    pub secret_given : secret ≢ ""
    pub day_allowed : truthy account ≡ true → never_pre_approved r.action ≡ false
    pub digest : auth.digest ≡ r.digest
    pub expires : auth.expires ≡ now + authorization_use_window
    pub used_up : lookup id s.pending ≡ none
    pub live : lookup auth.nonce s.live ≡ some auth

  pending-authorize_day :
      (now : ℕ) (draw : Draw) (account : Option String) (r : Challenge P D) (s : Store P D)
      → (authorize_day env now draw account r s).pending ≡ s.pending
  unfolding authorize_day
  pending-authorize_day now draw account r s = ground arith

  accept_leaves :
      (now : ℕ) (draw : Draw) (who id : String) (account : Option String) (r : Challenge P D)
      (s : Store P D)
      → let t = accept env now draw who id account r s in
        (auth : Authorization D) × (t.1 ≡ ok auth)
        × (auth.digest ≡ r.digest)
        × (auth.expires ≡ now + authorization_use_window)
        × (lookup id t.0.pending ≡ none)
        × (lookup auth.nonce t.0.live ≡ some auth)
  unfolding accept
  accept_leaves now draw who id account r s =
      let day = authorize_day env now draw account r (record s { pending = erase id s.pending }) in
      (
        (mint env draw r.digest Kind.confirmation (now + authorization_use_window) day).1,
        refl,
        refl,
        refl,
        rw pending-authorize_day (rw lookup-erase (ground arith)),
        rw lookup-insert (ground arith),
      )

  confirm_found_ok :
      (now : ℕ) (draw : Draw) (who id typed secret : String) (account : Option String)
      (r : Challenge P D) (s : Store P D) (auth : Authorization D)
      → (confirm_found env now draw who id typed secret account r s).1 ≡ ok auth
      → IsConfirmed now who id typed secret account r
          (confirm_found env now draw who id typed secret account r s).0
          auth
          s.min_wait
  unfolding confirm_found
  confirm_found_ok now draw who id typed secret account r s auth h =
      ground (arith, accept_leaves now draw who id account r s)

  not_expired :
      (now : ℕ) (id : String) (s : Store P D) (r : Challenge P D)
      → lookup id (prune env now s).pending ≡ some r
      → now < r.expires
  unfolding prune
  not_expired now id s r h =
      let kept = lookup-keep_values (λ (c : Challenge P D). ltb now c.expires) id s.pending r h in
      ground arith

  -- A confirmation succeeds only on a challenge that is pending and not expired, in the session that
  -- asked, after the waiting time, with the challenge's phrase and a secret that the machine accepts,
  -- and with an authorization for the day only if the action may have one. It ends the challenge and
  -- leaves one live authorization, for the challenge's digest, that expires after the use window.
  pub confirm_ok :
      (now : ℕ) (draw : Draw) (who id typed secret : String) (account : Option String)
      (s : Store P D) (auth : Authorization D)
      → (confirm env now draw who id typed secret account s).1 ≡ ok auth
      → (r : Challenge P D) × (lookup id (prune env now s).pending ≡ some r)
        × (now < r.expires)
        × IsConfirmed now who id typed secret account r
            (confirm env now draw who id typed secret account s).0
            auth
            s.min_wait
  unfolding confirm prune
  confirm_ok now draw who id typed secret account s auth h =
      elim (Option-cases (lookup id (prune env now s).pending)) [
        | inl e ↦ absurd (cc (h, e))
        | inr (r, e) ↦ (
          r,
          e,
          not_expired now id s r e,
          rw (e, confirm)
              (confirm_found_ok now draw who id typed secret account r (prune env now s) auth
                (rw (e, confirm) at h)),
        )
      ]

abbrev pub after_failure : {P D : Type 0} → Challenge P D → Option (Challenge P D)
after_failure r =
    if leb max_failed_attempts (r.failures + 1)
    then none
    else some (record r { failures = r.failures + 1 })

module _ {P D : Type 0} where
  lookup-count_failure :
      (id : String) (r : Challenge P D) (s : Store P D)
      → lookup id (count_failure id r s).pending ≡ after_failure r
  unfolding count_failure
  lookup-count_failure id r s = elim (Bool-cases (leb max_failed_attempts (r.failures + 1))) [
    | inl e ↦ rw e (rw lookup-erase (ground arith))
    | inr e ↦ rw e (rw lookup-insert (ground arith))
  ]

  pub live-count_failure :
      (id : String) (r : Challenge P D) (s : Store P D) → (count_failure id r s).live ≡ s.live
  unfolding count_failure
  live-count_failure id r s = ground arith

module _ {P D : Type 0} (env : Env P D) where
  guess_found :
      (now : ℕ) (draw : Draw) (who id typed secret : String) (account : Option String)
      (s : Store P D) (r : Challenge P D) (why : Reason)
      → (confirm_found env now draw who id typed secret account r s).1
        ≡ err (confirmation_error why)
      → (why ≡ phrase) ⊎ (why ≡ credential)
      → let t = (confirm_found env now draw who id typed secret account r s).0 in
        (lookup id t.pending ≡ after_failure r) × (t.live ≡ s.live)
  unfolding confirm_found
  guess_found now draw who id typed secret account s r why h guessed = ground (
    arith,
    accept_leaves env now draw who id account r s,
    lookup-count_failure id r s,
    live-count_failure id r s,
  )

  -- A wrong phrase or a wrong credential uses up one of the challenge's attempts: the challenge stays
  -- pending with one more failure, and the fifth failure ends it. No authorization is issued.
  pub failure_counts :
      (now : ℕ) (draw : Draw) (who id typed secret : String) (account : Option String)
      (s : Store P D) (r : Challenge P D) (why : Reason)
      → lookup id (prune env now s).pending ≡ some r
      → (confirm env now draw who id typed secret account s).1 ≡ err (confirmation_error why)
      → (why ≡ phrase) ⊎ (why ≡ credential)
      → let t = (confirm env now draw who id typed secret account s).0 in
        (lookup id t.pending ≡ after_failure r) × (t.live ≡ (prune env now s).live)
  unfolding confirm
  failure_counts now draw who id typed secret account s r why found h guessed =
      rw (found, confirm)
        (guess_found now draw who id typed secret account (prune env now s) r why
          (rw (found, confirm) at h) guessed)
