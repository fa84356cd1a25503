-- ===== src/Hitl/Granting.antt =====
-- The standing and the daily approvals keep the store sound.
use base_line_prox.Base.{
  ℕ, ◌≤◌, ◌≡◌, refl, String, false, Option, some, arith, Option-cases, Bool-cases, inl, inr,
  string_eq,
}
use base_line_prox.Base.Dict.{
  Entries-insert, Entries-erase, Entries-find_entry, find_entry, has_key,
}
use base_line_prox.Hitl.Types.{
  day_key, is_confirmed, never_pre_approved, max_grant_uses, Env, Grant, Store, Draw, Arg,
}
use base_line_prox.Hitl.Operations.{prune}
use base_line_prox.Hitl.Approvals.{
  grant_within, grant_limits, new_grant, in_limits, spend_grant, grant_approval,
  authorization_from_grant, authorization_from_daily, revoke, revoke_daily, grant_serves,
  daily_serves,
}
use base_line_prox.Hitl.Sound.{IsAllowed, in_limits-le, IsSound, prune-IsSound}

module _ {P D : Type 0} (env : Env P D) where
  pub grant_within-IsSound :
      (now : ℕ) (draw : Draw) (who action serial : String) (minutes uses : ℕ)
      (typed secret : String) (s : Store P D)
      → never_pre_approved action ≡ false
      → uses ≤ max_grant_uses
      → IsSound env s
      → IsSound env (grant_within env now draw who action serial minutes uses typed secret s).0
  unfolding grant_within
  grant_within-IsSound now draw who action serial minutes uses typed secret s never fits h =
      ground (
        arith,
        Entries-insert (λ id g. IsAllowed g) draw.key (new_grant now who action serial minutes uses)
            s.grants (never, fits) h.allowed,
      )

  pub grant_limits-IsSound :
      (now : ℕ) (draw : Draw) (who action serial : String) (minutes uses : Option ℕ)
      (typed secret : String) (s : Store P D)
      → never_pre_approved action ≡ false
      → ((n : ℕ) → uses ≡ some n → n ≤ max_grant_uses)
      → IsSound env s
      → IsSound env (grant_limits env now draw who action serial minutes uses typed secret s).0
  unfolding grant_limits
  grant_limits-IsSound now draw who action serial (some minutes) (some uses) typed secret s never
        fits h =
      grant_within-IsSound now draw who action serial minutes uses typed secret s never
        (fits uses refl) h
  grant_limits-IsSound now draw who action serial _ _ typed secret s never fits h = h

  pub grant_approval-IsSound :
      (now : ℕ) (draw : Draw) (who action serial : String) (minutes max_uses : Arg)
      (typed secret : String) (s : Store P D)
      → IsSound env s
      → IsSound env
          (grant_approval env now draw who action serial minutes max_uses typed secret s).0
  unfolding grant_approval
  grant_approval-IsSound now draw who action serial minutes max_uses typed secret s h =
      let k = prune-IsSound env now s h in
      let few = λ (n : ℕ) (q : in_limits max_uses max_grant_uses ≡ some n).
        in_limits-le max_uses max_grant_uses {n = n} q in
      elim (Bool-cases (never_pre_approved action)) [
        | inl e ↦ rw e k
        | inr e ↦ rw e (elim (Bool-cases (is_confirmed action)) [
          | inl c ↦ rw c (
              grant_limits-IsSound now draw who action serial _ _ typed secret (prune env now s) e
                few k)
          | inr c ↦ rw c k
        ])
      ]

  pub spend_grant-IsSound :
      (now : ℕ) (draw : Draw) (who action : String) (params : P) (serial id : String) (g : Grant)
      (s : Store P D)
      → IsAllowed g
      → IsSound env s
      → IsSound env (spend_grant env now draw who action params serial id g s).0
  unfolding spend_grant
  spend_grant-IsSound now draw who action params serial id g s ok_grant h = record {
    few = h.few;
    asked = h.asked;
    allowed = Entries-insert _ id _ s.grants (ok_grant.0, omega (arith, ok_grant.1)) h.allowed;
    issued =
        Entries-insert _ draw.nonce _ s.live (record { nonce = refl; store = refl; mac = refl })
          h.issued;
    days = h.days;
  }

  pub authorization_from_grant-IsSound :
      (now : ℕ) (draw : Draw) (who action : String) (params : P) (serial : String) (s : Store P D)
      → IsSound env s
      → IsSound env (authorization_from_grant env now draw who action params serial s).0
  unfolding authorization_from_grant
  authorization_from_grant-IsSound now draw who action params serial s h =
      let t = prune env now s in
      let k = prune-IsSound env now s h in
      elim (Option-cases (find_entry (grant_serves who action serial) t.grants)) [
        | inl e ↦ rw (e, authorization_from_grant) k
        | inr ((id, g), e) ↦
            rw (e, authorization_from_grant)
              (spend_grant-IsSound now draw who action params serial id g t
                (Entries-find_entry (λ id g. IsAllowed g) _ t.grants id g k.allowed e).0 k)
      ]

  pub authorization_from_daily-IsSound :
      (now : ℕ) (draw : Draw) (account action : String) (params : P) (serial : String)
      (s : Store P D)
      → IsSound env s
      → IsSound env (authorization_from_daily env now draw account action params serial s).0
  unfolding authorization_from_daily
  authorization_from_daily-IsSound now draw account action params serial s h =
      let t = prune env now s in
      let k = prune-IsSound env now s h in
      elim (Option-cases
        (find_entry (daily_serves account action serial (day_key env now)) t.daily)) [
          | inl e ↦ rw (e, authorization_from_daily) k
          | inr ((id, d), e) ↦
              rw (e, authorization_from_daily)
                (record {
                  few = k.few;
                  asked = k.asked;
                  allowed = k.allowed;
                  issued =
                      Entries-insert _ draw.nonce _ t.live
                        (record { nonce = refl; store = refl; mac = refl }) k.issued;
                  days = k.days;
                })
        ]

  pub revoke-IsSound : (id : String) (s : Store P D) → IsSound env s → IsSound env (revoke id s).0
  unfolding revoke
  revoke-IsSound id s h = ground (arith, Entries-erase (λ id g. IsAllowed g) id s.grants h.allowed)

  pub revoke_daily-IsSound :
      (id : String) (s : Store P D) → IsSound env s → IsSound env (revoke_daily id s).0
  unfolding revoke_daily
  revoke_daily-IsSound id s h = elim (Bool-cases (has_key id s.daily)) [
    | inl e ↦ rw e (record {
      few = h.few;
      asked = h.asked;
      allowed = h.allowed;
      issued = h.issued;
      days = Entries-erase _ id s.daily h.days;
    })
    | inr e ↦ rw e h
  ]
