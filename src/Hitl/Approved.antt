-- ===== src/Hitl/Approved.antt =====
-- From a confirmation to the action: which requests it lets through, and what is never approved in
-- advance.
use base_line_prox.Base.{
  ok, err, ℕ, ◌+◌, ◌<◌, ◌≡◌, String, true, false, Option, none, some, arith, Eq, Option-cases, inl,
  inr, ltb, string_eq, nat_eq, codes_eq, if◌then◌else◌, sym, ◌∙◌,
}
use base_line_prox.Base.Dict.{lookup, Entries-find_entry, find_entry, Entries-lookup}
use base_line_prox.Hitl.Types.{
  day_key, request_digest, is_confirmed, never_pre_approved, authorization_use_window, Env,
  Challenge, Authorization, Store, Draw, expired,
}
use base_line_prox.Hitl.Operations.{prune, confirm}
use base_line_prox.Hitl.Approvals.{
  require, authorization_from_grant, authorization_from_daily, grant_serves, daily_serves,
}
use base_line_prox.Hitl.Sound.{IsSound, IsAsked, IsAllowed, IsIssued, prune-IsSound}
use base_line_prox.Hitl.Confirming.{confirm-IsSound}
use base_line_prox.Hitl.Confirmed.{confirm_ok}
use base_line_prox.Hitl.Spent.{require_ok, require_live}

module _ {P D : Type 0} ⦃e : Eq D⦄ (env : Env P D) where
  -- In a sound store, an action that may never be pre-approved gets no authorization from a standing
  -- approval and none from an authorization for the day, whoever asks and whatever the drive.
  pub never_without_person :
      (now : ℕ) (draw : Draw) (who action : String) (params : P) (serial : String) (s : Store P D)
      → IsSound env s
      → never_pre_approved action ≡ true
      → ((authorization_from_grant env now draw who action params serial s).1 ≡ none)
        × ((authorization_from_daily env now draw who action params serial s).1 ≡ none)
  unfolding authorization_from_grant authorization_from_daily
  never_without_person now draw who action params serial s h never =
      let t = prune env now s in
      let k = prune-IsSound env now s h in
      (
        elim (Option-cases (find_entry (grant_serves who action serial) t.grants)) [
          | inl q ↦ rw (q, authorization_from_grant)
          | inr ((id, g), q) ↦
              let found = Entries-find_entry (λ i x. IsAllowed x) _ t.grants id g k.allowed q in
              absurd (ground (arith, found))
        ],
        elim (Option-cases
            (find_entry (daily_serves who action serial (day_key env now)) t.daily)) [
              | inl q ↦ rw (q, authorization_from_daily)
              | inr ((id, d), q) ↦
                  let found =
                    Entries-find_entry (λ i x. never_pre_approved x.action ≡ false) _ t.daily id d
                      k.days q in
                  absurd (ground (arith, found))
            ],
      )

  module _ (now : ℕ) (draw : Draw) (who id typed secret : String) (account : Option String)
      (s : Store P D) (auth : Authorization D) (sound : IsSound env s)
      (confirms : (confirm env now draw who id typed secret account s).1 ≡ ok auth) where
    after : Store P D
    after = (confirm env now draw who id typed secret account s).0

    -- the challenge asked for what its digest says, and the authorization is this store's
    asked : (r : Challenge P D) → lookup id (prune env now s).pending ≡ some r → IsAsked env r
    asked r found =
        Entries-lookup (λ i x. IsAsked env x) id (prune env now s).pending r
          (prune-IsSound env now s sound).asked found

    issued : lookup auth.nonce after.live ≡ some auth → IsIssued env after.ident auth.nonce auth
    unfolding after
    issued live =
        Entries-lookup _ auth.nonce after.live auth
          (confirm-IsSound env now draw who id typed secret account s sound).issued live

    -- A confirmation lets through the request that its challenge shows, until the use window has passed.
    pub confirmed_runs :
        (later : ℕ)
        → (r : Challenge P D) × (lookup id (prune env now s).pending ≡ some r)
          × ((require env later
                (some auth)
                r.action
                r.params
                r.serial
                (confirm env now draw who id typed secret account s).0).1
              ≡ (if ltb later (now + authorization_use_window) then ok tt else err expired))
    unfolding after
    confirmed_runs later =
        let (r, found, timely, done) =
          confirm_ok env now draw who id typed secret account s auth confirms in
        let own = issued done.live in
        let k = asked r found in
        (
          r,
          found,
          rw (← done.expires) (
              require_live env later auth r.action r.params r.serial after k.takes_confirmation
                own.store done.live own.mac (done.digest ∙ k.digest)),
        )

    -- With digests that differ for different requests, it lets no other request through.
    pub confirmed_only :
        (later : ℕ) (action : String) (params : P) (serial : String)
        → ((a b : String) (p q : P) (x y : String)
            → request_digest env a p x ≡ request_digest env b q y
            → (a ≡ b) × (p ≡ q) × (x ≡ y))
        → is_confirmed action ≡ true
        → (require env later
            (some auth)
            action
            params
            serial
            (confirm env now draw who id typed secret account s).0).1
          ≡ ok tt
        → (r : Challenge P D) × (lookup id (prune env now s).pending ≡ some r)
          × (action ≡ r.action)
          × (params ≡ r.params)
          × (serial ≡ r.serial)
          × (later < now + authorization_use_window)
    unfolding after
    confirmed_only later action params serial injective c h =
        let (r, found, timely, done) =
          confirm_ok env now draw who id typed secret account s auth confirms in
        let (a, live, same, own, there, ident, in_time, genuine, digest, gone) =
          require_ok env later (some auth) action params serial after c h in
        let k = asked r found in
        let agree =
          injective action r.action params r.params serial r.serial
            (sym digest ∙ ground (arith, done.digest, k.digest)) in
        (r, found, agree.0, agree.1, agree.2, ground (arith, done.expires))
