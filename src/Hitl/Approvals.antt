-- ===== src/Hitl/Approvals.antt =====
-- The rest of `ConfirmationStore` of baseline/lib/hitl.py: the use of an authorization, standing
-- approvals, a bot's authorizations for the day, and `require`.
use base_line_prox.Base.{
  Result, ok, err, ℕ, ◌+◌, ◌-◌, ◌*◌, String, Bool, true, false, not, ◌&&◌, ◌||◌, Option, none, some,
  Eq, ◌==◌, ltb, leb, if◌then◌else◌, string_eq, nat_eq, codes_eq,
}
use base_line_prox.Base.Dict.{lookup, insert, erase, find_entry, keep_values, has_key, Dict}
use base_line_prox.Hitl.Types.{
  Error, day_key, mac_of, request_digest, who_of, second, authorization_use_window,
  max_grant_minutes, max_grant_uses, is_confirmed, never_pre_approved, grant_sentence, normalize,
  grant, daily, Reason, never_granted, phrase, credential, limits, confirmation_error, none_given,
  not_issued_here, used_or_expired, expired, different_request, Arg, natural, Env, Grant, Daily,
  Authorization, authorization_used, grant_failed, grant_created, grant_used, daily_used,
  daily_revoked, grant_revoked, Store, Draw,
}
use base_line_prox.Hitl.Operations.{record_event, prune, mint}

-- a number from 1 to `most`, and no boolean
abbrev pub in_limits : Arg → ℕ → Option ℕ
in_limits (natural n) most = if leb 1 n && leb n most then some n else none
in_limits _ most = none

abbrev pub new_grant : ℕ → String → String → String → ℕ → ℕ → Grant
new_grant now who action_id serial minutes uses = record {
  session = who;
  action = action_id;
  serial = serial;
  expires = now + minutes * 60 * second;
  uses_left = uses;
}

-- the test of `authorization_from_grant` on one approval
abbrev pub grant_serves : String → String → String → Grant → Bool
grant_serves who action_id serial g =
    g.action == action_id && (g.serial == serial && (ltb 0 g.uses_left && g.session == who))

abbrev pub daily_serves : String → String → String → String → Daily → Bool
daily_serves account action_id serial today d =
    d.action == action_id && (d.serial == serial && (d.day == today && d.account == account))

module _ {P D : Type 0} ⦃e : Eq D⦄ (env : Env P D) where
  -- `Authorization.valid_for`
  unfoldable pub valid_for : Authorization D → String → P → String → Bool
  valid_for auth action_id params serial =
      auth.mac == mac_of env auth.nonce auth.digest auth.expires auth.kind
      && auth.digest == request_digest env action_id params serial

  -- `_use` on the authorization that is live under the nonce, once it is the caller's object
  unfoldable pub use_live :
      ℕ → Authorization D → String → P → String → Store P D → Store P D × Result Error (Unit {0})
  unfolding valid_for
  use_live now auth action_id params serial s =
      if leb auth.expires now
      then (record s { live = erase auth.nonce s.live }, err expired)
      else if valid_for auth action_id params serial
      then (
        record_event (authorization_used action_id serial auth.kind)
            (record s { live = erase auth.nonce s.live }),
        ok tt,
      )
      else (s, err different_request)

  -- `_use`
  unfoldable pub use_authorization :
      ℕ → Authorization D → String → P → String → Store P D → Store P D × Result Error (Unit {0})
  use_authorization now auth action_id params serial s = elim (lookup auth.nonce s.live) [
    | none ↦ (s, err used_or_expired)
    | some live ↦
        if live.ident == auth.ident
        then use_live now auth action_id params serial s
        else (s, err used_or_expired)
  ]

  -- `require(authorization, action_id, params, serial, store=s)`, as every caller makes it; `none` is
  -- an argument that is no `Authorization`.
  unfoldable pub require :
      ℕ
      → Option (Authorization D)
      → String
      → P
      → String
      → Store P D
      → Store P D × Result Error (Unit {0})
  require now none action_id params serial s =
      if is_confirmed action_id then (s, err none_given) else (s, ok tt)
  require now (some auth) action_id params serial s =
      if not (is_confirmed action_id)
      then (s, ok tt)
      else if not (auth.store == s.ident)
      then (s, err not_issued_here)
      else use_authorization now auth action_id params serial s

module _ {P D : Type 0} (env : Env P D) where
  abbrev refuse_grant {ℓ} : {A : Type ℓ} → String → Reason → Store P D → Store P D × Result Error A
  refuse_grant who why s =
      (record_event (grant_failed why (who_of env who)) s, err (confirmation_error why))

  -- `grant`, once its arguments are within the limits
  unfoldable pub grant_within :
      ℕ
      → Draw
      → String
      → String
      → String
      → ℕ
      → ℕ
      → String
      → String
      → Store P D
      → Store P D × Result Error String
  grant_within now draw who action_id serial minutes uses typed secret s =
      if not (normalize typed == grant_sentence action_id serial minutes)
      then refuse_grant who phrase s
      else if secret == "" || not (env.verify_secret secret)
      then refuse_grant who credential s
      else (
        record_event (grant_created draw.key action_id serial minutes uses (who_of env who))
            (record s {
              grants = insert draw.key (new_grant now who action_id serial minutes uses) s.grants;
            }),
        ok draw.key,
      )

  unfoldable pub grant_limits :
      ℕ
      → Draw
      → String
      → String
      → String
      → Option ℕ
      → Option ℕ
      → String
      → String
      → Store P D
      → Store P D × Result Error String
  grant_limits now draw who action_id serial (some minutes) (some uses) typed secret s =
      grant_within now draw who action_id serial minutes uses typed secret s
  grant_limits now draw who action_id serial _ _ typed secret s =
      (s, err (confirmation_error limits))

  -- `grant`; the reply is the approval's id
  unfoldable pub grant_approval :
      ℕ
      → Draw
      → String
      → String
      → String
      → Arg
      → Arg
      → String
      → String
      → Store P D
      → Store P D × Result Error String
  grant_approval now draw who action_id serial minutes max_uses typed secret s =
      let t = prune env now s in
      if never_pre_approved action_id
      then (t, err (confirmation_error never_granted))
      else if not (is_confirmed action_id)
      then (t, err (confirmation_error limits))
      else grant_limits now draw who action_id serial (in_limits minutes max_grant_minutes)
          (in_limits max_uses max_grant_uses) typed secret t

  -- `authorization_from_grant` on the approval that serves the request
  unfoldable pub spend_grant :
      ℕ
      → Draw
      → String
      → String
      → P
      → String
      → String
      → Grant
      → Store P D
      → Store P D × Option (Authorization D)
  unfolding mint
  spend_grant now draw who action_id params serial id g t =
      let left = g.uses_left - 1 in
      let t1 : Store P D = record t {
        grants = insert id (record g { uses_left = left }) t.grants;
      } in
      let (t2, auth) =
        mint env draw (request_digest env action_id params serial) grant
          (now + authorization_use_window) t1 in
      (record_event (grant_used id action_id serial left (who_of env who)) t2, some auth)

  unfoldable pub authorization_from_grant :
      ℕ → Draw → String → String → P → String → Store P D → Store P D × Option (Authorization D)
  authorization_from_grant now draw who action_id params serial s =
      let t = prune env now s in
      elim (find_entry (grant_serves who action_id serial) t.grants) [
        | none ↦ (t, none)
        | some (id, g) ↦ spend_grant now draw who action_id params serial id g t
      ]

  unfoldable pub authorization_from_daily :
      ℕ → Draw → String → String → P → String → Store P D → Store P D × Option (Authorization D)
  unfolding mint
  authorization_from_daily now draw account action_id params serial s =
      let t = prune env now s in
      elim (find_entry (daily_serves account action_id serial (day_key env now)) t.daily) [
        | none ↦ (t, none)
        | some (id, d) ↦
            let (t1, auth) =
              mint env draw (request_digest env action_id params serial) daily
                (now + authorization_use_window) t in
            (record_event (daily_used id action_id serial account) t1, some auth)
      ]

  -- `list_daily` and `list_grants` prune, and return the entries of one account or session
  unfoldable pub list_daily : ℕ → String → Store P D → Store P D × Dict String Daily
  list_daily now account s =
      let t = prune env now s in (t, keep_values (λ d. d.account == account) t.daily)

  unfoldable pub list_all_daily : ℕ → Store P D → Store P D × Dict String Daily
  list_all_daily now s = let t = prune env now s in (t, t.daily)

  unfoldable pub list_grants : ℕ → String → Store P D → Store P D × Dict String Grant
  list_grants now who s =
      let t = prune env now s in (t, keep_values (λ g. g.session == who) t.grants)

module _ {P D : Type 0} where
  unfoldable pub revoke_daily : String → Store P D → Store P D × Bool
  revoke_daily id s =
      if has_key id s.daily
      then (record_event (daily_revoked id) (record s { daily = erase id s.daily }), true)
      else (s, false)

  unfoldable pub revoke : String → Store P D → Store P D × Bool
  revoke id s =
      if has_key id s.grants
      then (record_event (grant_revoked id) (record s { grants = erase id s.grants }), true)
      else (s, false)
