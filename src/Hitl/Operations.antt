-- ===== src/Hitl/Operations.antt =====
-- `ConfirmationStore` and `require` of baseline/lib/hitl.py: each method takes the time that the
-- store's clock shows and what the call draws, and returns the new store beside its result. What
-- was written before a raise stays written.
use base_line_prox.Base.{
  Result, ok, err, ℕ, ◌+◌, String, Bool, false, not, ◌&&◌, ◌||◌, Option, none, some, List, [], ◌∷◌,
  ◌++◌, ◌==◌, ltb, leb, if◌then◌else◌, length, string_eq, codes_eq,
}
use base_line_prox.Base.Dict.{lookup, insert, erase, keep_values}
use base_line_prox.Hitl.Types.{
  Error, day_key, mac_of, request_digest, who_of, authorization_use_window, max_pending,
  max_failed_attempts, is_confirmed, never_pre_approved, phrase_for, normalize, Kind, confirmation,
  Reason, unknown, never_granted, session, too_fast, phrase, credential, value_error,
  confirmation_error, Env, Challenge, Daily, Authorization, Event, challenged, confirm_failed,
  daily_authorized, confirmed, Store, Draw,
}

-- a Python string argument that may be `None`, as a condition
abbrev pub truthy : Option String → Bool
truthy none = false
truthy (some s) = not (s == "")

abbrev pub text_of : Option String → String
text_of none = "None"
text_of (some s) = s

module _ {P D : Type 0} where
  abbrev pub record_event : Event D → Store P D → Store P D
  record_event e s = record s { audit = s.audit ++ e ∷ [] }

  -- A wrong phrase or credential: one more failure, and the fifth ends the challenge.
  unfoldable pub count_failure : String → Challenge P D → Store P D → Store P D
  count_failure id r s =
      if leb max_failed_attempts (r.failures + 1)
      then record s { pending = erase id s.pending }
      else record s { pending = insert id (record r { failures = r.failures + 1 }) s.pending }

module _ {P D : Type 0} (env : Env P D) where
  unfoldable pub prune : ℕ → Store P D → Store P D
  prune now s = record s {
    pending = keep_values (λ r. ltb now r.expires) s.pending;
    grants = keep_values (λ g. ltb now g.expires && ltb 0 g.uses_left) s.grants;
    live = keep_values (λ a. ltb now a.expires) s.live;
    daily = keep_values (λ d. d.day == day_key env now) s.daily;
  }

  -- `_mint`, with `Authorization.__init__`
  unfoldable pub mint : Draw → D → Kind → ℕ → Store P D → Store P D × Authorization D
  mint draw digest kind expires s = (record s { live = insert draw.nonce auth s.live }, auth)
    where
      auth : Authorization D
      auth = record {
        ident = draw.ident;
        store = s.ident;
        nonce = draw.nonce;
        digest = digest;
        expires = expires;
        kind = kind;
        mac = mac_of env draw.nonce digest expires kind;
      }

  -- `_refuse`
  abbrev pub refuse {ℓ} :
      {A : Type ℓ} → String → String → Reason → Store P D → Store P D × Result Error A
  refuse who id why s =
      (record_event (confirm_failed id why (who_of env who)) s, err (confirmation_error why))

  -- the record that `challenge` files
  abbrev pub new_challenge : ℕ → String → String → P → String → Store P D → Challenge P D
  new_challenge now who action_id params serial s = record {
    session = who;
    action = action_id;
    params = params;
    serial = serial;
    digest = request_digest env action_id params serial;
    phrase = phrase_for action_id serial;
    created = now;
    expires = now + s.ttl;
    failures = 0;
  }

  add_challenge :
      ℕ
      → Draw
      → String
      → String
      → P
      → String
      → Store P D
      → Store P D × Result Error (String × List ℕ)
  add_challenge now draw who action_id params serial s =
      if leb max_pending (length s.pending) then (s, err value_error) else (
        record_event (challenged draw.key action_id serial (who_of env who)) (record s {
          pending = insert draw.key (new_challenge now who action_id params serial s) s.pending;
        }),
        ok (draw.key, phrase_for action_id serial),
      )

  -- The reply is the challenge's id and phrase; the rest of it repeats the caller's summary and the
  -- store's two settings.
  unfoldable pub challenge :
      ℕ
      → Draw
      → String
      → String
      → P
      → String
      → Store P D
      → Store P D × Result Error (String × List ℕ)
  unfolding add_challenge
  challenge now draw who action_id params serial s =
      if is_confirmed action_id
      then add_challenge now draw who action_id params serial (prune now s)
      else (s, err value_error)

  unfoldable pub pending_request : ℕ → String → Store P D → Store P D × Option (String × P × String)
  pending_request now id s =
      let t = prune now s in
      (t, elim (lookup id t.pending) [ none ↦ none | some r ↦ some (r.action, r.params, r.serial) ])

  unfoldable pub authorize_day : ℕ → Draw → Option String → Challenge P D → Store P D → Store P D
  authorize_day now draw account r s =
      if truthy account
      then record_event
          (daily_authorized draw.key r.action r.serial (text_of account) (day_key env now))
          (record s { daily = insert draw.key entry s.daily })
      else s
    where
      entry : Daily
      entry = record {
        account = text_of account;
        action = r.action;
        serial = r.serial;
        day = day_key env now;
      }

  -- what `confirm` does once every test has passed
  unfoldable pub accept :
      ℕ
      → Draw
      → String
      → String
      → Option String
      → Challenge P D
      → Store P D
      → Store P D × Result Error (Authorization D)
  unfolding mint authorize_day
  accept now draw who id account r s =
      let s1 : Store P D = record s { pending = erase id s.pending } in
      let s2 : Store P D = authorize_day now draw account r s1 in
      let (s3, auth) = mint draw r.digest confirmation (now + authorization_use_window) s2 in
      (record_event (confirmed id r.action r.serial (who_of env who)) s3, ok auth)

  -- the tests of `confirm` on the challenge that it found
  unfoldable pub confirm_found :
      ℕ
      → Draw
      → String
      → String
      → String
      → String
      → Option String
      → Challenge P D
      → Store P D
      → Store P D × Result Error (Authorization D)
  confirm_found now draw who id typed secret account r s =
      if truthy account && never_pre_approved r.action
      then refuse who id never_granted s
      else if not (r.session == who)
      then refuse who id session s
      else if ltb now (r.created + s.min_wait)
      then refuse who id too_fast s
      else if not (normalize typed == r.phrase)
      then refuse who id phrase (count_failure id r s)
      else if secret == "" || not (env.verify_secret secret)
      then refuse who id credential (count_failure id r s)
      else accept now draw who id account r s

  unfoldable pub confirm :
      ℕ
      → Draw
      → String
      → String
      → String
      → String
      → Option String
      → Store P D
      → Store P D × Result Error (Authorization D)
  confirm now draw who id typed secret account s =
      let t = prune now s in
      elim (lookup id t.pending) [
        | none ↦ refuse who id unknown t
        | some r ↦ confirm_found now draw who id typed secret account r t
      ]
