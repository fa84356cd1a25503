-- ===== src/Operations/Ticks.antt =====
-- What a schedule may start, and how often.
use base_line_prox.Base.{
  Result, ok, err, Result-cases, ℕ, ◌+◌, ◌*◌, ◌≤◌, ◌<◌, ◌≡◌, ◌≢◌, refl, ap, String, true, false,
  Option, none, some, List, [], ◌∷◌, ◌++◌, arith, Eq, ◌==◌, ◌⊎◌, inl, inr, Bool-cases, string_eq,
  option_eq, length, length-append, All,
}
use base_line_prox.Base.Dict.{Dict, lookup, lookup-insert, lookup-erase}
use base_line_prox.Hitl.Types.{is_confirmed}
use base_line_prox.WebGate.Gate.{
  Error, Params, Env, WebOrigin, Stored, Sessions, Hours, sign_schedule, origin_for_schedule,
  sign_origin, check, require,
}
use base_line_prox.WebGate.Schedules.{signs_only}
use base_line_prox.Operations.Catalog.{validate, as_params}
use base_line_prox.Operations.Scheduler.{
  Saved, Due, max_schedules, others, set_schedule, is_due, tick_signed, tick_record, tick_loop,
  tick, with_due,
}

module _ {D : Type 0} ⦃e : Eq D⦄ (env : Env D) where
  -- A run that `tick` starts at `now` may be started: its proof passes the gate at that time for its
  -- operation and parameters, and the run is recorded as the operation's last one.
  pub record IsStarted (now : ℕ) (last_run : Dict String ℕ) (d : Due D) : Type 0 where
    pub passes : require env true now (some d.origin) d.op d.params ≡ ok tt
    pub recorded : lookup d.op last_run ≡ some now

  tick_signed_starts :
      (now : ℕ) (op : String) (params : Params) (every : ℕ) (o : WebOrigin D)
      (last_run : Dict String ℕ) (d : Due D)
      → require env true now (some o) op params ≡ ok tt
      → (tick_signed now op params every o last_run).1 ≡ some d
      → IsStarted now (tick_signed now op params every o last_run).0 d
  unfolding tick_signed
  tick_signed_starts now op params every o last_run d pass h =
      ground (arith, lookup-insert op op now last_run)

  origin_passes :
      (r : Stored D) (now : ℕ) (o : WebOrigin D) (op : String) (params : Params)
      → origin_for_schedule env r now ≡ ok o
      → r.op ≡ some op
      → r.params ≡ some params
      → require env true now (some o) op params ≡ ok tt
  unfolding origin_for_schedule require check sign_origin
  origin_passes r now o op params h p q = ground arith

  -- `tick` passes a record over, or comes to the test of its last run.
  record IsTested (now : ℕ) (r : Stored D) (last_run : Dict String ℕ) : Type 0 where
    o : WebOrigin D
    op : String
    params : Params
    every : ℕ
    signs : origin_for_schedule env r now ≡ ok o
    has_op : r.op ≡ some op
    has_params : r.params ≡ some params
    has_every : r.every ≡ some every
    comes_to : tick_record env now r last_run ≡ tick_signed now op params every o last_run

  tick_record_cases :
      (now : ℕ) (r : Stored D) (last_run : Dict String ℕ)
      → (tick_record env now r last_run ≡ (last_run, none)) ⊎ IsTested now r last_run
  unfolding tick_record
  tick_record_cases now r last_run =
      split (origin_for_schedule env r now) r.op r.params r.every refl refl refl refl
    where
      split :
          (x : Result Error (WebOrigin D)) (op : Option String) (params : Option Params)
          (every : Option ℕ)
          → origin_for_schedule env r now ≡ x
          → r.op ≡ op
          → r.params ≡ params
          → r.every ≡ every
          → (tick_record env now r last_run ≡ (last_run, none)) ⊎ IsTested now r last_run
      split (ok o) (some op) (some params) (some every) q a b c = inr (record {
        o = o;
        op = op;
        params = params;
        every = every;
        signs = q;
        has_op = a;
        has_params = b;
        has_every = c;
        comes_to = ground arith;
      })
      split (ok o) (some op) (some params) none q a b c = inl (ground arith)
      split (ok o) (some op) none every q a b c = inl (ground arith)
      split (ok o) none params every q a b c = inl (ground arith)
      split (err x) op params every q a b c = inl (ground arith)

  tick_record_starts :
      (now : ℕ) (r : Stored D) (last_run : Dict String ℕ) (d : Due D)
      → (tick_record env now r last_run).1 ≡ some d
      → IsStarted now (tick_record env now r last_run).0 d
  tick_record_starts now r last_run d h = elim (tick_record_cases now r last_run) [
    | inl passed ↦ absurd (ground arith)
    | inr t ↦ rw (t.comes_to) (
        tick_signed_starts now t.op t.params t.every t.o last_run d
          (origin_passes r now t.o t.op t.params t.signs t.has_op t.has_params)
          (rw (t.comes_to) at h))
  ]

  tick_record_keeps :
      (now : ℕ) (r : Stored D) (last_run : Dict String ℕ) (op : String)
      → lookup op last_run ≡ some now
      → lookup op (tick_record env now r last_run).0 ≡ some now
  unfolding tick_signed
  tick_record_keeps now r last_run op h = elim (tick_record_cases now r last_run) [
    | inl passed ↦ rw passed h
    | inr t ↦ rw (t.comes_to) (ground (arith, lookup-insert op t.op now last_run))
  ]

  tick_loop_keeps :
      (now : ℕ) (rs : List (Stored D)) (last_run : Dict String ℕ) (op : String)
      → lookup op last_run ≡ some now
      → lookup op (tick_loop env now rs last_run).0 ≡ some now
  unfolding tick_loop
  tick_loop_keeps now [] last_run op h = h
  tick_loop_keeps now (r ∷ rs) last_run op h =
      tick_loop_keeps now rs (tick_record env now r last_run).0 op
        (tick_record_keeps now r last_run op h)

  All-with_due :
      (P : Due D → Type 0) (found : Option (Due D)) (due : List (Due D))
      → ((d : Due D) → found ≡ some d → P d)
      → All P due
      → All P (with_due found due)
  All-with_due P none due one h = h
  All-with_due P (some d) due one h = (one d refl, h)

  tick_loop_starts :
      (now : ℕ) (rs : List (Stored D)) (last_run : Dict String ℕ)
      → All (IsStarted now (tick_loop env now rs last_run).0) (tick_loop env now rs last_run).1
  unfolding tick_loop
  tick_loop_starts now [] last_run = tt
  tick_loop_starts now (r ∷ rs) last_run =
      let after = (tick_record env now r last_run).0 in
      All-with_due _ (tick_record env now r last_run).1 _
        (λ d found.
          let k = tick_record_starts now r last_run d found in
          record { passes = k.passes; recorded = tick_loop_keeps now rs after d.op k.recorded })
        (tick_loop_starts now rs after)

  -- Whatever the file holds, also edited or unsigned records, each run that `tick` starts carries a
  -- proof that the gate accepts at that time for exactly its operation and parameters, and is recorded
  -- as the operation's last run in the file that `tick` leaves.
  pub tick_starts :
      (now : ℕ) (d : Saved D) → All (IsStarted now (tick env now d).0.last_run) (tick env now d).1
  unfolding tick
  tick_starts now d = tick_loop_starts now d.schedules d.last_run

  -- no two tests closer than a record's interval
  abbrev pub IsSoon : ℕ → ℕ → Stored D → Type 0
  IsSoon now later r = (every : ℕ) → r.every ≡ some every → later < now + every * 3600

  soon_not_due :
      (now later : ℕ) (r : Stored D) (last_run : Dict String ℕ) (op : String) (d : Due D)
      → IsSoon now later r
      → lookup op last_run ≡ some now
      → (tick_record env later r last_run).1 ≡ some d
      → d.op ≢ op
  unfolding tick_signed is_due
  soon_not_due now later r last_run op d soon h found same =
      elim (tick_record_cases later r last_run) [
        | inl passed ↦ absurd (ground arith)
        | inr t ↦
            let started = rw (t.comes_to) at found in
            let bound = soon t.every t.has_every in ground arith
      ]

  soon_keeps :
      (now later : ℕ) (r : Stored D) (last_run : Dict String ℕ) (op : String)
      → IsSoon now later r
      → lookup op last_run ≡ some now
      → lookup op (tick_record env later r last_run).0 ≡ some now
  unfolding tick_signed is_due
  soon_keeps now later r last_run op soon h = elim (tick_record_cases later r last_run) [
    | inl passed ↦ rw passed h
    | inr t ↦
        let bound = soon t.every t.has_every in
        rw (t.comes_to) (ground (arith, lookup-insert op t.op later last_run))
  ]

  tick_loop_waits :
      (now later : ℕ) (rs : List (Stored D)) (last_run : Dict String ℕ) (op : String)
      → All (IsSoon now later) rs
      → lookup op last_run ≡ some now
      → All (λ d. d.op ≢ op) (tick_loop env later rs last_run).1
  unfolding tick_loop
  tick_loop_waits now later [] last_run op soon h = tt
  tick_loop_waits now later (r ∷ rs) last_run op soon h =
      All-with_due _ (tick_record env later r last_run).1 _
        (λ d found. soon_not_due now later r last_run op d soon.0 h found)
        (tick_loop_waits now later rs (tick_record env later r last_run).0 op soon.1
          (soon_keeps now later r last_run op soon.0 h))

  -- An operation that was run at `now` is not run again before the interval of its schedules has
  -- passed, however often `tick` is called and whether the run failed or not.
  pub tick_waits :
      (now later : ℕ) (d : Saved D) (op : String)
      → lookup op d.last_run ≡ some now
      → All (IsSoon now later) d.schedules
      → All (λ x. x.op ≢ op) (tick env later d).1
  unfolding tick
  tick_waits now later d op h soon = tick_loop_waits now later d.schedules d.last_run op soon h

module _ {D : Type 0} where
  has_no : (op_id : String) (rs : List (Stored D)) → All (λ r. r.op ≢ some op_id) (others op_id rs)
  unfolding others
  has_no op_id [] = tt
  has_no op_id (r ∷ rs) = elim (Bool-cases (r.op == some op_id)) [
    | inl q ↦ rw q (has_no op_id rs)
    | inr q ↦ rw q (ground arith, has_no op_id rs)
  ]

-- Setting a schedule replaces the operation's schedule, if it had one: the file then holds at most 20
-- records, those of the other operations as they were and one for this operation, which is never one
-- that a person confirms each time; and its last run is forgotten.
pub set_schedule_ok :
    {D : Type 0} (env : Env D) (sessions : Sessions) (token : Option String) (op_id : String)
    (params : Params) (hours : Hours) (now : ℕ) (d t : Saved D)
    → set_schedule env sessions token op_id params hours now d ≡ ok t
    → (is_confirmed op_id ≡ false)
      × (length t.schedules ≤ max_schedules)
      × ((r : Stored D) × (t.schedules ≡ others op_id d.schedules ++ r ∷ [])
          × (r.op ≡ some op_id)
          × All (λ x. x.op ≢ some op_id) (others op_id d.schedules))
      × (lookup op_id t.last_run ≡ none)
unfolding set_schedule
set_schedule_ok {D} env sessions token op_id params hours now d t h =
    elim (Result-cases (validate op_id params)) [
      | inr (x, q) ↦ absurd (ground arith)
      | inl (clean, q) ↦
          elim (Result-cases (sign_schedule env sessions token op_id (as_params clean) hours now)) [
            | inr (x, s) ↦ absurd (ground arith)
            | inl (r, s) ↦
                let (role, every, live, permits, never, given, pos, is) =
                  signs_only env sessions token op_id (as_params clean) hours now r s in
                let rest = others op_id d.schedules in
                (
                  never,
                  ground (arith, length-append rest (r ∷ [])),
                  (r, ground arith, ap (λ (x : Stored D). x.op) is, has_no op_id d.schedules),
                  ground (arith, lookup-erase op_id op_id d.last_run),
                )
          ]
    ]
