-- ===== src/Operations/Scheduler.antt =====
-- `Scheduler` of baseline/lib/operations.py over the contents of schedules.json, which its lock keeps
-- from other threads during each call. The thread that calls `tick` and the file itself are left out.
use base_line_prox.Base.{
  ◌>>=◌, ◌>>◌, Result, ok, err, guard, ℕ, ◌+◌, ◌*◌, String, Bool, true, false, not, Option, none,
  some, List, [], ◌∷◌, ◌++◌, Eq, ◌==◌, ltb, leb, if◌then◌else◌, string_eq, option_eq, nat_eq,
  length, keep,
}
use base_line_prox.Base.Dict.{Dict, lookup, insert, erase}
use base_line_prox.WebGate.Gate.{
  Error, Params, Env, WebOrigin, Stored, value_error, Sessions, Hours, require_login, sign_schedule,
  is_signed, origin_for_schedule,
}
use base_line_prox.Operations.Catalog.{find_operation, validate, as_params}

abbrev pub max_schedules : ℕ
max_schedules = 20

pub record Saved (D : Type 0) : Type 0 where
  pub schedules : List (Stored D)
  pub last_run : Dict String ℕ

-- what `tick` hands to `run`
pub record Due (D : Type 0) : Type 0 where
  pub op : String
  pub params : Params
  pub origin : WebOrigin D

abbrev is_schedulable : String → Bool
is_schedulable op_id = elim (find_operation op_id) [ none ↦ false | some spec ↦ spec.schedulable ]

module _ {D : Type 0} where
  -- `[r for r in data["schedules"] if r.get("op") != op_id]`
  unfoldable pub others : String → List (Stored D) → List (Stored D)
  others op_id = keep (λ r. not (r.op == some op_id))

module _ {D : Type 0} (env : Env D) where
  -- `set`
  unfoldable pub set_schedule :
      Sessions → Option String → String → Params → Hours → ℕ → Saved D → Result Error (Saved D)
  unfolding others
  set_schedule sessions token op_id params hours now d = do
    guard (is_schedulable op_id) value_error
    clean ← validate op_id params
    r ← sign_schedule env sessions token op_id (as_params clean) hours now
    let rest = others op_id d.schedules
    guard (ltb (length rest) max_schedules) value_error
    ok (record d { schedules = rest ++ r ∷ []; last_run = erase op_id d.last_run })

module _ {D : Type 0} where
  -- `remove`
  unfoldable pub remove_schedule :
      Sessions → Option String → String → ℕ → Saved D → Result Error (Saved D × Bool)
  remove_schedule sessions token op_id now d = do
    require_login sessions token now none
    let kept = others op_id d.schedules
    ok (record d { schedules = kept }, not (length kept == length d.schedules))

-- the test of `tick` on the last run
unfoldable pub is_due : ℕ → ℕ → Option ℕ → Bool
is_due now every none = true
is_due now every (some last) = leb (last + every * 3600) now

module _ {D : Type 0} where
  -- `tick` on one record that gave a proof
  unfoldable pub tick_signed :
      ℕ → String → Params → ℕ → WebOrigin D → Dict String ℕ → Dict String ℕ × Option (Due D)
  tick_signed now op params every o last_run =
      if is_due now every (lookup op last_run)
      then (insert op now last_run, some (record { op = op; params = params; origin = o }))
      else (last_run, none)

  abbrev pub with_due : Option (Due D) → List (Due D) → List (Due D)
  with_due none due = due
  with_due (some d) due = d ∷ due

module _ {D : Type 0} ⦃e : Eq D⦄ (env : Env D) where
  -- `listing` returns the schedules whose signature verifies
  unfoldable pub listing : Saved D → List (Stored D)
  listing d = keep (λ r. is_signed env r) d.schedules

  -- `tick` on one record: what is not signed is passed over
  unfoldable pub tick_record : ℕ → Stored D → Dict String ℕ → Dict String ℕ × Option (Due D)
  tick_record now r last_run = elim (origin_for_schedule env r now) [
    | err x ↦ (last_run, none)
    | ok o ↦ elim r.op [
      | none ↦ (last_run, none)
      | some op ↦ elim r.params [
        | none ↦ (last_run, none)
        | some params ↦ elim r.every [
          | none ↦ (last_run, none)
          | some every ↦ tick_signed now op params every o last_run
        ]
      ]
    ]
  ]

  unfoldable pub tick_loop : ℕ → List (Stored D) → Dict String ℕ → Dict String ℕ × List (Due D)
  tick_loop now [] last_run = (last_run, [])
  tick_loop now (r ∷ rs) last_run =
      let (after, found) = tick_record now r last_run in
      let (final, due) = tick_loop now rs after in (final, with_due found due)

  -- `tick`: the file as it is left, and the runs that it starts
  unfoldable pub tick : ℕ → Saved D → Saved D × List (Due D)
  tick now d =
      let (last_run, due) = tick_loop now d.schedules d.last_run in
      (record d { last_run = last_run }, due)
