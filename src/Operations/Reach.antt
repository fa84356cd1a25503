-- ===== src/Operations/Reach.antt =====
-- What a limited login reaches, and what `validate` lets through.
use base_line_prox.Base.{
  ok, ◌≡◌, ◌≢◌, String, Bool, true, Option, none, some, [], ◌∷◌, arith, ◌⊎◌, inl, inr, Option-cases,
  string_eq, if◌then◌else◌, contains, all,
}
use base_line_prox.Base.Dict.{Dict, keys, lookup, insert, has_key, lookup-insert}
use base_line_prox.Base.Text.{strip_prefix}
use base_line_prox.WebGate.Gate.{Params, Value, boolean, bot_prefix}
use base_line_prox.Operations.Catalog.{
  Operation, find_operation, override, validate, operator_may_reach, bot_operation_paths,
  bot_drive_paths, bot_may_reach, role_may_reach, is_operation,
}

-- A login that is not the administrator's reaches a page only under the operation and job-log pages
-- and the logout, or, for a bot of a drive action, one of the drive page's own routes.
pub limited_reach :
    (role path : String)
    → role ≢ "admin"
    → role_may_reach role path ≡ true
    → ((role ≡ "operator") × (operator_may_reach path ≡ true))
      ⊎ ((action : String) × (strip_prefix bot_prefix role ≡ some action)
          × (contains (if is_operation action then bot_operation_paths else bot_drive_paths) path
              ≡ true))
unfolding role_may_reach bot_may_reach
limited_reach role path h reach = elim (Option-cases (strip_prefix bot_prefix role)) [
  | inl q ↦ ground arith
  | inr (action, q) ↦ ground arith
]

-- a value that is given, or the default
abbrev pub chosen : Option Value → Option Bool → Option Bool
chosen (some (boolean b)) old = some b
chosen _ old = old

abbrev pub NodupParams : Params → Type 0
NodupParams [] = Unit
NodupParams ((k, v) ∷ d) = (lookup k d ≡ none) × NodupParams d

lookup-override :
    (params : Params) (defaults clean : Dict String Bool) (name : String)
    → NodupParams params
    → override params defaults ≡ ok clean
    → lookup name clean ≡ chosen (lookup name params) (lookup name defaults)
unfolding override lookup
lookup-override [] defaults clean name u h = ground arith
lookup-override ((k, boolean b) ∷ params) defaults clean name u h = ground (
  arith,
  lookup-override params (insert k b defaults) clean name u.1,
  lookup-insert name k b defaults,
)
lookup-override ((k, _) ∷ params) defaults clean name u h = absurd (ground arith)

-- What `validate` accepts: a known operation and only its own parameters, each a boolean. The result
-- has, for every name, the value that was given, or the operation's default.
pub validate_ok :
    (op_id : String) (params : Params) (clean : Dict String Bool)
    → NodupParams params
    → validate op_id params ≡ ok clean
    → (spec : Operation) × (find_operation op_id ≡ some spec)
      × (all (λ name. has_key name spec.params) (keys params) ≡ true)
      × ((name : String)
          → lookup name clean ≡ chosen (lookup name params) (lookup name spec.params))
unfolding validate
validate_ok op_id params clean u h = elim (Option-cases (find_operation op_id)) [
  | inl q ↦ absurd (ground arith)
  | inr (spec, q) ↦ (
    spec,
    q,
    ground arith,
    λ name. lookup-override params spec.params clean name u (ground arith),
  )
]
