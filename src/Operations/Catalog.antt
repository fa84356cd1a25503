-- ===== src/Operations/Catalog.antt =====
-- The operations, `validate`, `execute` and the routes of a limited login, of
-- baseline/lib/operations.py.
use base_line_prox.Base.{
  ◌>>=◌, ◌>>◌, Result, ok, err, guard, ℕ, String, ◌<>◌, Bool, true, false, ◌||◌, Option, none, some,
  List, [], ◌∷◌, Eq, ◌==◌, contains, any, all, if◌then◌else◌, string_eq,
}
use base_line_prox.Base.Dict.{Dict, keys, lookup, insert, has_key}
use base_line_prox.Base.Text.{strip_prefix}
use base_line_prox.WebGate.Gate.{
  Error, Params, boolean, Env, WebOrigin, value_error, bot_prefix, require,
}

-- `params` maps each parameter to its default; the description is left out.
pub record Operation : Type 0 where
  pub params : Dict String Bool
  pub schedulable : Bool

abbrev pub operations : Dict String Operation
operations =
    (
      "backup_offdrive",
      record { params = ("dry_run", false) ∷ ("force", false) ∷ []; schedulable = true },
    )
    ∷ ("backup_guests", record { params = ("dry_run", false) ∷ []; schedulable = true })
    ∷ ("backup_verify", record { params = []; schedulable = true })
    ∷ ("backup_test_restore", record { params = []; schedulable = true })
    ∷ ("backup_list", record { params = []; schedulable = false })
    ∷ []

-- `OPERATIONS.get(op_id)`
unfoldable pub find_operation : String → Option Operation
unfolding lookup string_eq
find_operation op_id = lookup op_id operations

-- The loop of `validate` over the given parameters, which writes each value over its default.
unfoldable pub override : Params → Dict String Bool → Result Error (Dict String Bool)
override [] clean = ok clean
override ((name, boolean b) ∷ params) clean = override params (insert name b clean)
override ((name, _) ∷ params) clean = err value_error

-- `validate`; a `Params` is always an object
unfoldable pub validate : String → Params → Result Error (Dict String Bool)
validate op_id params = elim (find_operation op_id) [
  | none ↦ err value_error
  | some spec ↦ do
    guard (all (λ name. has_key name spec.params) (keys params)) value_error
    override params spec.params
]

-- the parameters as the gate's digest takes them
unfoldable pub as_params : Dict String Bool → Params
as_params [] = []
as_params ((name, b) ∷ d) = (name, boolean b) ∷ as_params d

-- The result of a body: the exit code, or a `BackupError`.
pub data Outcome : Type 0 where
  exits : ℕ → Outcome
  backup_error : Outcome

-- `execute`: `bodies` stands for the five functions that it dispatches to by name.
unfoldable pub execute :
    {D : Type 0} ⦃e : Eq D⦄
    → Env D
    → Bool
    → ℕ
    → (String → Dict String Bool → Outcome)
    → String
    → Params
    → Option (WebOrigin D)
    → Result Error ℕ
execute env configured now bodies op_id params o = do
  clean ← validate op_id params
  require env configured now o op_id (as_params clean)
  ok (elim (bodies op_id clean) [ exits code ↦ code | backup_error ↦ 1 ])

-- `path == p or path.startswith(p + "/")`
unfoldable pub is_under : String → String → Bool
is_under p path =
    path == p || elim (strip_prefix (p <> "/") path) [ none ↦ false | some rest ↦ true ]

abbrev pub operator_paths : List String
operator_paths = "/operations" ∷ "/drive-admin/job-log" ∷ "/logout" ∷ []

unfoldable pub operator_may_reach : String → Bool
operator_may_reach path = any (λ p. is_under p path) operator_paths

abbrev pub bot_operation_paths : List String
bot_operation_paths =
    "/operations" ∷ "/operations/run" ∷ "/operations/schedule" ∷ "/operations/schedule/remove"
    ∷ "/drive-admin/job-log" ∷ "/logout" ∷ []

abbrev pub bot_drive_paths : List String
bot_drive_paths =
    "/drive-admin" ∷ "/drive-admin/action" ∷ "/drive-admin/confirm" ∷ "/drive-admin/actions"
    ∷ "/drive-admin/job-log" ∷ "/logout" ∷ []

unfoldable pub is_operation : String → Bool
is_operation action = elim (find_operation action) [ none ↦ false | some spec ↦ true ]

unfoldable pub bot_may_reach : Option String → String → Bool
bot_may_reach none path = false
bot_may_reach (some action) path =
    contains (if is_operation action then bot_operation_paths else bot_drive_paths) path

unfoldable pub role_may_reach : String → String → Bool
role_may_reach role path =
    if role == "admin"
    then true
    else if role == "operator"
    then operator_may_reach path
    else bot_may_reach (strip_prefix bot_prefix role) path
