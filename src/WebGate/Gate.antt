-- ===== src/WebGate/Gate.antt =====
-- `WebGate`, `role_permits` and `require` of baseline/lib/web_gate.py.
-- Times are counted in microseconds and hours in millionths. The hashes of hashlib and hmac are the
-- record `Env`, over digests of any type `D`; a value of a request's parameters that the module does
-- not look into is `opaque`, told from others by a number.
use base_line_prox.Base.{
  ◌>>=◌, ◌>>◌, Result, ok, err, guard, ℕ, ◌+◌, ◌*◌, String, Bool, true, false, not, ◌&&◌, ◌||◌,
  Option, none, some, Eq, ◌==◌, ltb, if◌then◌else◌, string_eq, option_eq,
}
use base_line_prox.Base.Dict.{Dict, lookup}
use base_line_prox.Base.Text.{strip_prefix}
use base_line_prox.Hitl.Types.{second, is_confirmed}

abbrev pub origin_ttl : ℕ
origin_ttl = 120 * second

pub data Value : Type 0 where
  boolean : Bool → Value
  text : String → Value
  opaque : ℕ → Value

abbrev pub Params : Type 0
Params = Dict String Value

pub data Kind : Type 0 where
  session schedule : Kind

-- What is signed: the parts that `_mac` joins, told apart by the word that stands first.
pub data Message (D : Type 0) : Type 0 where
  origin : (kind : Kind) (op : String) (digest : D) (expires : ℕ) → Message D
  schedule : (op : String) (digest : D) (every created : ℕ) → Message D

pub record Env (D : Type 0) : Type 0 where
  -- SHA-256 of the sorted JSON of an operation and its parameters
  pub sha256 : String → Params → D
  -- the HMAC under the gate's key
  pub hmac : Message D → D

pub record WebOrigin (D : Type 0) : Type 0 where
  pub kind : Kind
  pub op : String
  pub digest : D
  pub expires : ℕ
  pub mac : D

-- A schedule as it is stored: a file that was edited may lack any of its fields.
pub record Stored (D : Type 0) : Type 0 where
  pub op : Option String
  pub params : Option Params
  pub every : Option ℕ
  pub created : Option ℕ
  pub sig : Option D

-- the messages of `NotFromWebApp`, and `ValueError`
pub data Error : Type 0 where
  no_session not_authorized no_gate not_an_origin not_signed expired different_operation : Error
  not_created_here value_error : Error

-- `hours` as it comes from a form or a file: only a number that is no boolean and above 0 is accepted.
pub data Hours : Type 0 where
  micro : ℕ → Hours
  not_positive not_a_number : Hours

abbrev pub bot_prefix : String
bot_prefix = "bot:"

-- what a `bot:<action>` role permits
unfoldable pub bot_permits : Option String → String → Params → Bool
bot_permits none op params = false
bot_permits (some action) op params =
    op == action
    || (op == "drive_action"
        && elim (lookup "action_id" params) [ some (text t) ↦ t == action | _ ↦ false ])

unfoldable pub role_permits : String → String → Params → Bool
unfolding bot_permits
role_permits role op params =
    if role == "admin" || role == "operator"
    then true
    else bot_permits (strip_prefix bot_prefix role) op params

-- `sessions.get`: the role of the session that a token names, at a time
abbrev pub Sessions : Type 0
Sessions = String → ℕ → Option String

unfoldable pub find_session : Sessions → Option String → ℕ → Option String
find_session sessions none now = none
find_session sessions (some token) now = if token == "" then none else sessions token now

-- `_require_login` with an operation, and without one
unfoldable pub require_login :
    Sessions → Option String → ℕ → Option (String × Params) → Result Error (Unit {0})
unfolding find_session
require_login sessions token now asked = elim (find_session sessions token now) [
  | none ↦ err no_session
  | some role ↦ elim asked [
    | none ↦ ok tt
    | some (op, params) ↦ guard (role_permits role op params) not_authorized
  ]
]

module _ {D : Type 0} (env : Env D) where
  -- `_origin`
  unfoldable pub sign_origin : Kind → String → Params → ℕ → WebOrigin D
  sign_origin kind op params now =
      let d = env.sha256 op params in
      let expires : ℕ = now + origin_ttl in
      record {
        kind = kind;
        op = op;
        digest = d;
        expires = expires;
        mac = env.hmac (origin kind op d expires);
      }

  unfoldable pub origin_for_session :
      Sessions → Option String → String → Params → ℕ → Result Error (WebOrigin D)
  origin_for_session sessions token op params now = do
    require_login sessions token now (some (op, params))
    ok (sign_origin Kind.session op params now)

  -- `_schedule_mac`; `none` stands for the `KeyError` of a field that is missing
  unfoldable pub schedule_mac : Stored D → Option D
  schedule_mac r = elim r.op [
    | none ↦ none
    | some op ↦ elim r.params [
      | none ↦ none
      | some params ↦ elim r.every [
        | none ↦ none
        | some every ↦ some (
            env.hmac (
              Message.schedule op (env.sha256 op params) every
                (elim r.created [ none ↦ 0 | some t ↦ t ])))
      ]
    ]
  ]

  unfoldable pub sign_schedule :
      Sessions → Option String → String → Params → Hours → ℕ → Result Error (Stored D)
  unfolding schedule_mac
  sign_schedule sessions token op params hours now = do
    require_login sessions token now (some (op, params))
    guard (not (is_confirmed op)) value_error
    every ← elim hours [ micro n ↦ if ltb 0 n then ok n else err value_error | _ ↦ err value_error ]
    let unsigned : Stored D = record {
      op = some op;
      params = some params;
      every = some every;
      created = some now;
      sig = none;
    }
    ok (record unsigned { sig = schedule_mac unsigned })

module _ {D : Type 0} ⦃e : Eq D⦄ (env : Env D) where
  -- the test of `origin_for_schedule`: `str(record.get("sig", ""))` is no MAC where it is missing
  unfoldable pub is_signed : Stored D → Bool
  unfolding schedule_mac
  is_signed r = elim (schedule_mac env r) [
    | none ↦ false
    | some mac ↦ elim r.sig [ none ↦ false | some sig ↦ sig == mac ]
  ]

  unfoldable pub origin_for_schedule : Stored D → ℕ → Result Error (WebOrigin D)
  origin_for_schedule r now =
      if is_signed r
      then elim r.op [
        | none ↦ err not_created_here
        | some op ↦ elim r.params [
          | none ↦ err not_created_here
          | some params ↦ ok (sign_origin env Kind.schedule op params now)
        ]
      ]
      else err not_created_here

  -- `_check` at the time that the gate's clock shows; `none` is an argument that is no `WebOrigin`
  unfoldable pub check : ℕ → Option (WebOrigin D) → String → Params → Result Error (Unit {0})
  check now none op params = err not_an_origin
  check now (some o) op params = do
    guard (o.mac == env.hmac (origin o.kind o.op o.digest o.expires)) not_signed
    guard (ltb now o.expires) expired
    guard (o.op == op && o.digest == env.sha256 op params) different_operation

  -- `require`: the gate of this process, or `none` where the web service has not configured one
  unfoldable pub require :
      Bool → ℕ → Option (WebOrigin D) → String → Params → Result Error (Unit {0})
  require configured now o op params = if configured then check now o op params else err no_gate
