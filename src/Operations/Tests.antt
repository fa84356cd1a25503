-- ===== src/Operations/Tests.antt =====
-- A schedule from its form to the run that it starts, and the theorems of the gate and of the
-- operations at it.
use native.Mathlib.Decide.{ℕ_discrete}
use base_line_prox.Base.{
  ok, err, ℕ, ◌+◌, ◌*◌, ◌<◌, ◌≡◌, ◌↔◌, refl, String, Bool, true, false, none, some, [], ◌∷◌, arith,
  Eq, ◌==◌, string_eq, nat_eq, option_eq, if◌then◌else◌, ltb, All,
}
use base_line_prox.Base.Dict.{Dict, lookup, insert, erase}
use base_line_prox.Hitl.Types.{second, is_confirmed}
use base_line_prox.WebGate.Gate.{
  origin_ttl, boolean, Params, Env, Message, origin, WebOrigin, Kind, Stored, expired, micro,
  role_permits, Sessions, find_session, sign_origin, require_login, sign_schedule,
  origin_for_schedule, is_signed, require,
}
use base_line_prox.WebGate.Origins.{require_iff}
use base_line_prox.WebGate.Schedules.{signed_schedule_runs}
use base_line_prox.Operations.Catalog.{find_operation, override, validate, as_params, Outcome}
use base_line_prox.Operations.Scheduler.{Saved, set_schedule, tick}
use base_line_prox.Operations.Ticks.{IsStarted, tick_starts}

data Token : Type 0 where
  hashed : String → Params → Token
  signed_origin : Kind → String → Token → ℕ → Token
  signed_schedule : String → Token → ℕ → ℕ → Token

Token-discrete : Discrete Token
Token-discrete = hlevel (ℕ_discrete, string_eq.dec)

instance abbrev token_eq : Eq Token
token_eq = record { dec = Token-discrete }

abbrev seal : Message Token → Token
seal (origin kind op d expires) = signed_origin kind op d expires
seal (Message.schedule op d every created) = signed_schedule op d every created

abbrev toy : Env Token
toy = record { sha256 = hashed; hmac = seal }

seal_injective : (x y : Message Token) → seal x ≡ seal y → x ≡ y
seal_injective (origin k a d n) (origin l b f m) h = ground arith
seal_injective (origin k a d n) (Message.schedule b f m c) h = cc
seal_injective (Message.schedule b f m c) (origin k a d n) h = cc
seal_injective (Message.schedule a d n c) (Message.schedule b f m e) h = ground arith

hashed_injective : (a b : String) (p q : Params) → hashed a p ≡ hashed b q → (a ≡ b) × (p ≡ q)
hashed_injective a b p q h = ground arith

abbrev sessions : Sessions
sessions token now = if token == "t1" then some "admin" else none

abbrev form : Params
form = ("dry_run", boolean true) ∷ []

abbrev clean : Dict String Bool
clean = ("dry_run", true) ∷ ("force", false) ∷ []

abbrev hour : ℕ
hour = 3600 * second

abbrev kept : Stored Token
kept = record {
  op = some "backup_offdrive";
  params = some (as_params clean);
  every = some 24000000;
  created = some 5;
  sig =
      some
        (signed_schedule "backup_offdrive" (hashed "backup_offdrive" (as_params clean)) 24000000 5);
}

signs :
    sign_schedule toy sessions (some "t1") "backup_offdrive" (as_params clean) (micro 24000000) 5
    ≡ ok kept
unfolding sign_schedule require_login role_permits is_confirmed string_eq as_params
signs = refl

abbrev empty : Saved Token
empty = record { schedules = []; last_run = [] }

abbrev file : Saved Token
file = record { schedules = kept ∷ []; last_run = [] }

sets :
    set_schedule toy sessions (some "t1") "backup_offdrive" form (micro 24000000) 5 empty ≡ ok file
unfolding set_schedule find_operation validate override insert erase sign_schedule require_login
    role_permits is_confirmed string_eq as_params
sets = refl

signed_schedule_runs_example :
    (is_confirmed "backup_offdrive" ≡ false)
    × ((role : String) × (find_session sessions (some "t1") 5 ≡ some role)
        × (role_permits role "backup_offdrive" (as_params clean) ≡ true))
    × ((every : ℕ) × (micro 24000000 ≡ micro every) × (0 < every) × (kept.every ≡ some every))
    × ((o : WebOrigin Token) × (origin_for_schedule toy kept 100 ≡ ok o)
        × (require toy true 200 (some o) "backup_offdrive" (as_params clean)
            ≡ (if ltb 200 (100 + origin_ttl) then ok tt else err expired)))
signed_schedule_runs_example =
    signed_schedule_runs toy sessions (some "t1") "backup_offdrive" (as_params clean)
      (micro 24000000) 5 100 200 kept signs

abbrev edited : Stored Token
edited = record kept { created = some 5 }

yields :
    origin_for_schedule toy edited 100
    ≡ ok (sign_origin toy Kind.schedule "backup_offdrive" (as_params clean) 100)
unfolding origin_for_schedule is_signed as_params string_eq nat_eq Token-discrete ℕ_discrete
yields = refl

tick_starts_example : All (IsStarted toy 7 (tick toy 7 file).0.last_run) (tick toy 7 file).1
tick_starts_example = tick_starts toy 7 file

abbrev ran : Saved Token
ran = record file { last_run = ("backup_offdrive", 7) ∷ [] }

ran_at : lookup "backup_offdrive" ran.last_run ≡ some 7
unfolding lookup string_eq
ran_at = refl

abbrev asked : WebOrigin Token
asked = record {
  kind = Kind.session;
  op = "backup_verify";
  digest = hashed "backup_verify" [];
  expires = 5 + origin_ttl;
  mac = signed_origin Kind.session "backup_verify" (hashed "backup_verify" []) (5 + origin_ttl);
}

require_iff_example : (require toy true 9 (some asked) "backup_verify" [] ≡ ok tt) ↔ (
    (◌≡◌ {A = Bool} true true)
    × (asked.mac ≡ seal (origin asked.kind asked.op asked.digest asked.expires))
    × (9 < asked.expires)
    × (asked.op ≡ "backup_verify")
    × (asked.digest ≡ hashed "backup_verify" []))
require_iff_example = require_iff toy true 9 asked "backup_verify" []

validates : validate "backup_offdrive" form ≡ ok clean
unfolding find_operation validate override insert string_eq
validates = refl

abbrev bodies : String → Dict String Bool → Outcome
bodies op params = Outcome.backup_error
