-- ===== src/Hitl/Tests.antt =====
-- A confirmation from challenge to use, and the theorems at it.
use base_line_prox.Base.{
  ok, err, ℕ, ◌+◌, ◌*◌, ◌<◌, ◌≡◌, refl, String, none, some, List, [], ◌∷◌, arith, Eq, ◌==◌,
  string_eq, codes_eq, if◌then◌else◌, ltb,
}
use native.Mathlib.Decide.{ℕ_discrete}
use base_line_prox.Base.Dict.{lookup, insert}
use base_line_prox.Hitl.Types.{
  request_json, session_text, second, authorization_use_window, is_confirmed, never_pre_approved,
  phrase_for, normalize, Kind, phrase, confirmation, Env, Challenge, Authorization, Store, Draw,
  expired, confirmation_error,
}
use base_line_prox.Hitl.Operations.{prune, challenge, confirm, confirm_found, accept}
use base_line_prox.Hitl.Approvals.{require, authorization_from_grant, authorization_from_daily}
use base_line_prox.Hitl.Calls.{challenges, confirms, Timed, perform, run}
use base_line_prox.Hitl.Sound.{IsSound}
use base_line_prox.Hitl.Invariant.{run-IsSound}
use base_line_prox.Hitl.Confirmed.{IsConfirmed, confirm_ok}
use base_line_prox.Hitl.Approved.{never_without_person, confirmed_runs}

-- digests that are told apart by what they were made of
data Token : Type 0 where
  request : String → ℕ → String → Token
  signed : String → Token → ℕ → Kind → Token
  person : String → Token

Token-discrete : Discrete Token
Token-discrete = hlevel (ℕ_discrete, string_eq.dec)

instance abbrev token_eq : Eq Token
token_eq = record { dec = Token-discrete }

abbrev toy : Env ℕ Token
toy = record {
  sha256 = λ b. elim b [ request_json a p s ↦ request a p s | session_text id ↦ person id ];
  hmac = signed;
  local_date = λ now. "today";
  verify_secret = λ secret. secret == "hunter2";
}

abbrev start : Store ℕ Token
start = record {
  ident = 1;
  ttl = 300 * second;
  min_wait = 3 * second;
  pending = [];
  grants = [];
  live = [];
  daily = [];
  audit = [];
}

abbrev draw : Draw
draw = record { key = "c1"; nonce = "n1"; ident = 7 }

abbrev asked : Challenge ℕ Token
asked = record {
  session = "web";
  action = "repair";
  params = 5;
  serial = "SN10ap4e";
  digest = request "repair" 5 "SN10ap4e";
  phrase = phrase_for "repair" "SN10ap4e";
  created = 0;
  expires = 300 * second;
  failures = 0;
}

waiting : Store ℕ Token
unfolding challenge prune is_confirmed insert string_eq
waiting = (challenge toy 0 draw "web" "repair" 5 "SN10ap4e" start).0

waiting_asked : lookup "c1" (prune toy (4 * second) waiting).pending ≡ some asked
unfolding waiting lookup
waiting_asked = refl

abbrev proof : Authorization Token
proof = record {
  ident = 7;
  store = 1;
  nonce = "n1";
  digest = request "repair" 5 "SN10ap4e";
  expires = 124 * second;
  kind = confirmation;
  mac = signed "n1" (request "repair" 5 "SN10ap4e") (124 * second) confirmation;
}

confirms_now :
    (confirm toy (4 * second) draw "web" "c1" " repair  10AP4e" "hunter2" none waiting).1 ≡ ok proof
unfolding waiting confirm confirm_found accept lookup normalize phrase_for codes_eq
confirms_now = refl

start-IsSound : IsSound toy start
start-IsSound = record { few = omega arith; asked = tt; allowed = tt; issued = tt; days = tt }

abbrev script : List (Timed ℕ Token)
script =
    record { now = 0; draw = draw; call = challenges "web" "repair" 5 "SN10ap4e" }
    ∷ record {
      now = 4 * second;
      draw = draw;
      call = confirms "web" "c1" " repair  10AP4e" "hunter2" none;
    }
    ∷ []

run-IsSound_example : IsSound toy (run toy start script)
run-IsSound_example = run-IsSound toy start script start-IsSound

waiting-IsSound : IsSound toy waiting
unfolding waiting run perform
waiting-IsSound =
    run-IsSound toy start
      (record { now = 0; draw = draw; call = challenges "web" "repair" 5 "SN10ap4e" } ∷ [])
      start-IsSound

confirmed : Store ℕ Token
confirmed = (confirm toy (4 * second) draw "web" "c1" " repair  10AP4e" "hunter2" none waiting).0

confirm_ok_example :
    (r : Challenge ℕ Token) × (lookup "c1" (prune toy (4 * second) waiting).pending ≡ some r)
    × (4 * second < r.expires)
    × IsConfirmed toy
        (4 * second)
        "web"
        "c1"
        " repair  10AP4e"
        "hunter2"
        none
        r
        confirmed
        proof
        waiting.min_wait
unfolding confirmed
confirm_ok_example =
    confirm_ok toy (4 * second) draw "web" "c1" " repair  10AP4e" "hunter2" none waiting proof
      confirms_now

confirmed_runs_example :
    (r : Challenge ℕ Token) × (lookup "c1" (prune toy (4 * second) waiting).pending ≡ some r)
    × ((require toy (100 * second) (some proof) r.action r.params r.serial confirmed).1 ≡ (
        if ltb (100 * second) (4 * second + authorization_use_window) then ok tt else err expired))
unfolding confirmed
confirmed_runs_example =
    confirmed_runs toy (4 * second) draw "web" "c1" " repair  10AP4e" "hunter2" none waiting proof
      waiting-IsSound confirms_now (100 * second)

request_injective :
    (a b : String) (p q : ℕ) (x y : String)
    → request a p x ≡ request b q y
    → (a ≡ b) × (p ≡ q) × (x ≡ y)
request_injective a b p q x y h = ground arith

wrong_phrase :
    (confirm toy (4 * second) draw "web" "c1" "repair" "hunter2" none waiting).1
    ≡ err (confirmation_error phrase)
unfolding waiting confirm confirm_found lookup normalize phrase_for codes_eq
wrong_phrase = refl

never_without_person_example :
    ((authorization_from_grant toy 0 draw "web" "enroll_drive" 5 "SN" start).1 ≡ none)
    × ((authorization_from_daily toy 0 draw "web" "enroll_drive" 5 "SN" start).1 ≡ none)
unfolding never_pre_approved
never_without_person_example =
    never_without_person toy 0 draw "web" "enroll_drive" 5 "SN" start start-IsSound refl
