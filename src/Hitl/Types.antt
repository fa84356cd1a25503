-- ===== src/Hitl/Types.antt =====
-- The constants, records and small functions of baseline/lib/hitl.py.
-- Times are counted in microseconds. What the module takes from hashlib, json and the local
-- calendar is the record `Env`, with the check of the machine's secret, which is an argument of the
-- store's constructor. Request parameters and digests are of any types `P` and `D`.
use base_line_prox.Base.{
  ℕ, ◌*◌, String, ◌<>◌, Bool, none, some, List, [], ◌∷◌, ◌++◌, contains, string_eq,
}
use base_line_prox.Base.Dict.{Dict, keys, lookup}
use base_line_prox.Base.Text.{codes, upper, join_words, last, show_small}

abbrev pub second : ℕ
second = 1000000

abbrev pub authorization_use_window : ℕ
authorization_use_window = 120 * second

abbrev pub max_pending : ℕ
max_pending = 20

abbrev pub max_failed_attempts : ℕ
max_failed_attempts = 5

abbrev pub max_grant_minutes : ℕ
max_grant_minutes = 60

abbrev pub max_grant_uses : ℕ
max_grant_uses = 5

abbrev pub verbs : Dict String String
verbs =
    ("build_self_installer", "INSTALL")
    ∷ ("repair", "REPAIR")
    ∷ ("mount_volume", "MOUNT")
    ∷ ("unmount_volume", "UNMOUNT")
    ∷ ("update_selected", "UPDATE")
    ∷ ("stamp_installer_identity", "STAMP")
    ∷ ("lay_out_baseline_drive", "LAYOUT")
    ∷ ("enroll_drive", "ENROLL")
    ∷ []

-- `action_id in CONFIRMED_ACTIONS`
unfoldable pub is_confirmed : String → Bool
unfolding string_eq
is_confirmed action_id = contains (keys verbs) action_id

-- `action_id in NEVER_PRE_APPROVED`
unfoldable pub never_pre_approved : String → Bool
unfolding string_eq
never_pre_approved action_id =
    contains ("build_self_installer" ∷ "lay_out_baseline_drive" ∷ "enroll_drive" ∷ []) action_id

-- `VERBS[action_id]`; every caller has tested that the action is one of the keys
unfoldable pub verb_of : String → String
unfolding lookup string_eq
verb_of action_id = elim (lookup action_id verbs) [ none ↦ "" | some verb ↦ verb ]

-- `phrase_for`, as code points
unfoldable pub phrase_for : String → String → List ℕ
unfolding verb_of last
phrase_for action_id serial = codes (verb_of action_id <> " ") ++ upper (last 6 (codes serial))

-- the sentence that `grant` expects
unfoldable pub grant_sentence : String → String → ℕ → List ℕ
unfolding verb_of last show_small
grant_sentence action_id serial minutes =
    codes ("I AUTHORIZE " <> verb_of action_id <> " ")
    ++ (upper (last 6 (codes serial))
        ++ (codes " FOR " ++ (show_small minutes ++ codes " MINUTES")))

-- `_normalize`
unfoldable pub normalize : String → List ℕ
unfolding join_words
normalize text = upper (join_words (codes text))

pub data Kind : Type 0 where
  confirmation grant daily : Kind

-- `ConfirmationError.reason`
pub data Reason : Type 0 where
  unknown never_granted session too_fast phrase credential limits : Reason

pub data Error : Type 0 where
  value_error : Error
  confirmation_error : Reason → Error
  -- `ConfirmationRequired`
  none_given not_issued_here used_or_expired expired different_request : Error

-- A Python argument of which only an integer that is no boolean is accepted.
pub data Arg : Type 0 where
  natural : ℕ → Arg
  negative : ℕ → Arg
  boolean : Bool → Arg
  other : Arg

-- What is hashed: the sorted JSON of a request, or the text of a session's id.
pub data Blob (P : Type 0) : Type 0 where
  request_json : (a : String) (p : P) (s : String) → Blob P
  session_text : (id : String) → Blob P

-- The library functions that the module calls, and the store's `verify_secret`.
pub record Env (P D : Type 0) : Type 0 where
  -- `hashlib.sha256(...).hexdigest()`
  pub sha256 : Blob P → D
  -- `hmac.new(_SECRET, ...)` of nonce, digest, expiry and kind, joined by bars
  pub hmac : String → D → ℕ → Kind → D
  -- `time.strftime("%Y-%m-%d", time.localtime(now))`
  pub local_date : ℕ → String
  pub verify_secret : String → Bool

module _ {P D : Type 0} (env : Env P D) where
  abbrev pub request_digest : String → P → String → D
  request_digest action_id params serial = env.sha256 (request_json action_id params serial)

  -- `_mac`
  abbrev pub mac_of : String → D → ℕ → Kind → D
  mac_of nonce digest expires kind = env.hmac nonce digest expires kind

  -- `_who`
  abbrev pub who_of : String → D
  who_of id = env.sha256 (session_text id)

  abbrev pub day_key : ℕ → String
  day_key now = env.local_date now

pub record Challenge (P D : Type 0) : Type 0 where
  pub session : String
  pub action : String
  pub params : P
  pub serial : String
  pub digest : D
  pub phrase : List ℕ
  pub created : ℕ
  pub expires : ℕ
  pub failures : ℕ

pub record Grant : Type 0 where
  pub session : String
  pub action : String
  pub serial : String
  pub expires : ℕ
  pub uses_left : ℕ

pub record Daily : Type 0 where
  pub account : String
  pub action : String
  pub serial : String
  pub day : String

-- `ident` is the object's identity, which `is` compares; `store` that of the issuing store.
pub record Authorization (D : Type 0) : Type 0 where
  pub ident : ℕ
  pub store : ℕ
  pub nonce : String
  pub digest : D
  pub expires : ℕ
  pub kind : Kind
  pub mac : D

-- The audit records.
pub data Event (D : Type 0) : Type 0 where
  challenged : (id action serial : String) (who : D) → Event D
  confirm_failed : (id : String) (reason : Reason) (who : D) → Event D
  daily_authorized : (id action serial account day : String) → Event D
  confirmed : (id action serial : String) (who : D) → Event D
  authorization_used : (action serial : String) (kind : Kind) → Event D
  grant_failed : (reason : Reason) (who : D) → Event D
  grant_created : (id action serial : String) (minutes max_uses : ℕ) (who : D) → Event D
  grant_used : (id action serial : String) (uses_left : ℕ) (who : D) → Event D
  daily_used : (id action serial account : String) → Event D
  daily_revoked : (id : String) → Event D
  grant_revoked : (id : String) → Event D

pub record Store (P D : Type 0) : Type 0 where
  pub ident : ℕ
  pub ttl : ℕ
  pub min_wait : ℕ
  pub pending : Dict String (Challenge P D)
  pub grants : Dict String Grant
  pub live : Dict String (Authorization D)
  pub daily : Dict String Daily
  pub audit : List (Event D)

-- What one call draws: `secrets.token_urlsafe` for an entry's key and for a nonce, and the
-- identity of the object that it allocates.
pub record Draw : Type 0 where
  pub key : String
  pub nonce : String
  pub ident : ℕ
