-- ===== src/Persistence/Attachment.antt =====
-- The attachment state machine of baseline/lib/testpersistence/attachment.py.
use base_line_prox.Base.{
  String, Bool, true, false, ◌&&◌, Option, none, some, List, [], ◌∷◌, Eq, ◌==◌, string_eq,
  if◌then◌else◌, Result, ok, err,
}

pub data AttachmentState : Type 0 where
  absent detected_unknown recognized_locked unlocked_untrusted inspection_ready : AttachmentState
  import_proposed authorized attached degraded requires_recovery : AttachmentState

state_dec : Discrete AttachmentState
state_dec = hlevel

instance unfoldable pub state_eq : Eq AttachmentState
unfolding state_dec
state_eq = record { dec = state_dec }

pub record Transition : Type 0 where
  pub source : AttachmentState
  pub event : String
  pub target : AttachmentState

abbrev from : AttachmentState → String → AttachmentState → Transition
from s e t = record { source = s; event = e; target = t }

abbrev pub legal_transitions : List Transition
legal_transitions =
    from absent "device_appears" detected_unknown
    ∷ from detected_unknown "luks_header_recognized" recognized_locked
    ∷ from detected_unknown "unrecognized_or_corrupt_header" requires_recovery
    ∷ from recognized_locked "correct_key_supplied" unlocked_untrusted
    ∷ from unlocked_untrusted "manifest_parses_known_schema" inspection_ready
    ∷ from unlocked_untrusted "manifest_unreadable_or_newer_schema" requires_recovery
    ∷ from inspection_ready "logical_identity_differs" import_proposed
    ∷ from inspection_ready "logical_identity_matches_trusted" authorized
    ∷ from import_proposed "import_authorization_granted" authorized
    ∷ from import_proposed "import_authorization_declined" inspection_ready
    ∷ from authorized "broker_session_established" attached
    ∷ from attached "failure_mode_occurs" degraded
    ∷ from attached "clean_detach" absent
    ∷ from degraded "failure_not_self_resolving" requires_recovery
    ∷ from degraded "failure_clears" attached
    ∷ []

pub data TransitionError : Type 0 where
  no_legal_transition : AttachmentState → String → TransitionError

abbrev pub find_transition : List Transition → AttachmentState → String → Option AttachmentState
find_transition [] s e = none
find_transition (t ∷ ts) s e =
    if s == t.source && e == t.event then some t.target else find_transition ts s e

unfoldable pub attempt_transition :
    AttachmentState → String → Result TransitionError AttachmentState
attempt_transition current event = elim (find_transition legal_transitions current event) [
  | none ↦ err (no_legal_transition current event)
  | some next ↦ ok next
]

unfoldable pub is_legal_transition : AttachmentState → String → Bool
is_legal_transition current event = elim (find_transition legal_transitions current event) [
  | none ↦ false
  | some next ↦ true
]

abbrev pub events_from : List Transition → AttachmentState → List String
events_from [] s = []
events_from (t ∷ ts) s =
    let rest = events_from ts s in if t.source == s then t.event ∷ rest else rest

unfoldable pub all_events_from : AttachmentState → List String
all_events_from current = events_from legal_transitions current
