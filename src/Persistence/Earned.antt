-- ===== src/Persistence/Earned.antt =====
-- What must have happened before a store is in a state of its attachment.
use base_line_prox.Base.{
  String, true, ◌⊎◌, inl, inr, List, [], ◌∷◌, arith, string_eq, ok, err, Option-cases, ◌≡◌, ◌↔◌,
  contains,
}
use base_line_prox.Persistence.Attachment.{
  AttachmentState, absent, detected_unknown, recognized_locked, unlocked_untrusted,
  inspection_ready, import_proposed, authorized, attached, degraded, requires_recovery, state_eq,
  legal_transitions, no_legal_transition, find_transition, attempt_transition, is_legal_transition,
  all_events_from,
}

legal_listed :
    (current : AttachmentState) (event : String)
    → is_legal_transition current event ≡ contains (all_events_from current) event
unfolding is_legal_transition all_events_from state_eq
legal_listed absent event = ground arith
legal_listed detected_unknown event = ground arith
legal_listed recognized_locked event = ground arith
legal_listed unlocked_untrusted event = ground arith
legal_listed inspection_ready event = ground arith
legal_listed import_proposed event = ground arith
legal_listed authorized event = ground arith
legal_listed attached event = ground arith
legal_listed degraded event = ground arith
legal_listed requires_recovery event = ground arith

-- The three questions about a transition have one answer: an attempt succeeds exactly if the
-- transition is legal, which is so exactly for the events listed for the state.
pub attempt_iff_listed :
    (current : AttachmentState) (event : String)
    → (((next : AttachmentState) × (attempt_transition current event ≡ ok next))
        ↔ (is_legal_transition current event ≡ true))
      × (is_legal_transition current event ≡ contains (all_events_from current) event)
unfolding attempt_transition is_legal_transition
attempt_iff_listed current event = (
  elim (Option-cases (find_transition legal_transitions current event)) [
    | inl q ↦ ((λ (next, h). absurd (ground arith)), λ h. absurd (ground arith))
    | inr (next, q) ↦ ((λ h. ground arith), λ h. (next, ground arith))
  ],
  legal_listed current event,
)

-- the events since the device appeared, the latest first
abbrev pub with_event : AttachmentState → String → List String → List String
with_event absent e seen = []
with_event _ e seen = e ∷ seen

-- A store that is in a state, after the events since its device appeared.
pub data Attachment : AttachmentState → List String → Type 0 where
  start : Attachment absent []
  step :
      {s t : AttachmentState} {seen : List String} (e : String)
      → Attachment s seen
      → attempt_transition s e ≡ ok t
      → Attachment t (with_event s e seen)

pub record IsOpened (seen : List String) : Type 0 where
  pub recognized : contains seen "luks_header_recognized" ≡ true
  pub unlocked : contains seen "correct_key_supplied" ≡ true

pub record IsInspected (seen : List String) : Type 0 where
  pub opened : IsOpened seen
  pub parsed : contains seen "manifest_parses_known_schema" ≡ true

pub record IsTrusted (seen : List String) : Type 0 where
  pub inspected : IsInspected seen
  pub trusted :
      (contains seen "logical_identity_matches_trusted" ≡ true)
      ⊎ (contains seen "import_authorization_granted" ≡ true)

abbrev pub Earned : AttachmentState → List String → Type 0
Earned recognized_locked seen = contains seen "luks_header_recognized" ≡ true
Earned unlocked_untrusted seen = IsOpened seen
Earned inspection_ready seen = IsInspected seen
Earned import_proposed seen = IsInspected seen
Earned authorized seen = IsTrusted seen
Earned attached seen = IsTrusted seen
Earned degraded seen = IsTrusted seen
Earned _ seen = Unit

Earned-step :
    (s t : AttachmentState) (e : String) (seen : List String)
    → Earned s seen
    → attempt_transition s e ≡ ok t
    → Earned t (with_event s e seen)
unfolding attempt_transition state_eq
Earned-step absent t e seen h q = ground arith
Earned-step detected_unknown t e seen h q = ground arith
Earned-step recognized_locked t e seen h q = ground arith
Earned-step unlocked_untrusted t e seen h q = ground arith
Earned-step inspection_ready t e seen h q = ground arith
Earned-step import_proposed t e seen h q = ground arith
Earned-step authorized t e seen h q = ground arith
Earned-step attached t e seen h q = ground arith
Earned-step degraded t e seen h q = ground arith
Earned-step requires_recovery t e seen h q = ground arith

-- No state is reached unearned: since the device appeared, its header was recognized before it counts
-- as recognized, the correct key was supplied before it is unlocked, its manifest was parsed under a
-- known schema before it can be inspected, and its identity matched or a person's import was authorized
-- before it is authorized, attached or degraded.
pub states_are-Earned :
    {s : AttachmentState} {seen : List String} → Attachment s seen → Earned s seen
states_are-Earned start = tt
states_are-Earned (step {s} {t} {seen} e run q) = Earned-step s t e seen (states_are-Earned run) q

-- No event leads out of `requires_recovery`, and none but the appearance of a device out of `absent`.
pub dead_ends :
    (e : String)
    → (attempt_transition requires_recovery e ≡ err (no_legal_transition requires_recovery e))
      × ((t : AttachmentState)
          → attempt_transition absent e ≡ ok t
          → (e ≡ "device_appears") × (t ≡ detected_unknown))
unfolding attempt_transition state_eq
dead_ends e = (ground arith, λ t h. ground arith)
