-- ===== src/FirstBoot/Journal.antt =====
-- The journal of baseline/lib/firstboot_statemachine.py: its states, its entries, the evidence that the
-- state `network_repaired` requires, and how it is read back.
-- An entry's keyword arguments are a `Detail`: one constructor for each set of keywords that the module
-- records. What it only prints or hands on is a text. A journal without a history is read as one with
-- an empty history: the code raises where it looks for an entry of either.
use base_line_prox.Base.{
  String, Bool, true, false, not, Option, none, some, List, [], ◌∷◌, ◌++◌, Eq, ◌==◌, string_eq,
  Result, ok, err, guard, ◌>>◌, if◌then◌else◌, all,
}
use base_line_prox.Base.Dict.{Dict, values}

pub data State : Type 0 where
  new created detected discovered proposed confirmed network_repaired : State
  network_repair_failed packages_installed packages_verified committed : State

state_dec : Discrete State
state_dec = hlevel

instance unfoldable pub state_eq : Eq State
unfolding state_dec
state_eq = record { dec = state_dec }

-- a value of which the code asks only whether it `is True`
pub data Check : Type 0 where
  is_true is_false other : Check

pub record Discovery : Type 0 where
  pub lifeline_ok : Bool
  pub facts : String

pub record Diagnosis : Type 0 where
  pub needs_repair : Bool
  pub mode : Option String
  pub target : Option String
  pub reason : String

-- `network_ok` is `other` and the rest `none` where the keyword is missing; a `verification` that is no
-- dict is `none`
pub record Evidence : Type 0 where
  pub network_ok : Check
  pub target_interface : Option String
  pub verification : Option (Dict String Check)

pub record StageResult : Type 0 where
  pub ok : Bool
  pub detail : String

pub data Detail : Type 0 where
  nothing : Detail
  detection : (installed : Bool) (version evidence : String) → Detail
  discovery : Discovery → Detail
  diagnosis : Diagnosis → Detail
  network : Evidence → (network_detail : String) → Detail
  failure : (network_detail : String) → Detail
  stage : StageResult → Detail

pub record Entry : Type 0 where
  pub state : State
  pub ts : String
  pub detail : Detail

pub record Journal : Type 0 where
  pub state : State
  pub history : List Entry

pub data Error : Type 0 where
  unknown_state no_network_ok no_target no_verification unverified : Error
  stop_iteration key_error : Error

abbrev pub is_given : Option String → Bool
is_given none = false
is_given (some s) = not (s == "")

abbrev pub passed : Check → Bool
passed c = elim c [ is_true ↦ true | _ ↦ false ]

-- `isinstance(verification, dict) and verification`, that is, a dict that is not empty
abbrev checks_of : Option (Dict String Check) → List Check
checks_of none = []
checks_of (some d) = values d

abbrev pub evidence_of : Detail → Evidence
evidence_of (network e text) = e
evidence_of _ = record { network_ok = other; target_interface = none; verification = none }

-- `_require_genuine_network_repaired_evidence`
unfoldable pub require_evidence : Detail → Result Error (Unit {0})
require_evidence d =
    let e = evidence_of d in
    guard (passed e.network_ok) no_network_ok
    >> guard (is_given e.target_interface) no_target
    >> elim (checks_of e.verification) [
      | [] ↦ err no_verification
      | c ∷ cs ↦ guard (all passed (c ∷ cs)) unverified
    ]

-- `_last`: the latest entry of a state
unfoldable pub last_entry : State → List Entry → Option Entry
last_entry s [] = none
last_entry s (e ∷ es) = elim (last_entry s es) [
  | some later ↦ some later
  | none ↦ if e.state == s then some e else none
]

-- journal.json as it is found: `unreadable` is one that is no JSON, no object, or has no known state
pub data JournalFile : Type 0 where
  missing unreadable : JournalFile
  readable : Journal → JournalFile

abbrev pub empty_journal : Journal
empty_journal = record { state = new; history = [] }

unfoldable pub load_journal : JournalFile → Journal
load_journal missing = empty_journal
load_journal unreadable = empty_journal
load_journal (readable j) = j

-- the journal that `record_transition` writes
unfoldable pub next_journal : String → State → Detail → Journal → Journal
next_journal ts state detail j = record {
  state = state;
  history = j.history ++ record { state = state; ts = ts; detail = detail } ∷ [];
}

unfoldable pub record_transition : String → State → Detail → Journal → Result Error Journal
unfolding require_evidence next_journal
record_transition ts state detail j = do
  guard (not (state == new)) unknown_state
  elim state [ network_repaired ↦ require_evidence detail | _ ↦ ok tt ]
  ok (next_journal ts state detail j)

-- the keyword that a stage reads back from the latest entry of a state
abbrev pub find_last : State → Journal → Result Error Entry
find_last s j = elim (last_entry s j.history) [ none ↦ err stop_iteration | some e ↦ ok e ]

unfoldable pub last_discovery : Journal → Result Error Discovery
last_discovery j = elim (find_last discovered j) [
  | err x ↦ err x
  | ok e ↦ elim e.detail [ discovery d ↦ ok d | _ ↦ err key_error ]
]

unfoldable pub last_diagnosis : Journal → Result Error Diagnosis
last_diagnosis j = elim (find_last proposed j) [
  | err x ↦ err x
  | ok e ↦ elim e.detail [ diagnosis d ↦ ok d | _ ↦ err key_error ]
]

unfoldable pub last_detection : Journal → Result Error Bool
last_detection j = elim (find_last detected j) [
  | err x ↦ err x
  | ok e ↦ elim e.detail [ detection installed v t ↦ ok installed | _ ↦ err key_error ]
]

unfoldable pub last_failure : Journal → Result Error String
last_failure j = elim (find_last network_repair_failed j) [
  | err x ↦ err x
  | ok e ↦ elim e.detail [ failure t ↦ ok t | _ ↦ err key_error ]
]

unfoldable pub last_stage : State → Journal → Result Error StageResult
last_stage s j = elim (find_last s j) [
  | err x ↦ err x
  | ok e ↦ elim e.detail [ stage r ↦ ok r | _ ↦ err key_error ]
]
