-- ===== src/FirstBoot/Legal.antt =====
-- What may be done when, in a run of the first boot: the predicates.
use base_line_prox.Base.{
  String, Bool, true, false, some, List, [], ◌∷◌, ◌++◌, ◌==◌, ◌≡◌, ◌≢◌, refl, arith, All, ok,
  if◌then◌else◌, string_eq, All-append,
}
use base_line_prox.FirstBoot.Journal.{
  State, new, confirmed, proposed, network_repaired, packages_installed, packages_verified,
  committed, state_eq, Detail, StageResult, stage, Entry, Journal, require_evidence, last_entry,
  next_journal, record_transition,
}
use base_line_prox.FirstBoot.Machine.{
  Effect, wrote, marked, asked, resets_interface, adds_dhcp, installs_tools, verifies_tools,
  Machine, Flow, going, stops, raises, ◌▷◌,
}

abbrev pub Has : State → List Entry → Type 0
Has s h = (e : Entry) × (last_entry s h ≡ some e)

-- the latest entry of the state is of a stage that succeeded
abbrev pub HasOk : State → List Entry → Type 0
HasOk s h =
    (e : Entry) × (r : StageResult) × (last_entry s h ≡ some e)
    × (e.detail ≡ stage r)
    × (r.ok ≡ true)

-- what a history holds in a state
abbrev pub Facts : State → List Entry → Type 0
Facts confirmed h = Has confirmed h
Facts network_repaired h = Has confirmed h × Has network_repaired h
Facts packages_installed h = Has confirmed h × Has network_repaired h
Facts packages_verified h = Has confirmed h × Has network_repaired h × HasOk packages_installed h
Facts committed h =
    Has confirmed h
    × Has network_repaired h
    × HasOk packages_installed h
    × HasOk packages_verified h
Facts _ h = Unit

abbrev pub IsGenuine : Entry → Type 0
IsGenuine e = e.state ≡ network_repaired → require_evidence e.detail ≡ ok tt

-- Every entry of a repaired network has its evidence, and the journal's state is earned.
pub record IsSound (j : Journal) : Type 0 where
  pub genuine : All IsGenuine j.history
  pub facts : Facts j.state j.history

-- the journal on disk after the effects, and whether the last thing was a person's confirmation
abbrev pub on_disk : Journal → List Effect → Journal
on_disk j [] = j
on_disk j (wrote k ∷ es) = k
on_disk j (_ ∷ es) = on_disk j es

abbrev pub consent : List Effect → Bool
consent (asked b ∷ es) = b
consent _ = false

-- What an effect needs, of the journal that is on disk at the time.
abbrev pub Allowed : Journal → Bool → Effect → Type 0
Allowed cur consents (wrote j) =
    IsSound j × (j.state ≡ confirmed → (consents ≡ true) × (cur.state ≡ proposed))
Allowed cur consents marked = (cur.state ≡ packages_verified) × HasOk packages_verified cur.history
Allowed cur consents (resets_interface target) = cur.state ≡ confirmed
Allowed cur consents (adds_dhcp target) = cur.state ≡ confirmed
Allowed cur consents installs_tools = cur.state ≡ network_repaired
Allowed cur consents verifies_tools =
    (cur.state ≡ packages_installed) × HasOk packages_installed cur.history
Allowed cur consents _ = Unit

-- Every effect was allowed when it was done; the trace has the latest first.
abbrev pub IsLegal : Journal → List Effect → Type 0
IsLegal j [] = Unit
IsLegal j (e ∷ es) = Allowed (on_disk j es) (consent es) e × IsLegal j es

pub record IsGood (j : Journal) (m : Machine) : Type 0 where
  pub legal : IsLegal j m.trace
  pub disk : on_disk j m.trace ≡ m.journal
  pub sound : IsSound m.journal

abbrev pub FlowGood : Journal → Flow → Type 0
FlowGood j (going m) = IsGood j m
FlowGood j (stops o m) = IsGood j m
FlowGood j (raises e m) = IsGood j m

pub FlowGood-next :
    (j : Journal) (f : Flow) (next : Machine → Flow)
    → FlowGood j f
    → ((m : Machine) → IsGood j m → FlowGood j (next m))
    → FlowGood j (f ▷ next)
FlowGood-next j (going m) next h k = k m h
FlowGood-next j (stops o m) next h k = h
FlowGood-next j (raises e m) next h k = h

pub last_entry-snoc :
    (s : State) (h : List Entry) (e : Entry)
    → last_entry s (h ++ e ∷ []) ≡ (if e.state == s then some e else last_entry s h)
unfolding last_entry
last_entry-snoc s [] e = refl
last_entry-snoc s (x ∷ h) e = ground (arith, last_entry-snoc s h e)

pub record_ok :
    (ts : String) (s : State) (d : Detail) (j k : Journal)
    → record_transition ts s d j ≡ ok k
    → (k ≡ next_journal ts s d j) × (s ≢ new) × (s ≡ network_repaired → require_evidence d ≡ ok tt)
unfolding record_transition
record_ok ts new d j k h = absurd (unfold state_eq in ground arith)
record_ok ts network_repaired d j k h =
    (unfold state_eq in ground arith, ground arith, unfold state_eq in ground arith)
record_ok ts s d j k h = (unfold state_eq in ground arith, ground arith, ground arith)

pub next-IsSound :
    (ts : String) (s : State) (d : Detail) (j : Journal)
    → IsSound j
    → (s ≡ network_repaired → require_evidence d ≡ ok tt)
    → Facts s (next_journal ts s d j).history
    → IsSound (next_journal ts s d j)
unfolding next_journal
next-IsSound ts s d j sound evidence facts = record {
  genuine = All-append IsGenuine j.history _ sound.genuine (evidence, tt);
  facts = facts;
}
