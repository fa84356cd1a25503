-- ===== src/FirstBoot/Steps.antt =====
-- How a run of the first boot goes on from a repaired network, step by step.
use base_line_prox.Base.{
  String, Bool, true, false, not, ◌&&◌, Option, none, some, ◌∷◌, ◌==◌, ◌≡◌, refl, arith, ok, err,
  if◌then◌else◌, Result-cases, inl, inr, string_eq, option_eq,
}
use base_line_prox.FirstBoot.Journal.{
  State, network_repaired, packages_installed, packages_verified, committed, state_eq, Diagnosis,
  Detail, StageResult, stage, Entry, Journal, nothing, Error, require_evidence, next_journal,
  record_transition, last_stage, network,
}
use base_line_prox.FirstBoot.Machine.{
  wrote, marked, installs_tools, verifies_tools, act, RepairResult, World, Outcome, declined,
  refused, network_failed, packages_failed, packages_verify_failed, Machine, Flow, going, stops,
  raises, records, ◌▷◌,
}
use base_line_prox.FirstBoot.Legal.{last_entry-snoc}
use base_line_prox.FirstBoot.Stages.{
  after_repair, resume_failed, install, verify, commit, network_evidence, healthy, healthy_target,
  healthy_result, finish,
}

abbrev pub outcome_of : Flow → Option Outcome
outcome_of (going m) = none
outcome_of (stops o m) = some o
outcome_of (raises e m) = none

-- what the run proposes, and what becomes of the repair that it proposes
abbrev pub proposal : World → Diagnosis
proposal w = if w.discover.lifeline_ok then healthy w else w.diagnose w.discover

abbrev pub repaired : World → Diagnosis → Option String × RepairResult
repaired w d =
    if d.needs_repair
    then if d.mode == some "replace"
      then (d.target, w.reset_interface d.target)
      else (d.target, w.add_dhcp d.target)
    else (healthy_target w w.discover, healthy_result w w.discover)

abbrev pub is_evident : World → Option String × RepairResult → Bool
is_evident w (target, r) =
    elim (require_evidence (network (network_evidence w target r.verification) r.detail)) [
      | ok done ↦ true
      | err e ↦ false
    ]

-- how a first run ends, by what the machine and the person answer; `none` is an error that is raised
abbrev pub expected_end : World → Option Outcome
expected_end w =
    let d = proposal w in
    let r = repaired w d in
    if d.needs_repair && d.mode == none
    then some (refused d.reason)
    else if not w.confirms
    then some declined
    else if not r.1.ok
    then some (network_failed r.1.detail)
    else if not (is_evident w r)
    then none
    else if not w.install_tools.ok
    then some (packages_failed w.install_tools.detail)
    else if not w.verify_tools.ok
    then some (packages_verify_failed w.verify_tools.detail)
    else some Outcome.committed

pub record_evident :
    (ts : String) (d : Detail) (j : Journal)
    → require_evidence d ≡ ok tt
    → record_transition ts network_repaired d j ≡ ok (next_journal ts network_repaired d j)
unfolding record_transition state_eq
record_evident ts d j h = ground arith

pub record_refused :
    (ts : String) (d : Detail) (j : Journal) (e : Error)
    → require_evidence d ≡ err e
    → record_transition ts network_repaired d j ≡ err e
unfolding record_transition state_eq
record_refused ts d j e h = ground arith

-- after a transition that is recorded
abbrev pub recorded : World → State → Detail → Machine → Machine
recorded w s d m = record {
  journal = next_journal (w.ts s) s d m.journal;
  trace = wrote (next_journal (w.ts s) s d m.journal) ∷ m.trace;
}

pub records_evident :
    (w : World) (d : Detail) (m : Machine)
    → require_evidence d ≡ ok tt
    → records w network_repaired d m ≡ going (recorded w network_repaired d m)
unfolding records
records_evident w d m h = rw (record_evident (w.ts network_repaired) d m.journal h, records) refl

pub records_refused :
    (w : World) (d : Detail) (m : Machine) (e : Error)
    → require_evidence d ≡ err e
    → records w network_repaired d m ≡ raises e m
unfolding records
records_refused w d m e h =
    rw (record_refused (w.ts network_repaired) d m.journal e h, records) refl

pub last_stage-next :
    (ts : String) (s : State) (r : StageResult) (j : Journal)
    → last_stage s (next_journal ts s (stage r) j) ≡ ok r
unfolding last_stage next_journal state_eq
last_stage-next ts s r j =
    let e : Entry = record { state = s; ts = ts; detail = stage r } in
    let latest = last_entry-snoc s j.history e in ground arith

-- how a run ends from a repaired network on
abbrev pub tools_end : World → Option Outcome
tools_end w =
    if not w.install_tools.ok
    then some (packages_failed w.install_tools.detail)
    else if not w.verify_tools.ok
    then some (packages_verify_failed w.verify_tools.detail)
    else some Outcome.committed

-- the rest of a run
abbrev pub from_repair : World → Flow → Flow
from_repair w f = f ▷ resume_failed w ▷ install w ▷ verify w ▷ commit w ▷ finish w

pub install_step :
    (w : World) (m : Machine)
    → m.journal.state ≡ network_repaired
    → install w m ≡ (
        let n = recorded w packages_installed (stage w.install_tools) (act installs_tools m) in
        if w.install_tools.ok then going n else stops (packages_failed w.install_tools.detail) n)
unfolding install records record_transition state_eq
install_step w m at = rw (at, install) refl

pub verify_step :
    (w : World) (m : Machine) (r : StageResult)
    → m.journal.state ≡ packages_installed
    → last_stage packages_installed m.journal ≡ ok r
    → r.ok ≡ true
    → verify w m ≡ (
        let n = recorded w packages_verified (stage w.verify_tools) (act verifies_tools m) in
        if w.verify_tools.ok
        then going n
        else stops (packages_verify_failed w.verify_tools.detail) n)
unfolding verify records record_transition state_eq last_stage
verify_step w m r at h good = rw (at, h, good, verify) refl

pub commit_step :
    (w : World) (m : Machine) (r : StageResult)
    → m.journal.state ≡ packages_verified
    → last_stage packages_verified m.journal ≡ ok r
    → r.ok ≡ true
    → commit w m ≡ going (recorded w committed nothing (act marked m))
unfolding commit records record_transition state_eq last_stage
commit_step w m r at h good = rw (at, h, good, commit) refl

pub resume_step :
    (w : World) (m : Machine) → m.journal.state ≡ network_repaired → resume_failed w m ≡ going m
unfolding resume_failed state_eq
resume_step w m at = rw (at, resume_failed) refl

-- a run that splits on a test, and goes on in both cases
pub branch :
    (b : Bool) (good bad : Flow) (rest : Flow → Flow) (x y : Option Outcome)
    → (b ≡ true → outcome_of (rest good) ≡ x)
    → outcome_of (rest bad) ≡ y
    → outcome_of (rest (if b then good else bad)) ≡ (if not b then y else x)
branch true good bad rest x y h k = h refl
branch false good bad rest x y h k = k

pub from_repaired :
    (w : World) (m : Machine)
    → m.journal.state ≡ network_repaired
    → outcome_of (from_repair w (going m)) ≡ tools_end w
from_repaired w m at =
    let i = act installs_tools m in
    let n = recorded w packages_installed (stage w.install_tools) i in
    let v = act verifies_tools n in
    let p = recorded w packages_verified (stage w.verify_tools) v in
    let i_last =
      last_stage-next (w.ts packages_installed) packages_installed w.install_tools i.journal in
    let v_last =
      last_stage-next (w.ts packages_verified) packages_verified w.verify_tools v.journal in
    let n_at : n.journal.state ≡ packages_installed = unfold next_journal in refl in
    let p_at : p.journal.state ≡ packages_verified = unfold next_journal in refl in
    rw (resume_step w m at, install_step w m at)
      (branch w.install_tools.ok (going n) (stops (packages_failed w.install_tools.detail) n)
        (λ f. f ▷ verify w ▷ commit w ▷ finish w) _ _
        (λ q. rw (verify_step w n w.install_tools n_at i_last q) (
          branch w.verify_tools.ok (going p)
            (stops (packages_verify_failed w.verify_tools.detail) p) (λ f. f ▷ commit w ▷ finish w)
            _ _ (λ k. rw (commit_step w p w.verify_tools p_at v_last k) refl) refl))
        refl)

pub is_evident-true :
    (w : World) (target : Option String) (r : RepairResult)
    → require_evidence (network (network_evidence w target r.verification) r.detail) ≡ ok tt
    → is_evident w (target, r) ≡ true
is_evident-true w target r h = rw (h, is_evident) refl

pub is_evident-false :
    (w : World) (target : Option String) (r : RepairResult) (e : Error)
    → require_evidence (network (network_evidence w target r.verification) r.detail) ≡ err e
    → is_evident w (target, r) ≡ false
is_evident-false w target r e h = rw (h, is_evident) refl

pub fresh_network :
    (w : World) (m : Machine) (target : Option String) (r : RepairResult)
    → outcome_of (from_repair w (after_repair w target r m)) ≡ (
        if not r.ok
        then some (network_failed r.detail)
        else if not (is_evident w (target, r))
        then none
        else tools_end w)
unfolding after_repair
fresh_network w m target r =
    let d = network (network_evidence w target r.verification) r.detail in
    branch r.ok (records w network_repaired d m) _ (from_repair w) _ _
      (λ q. elim (Result-cases (require_evidence d)) [
        | inl (done, e) ↦
            rw (records_evident w d m e, is_evident-true w target r e)
              (from_repaired w (recorded w network_repaired d m) (unfold next_journal in refl))
        | inr (x, e) ↦ rw (records_refused w d m x e, is_evident-false w target r x e) refl
      ])
      (unfold records record_transition state_eq in refl)
