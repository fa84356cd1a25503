-- ===== src/FirstBoot/Outcomes.antt =====
-- How a run of the first boot ends.
use base_line_prox.Base.{
  String, Bool, true, false, not, ◌&&◌, Option, none, some, [], ◌==◌, ◌≡◌, ◌⊎◌, refl, sym, ap, ◌∙◌,
  ok, if◌then◌else◌, Bool-cases, Result-cases, inl, inr, string_eq, option_eq,
}
use base_line_prox.FirstBoot.Journal.{
  State, created, detected, discovered, proposed, confirmed, network_repair_failed,
  packages_installed, packages_verified, state_eq, Diagnosis, StageResult, Journal, nothing,
  detection, discovery, diagnosis, empty_journal, missing, readable, last_entry, next_journal,
  record_transition, last_discovery, last_diagnosis, last_detection, last_failure, last_stage,
  load_journal,
}
use base_line_prox.FirstBoot.Machine.{
  asked, resets_interface, adds_dhcp, act, RepairResult, World, Outcome, declined, refused,
  network_failed, machine_of, Machine, Flow, going, stops, records, ◌▷◌,
}
use base_line_prox.FirstBoot.Stages.{
  create, detect, discover, propose, ask, confirm, after_repair, repair, repair_network,
  resume_failed, install, verify, commit, healthy_target, healthy_result, finish, run_journal, run,
}
use base_line_prox.FirstBoot.Steps.{
  outcome_of, proposal, repaired, is_evident, expected_end, recorded, tools_end, from_repair,
  fresh_network,
}

-- A recorded failure is final: a run that finds the network's repair, the installation or the
-- verification failed in the journal does nothing at all, whatever the machine and the person would
-- answer now.
pub failure_is_final :
    (w : World) (j : Journal)
    → (j.state ≡ network_repair_failed)
      ⊎ ((s : State) × (r : StageResult) × ((s ≡ packages_installed) ⊎ (s ≡ packages_verified))
          × (j.state ≡ s)
          × (last_stage s j ≡ ok r)
          × (r.ok ≡ false))
    → (machine_of (run w false (readable j))).trace ≡ []
unfolding run run_journal load_journal create detect discover propose confirm repair_network
    resume_failed install verify commit state_eq last_failure last_stage
failure_is_final w j (inl q) = elim (Result-cases (last_failure j)) [
  | inl (t, r) ↦ rw (q, r) refl
  | inr (e, r) ↦ rw (q, r) refl
]
failure_is_final w j (inr (s, r, inl p, q, h, bad)) = rw (q, p, rw p at h, bad) refl
failure_is_final w j (inr (s, r, inr p, q, h, bad)) = rw (q, p, rw p at h, bad) refl

-- the machine that asks, in a first run
abbrev asking : World → Machine
asking w = recorded w proposed (diagnosis (proposal w)) (
    recorded w discovered (discovery w.discover) (
      recorded w detected (detection w.installed w.version w.evidence)
        (recorded w created nothing (record { journal = empty_journal; trace = [] }))))

fresh_start :
    (w : World)
    → run w false missing ≡ (
        going (asking w)
        ▷ confirm w
        ▷ repair_network w
        ▷ resume_failed w
        ▷ install w
        ▷ verify w
        ▷ commit w
        ▷ finish w)
unfolding run run_journal load_journal create detect discover propose records record_transition
    next_journal last_discovery last_entry state_eq
fresh_start w = refl

fresh_ask :
    (w : World)
    → confirm w (asking w) ≡ (
        let d = proposal w in
        if d.needs_repair && d.mode == none
        then stops (refused d.reason) (asking w)
        else ask w w.confirms (asking w))
unfolding confirm next_journal last_diagnosis last_detection last_discovery last_entry state_eq
fresh_ask w = refl

fresh_repair :
    (w : World)
    → repair_network w (recorded w confirmed nothing (act (asked true) (asking w)))
      ≡ repair w
          (proposal w)
          w.discover
          (recorded w confirmed nothing (act (asked true) (asking w)))
unfolding repair_network next_journal last_diagnosis last_discovery last_entry state_eq
fresh_repair w = refl

repair_split :
    (w : World) (d : Diagnosis) (m : Machine)
    → (n : Machine) × (repair w d w.discover m ≡ after_repair w (repaired w d).0 (repaired w d).1 n)
unfolding repair
repair_split w d m = elim (Bool-cases d.needs_repair) [
  | inr q ↦ (
    m,
    rw (q, repair) refl
        ∙ ends (healthy_target w w.discover) (healthy_result w w.discover) m (rw q refl),
  )
  | inl q ↦ elim (Bool-cases (d.mode == some "replace")) [
    | inl r ↦
        let n = act (resets_interface d.target) m in
        (n, rw (q, r, repair) refl ∙ ends d.target (w.reset_interface d.target) n (rw (q, r) refl))
    | inr r ↦
        let n = act (adds_dhcp d.target) m in
        (n, rw (q, r, repair) refl ∙ ends d.target (w.add_dhcp d.target) n (rw (q, r) refl))
  ]
]
  where
    ends :
        (target : Option String) (r : RepairResult) (n : Machine)
        → repaired w d ≡ (target, r)
        → after_repair w target r n ≡ after_repair w (repaired w d).0 (repaired w d).1 n
    ends target r n h = sym (ap (λ (p : Option String × RepairResult). after_repair w p.0 p.1 n) h)

-- a run that stops where a test holds
stop_branch :
    (b : Bool) (stop good : Flow) (rest : Flow → Flow) (x y : Option Outcome)
    → outcome_of (rest stop) ≡ y
    → (b ≡ false → outcome_of (rest good) ≡ x)
    → outcome_of (rest (if b then stop else good)) ≡ (if b then y else x)
stop_branch true stop good rest x y h k = h
stop_branch false stop good rest x y h k = k refl

fresh_answer :
    (w : World) (b : Bool)
    → w.confirms ≡ b
    → outcome_of (from_repair w (ask w b (asking w) ▷ repair_network w)) ≡ (
        let r = repaired w (proposal w) in
        if not b
        then some declined
        else if not r.1.ok
        then some (network_failed r.1.detail)
        else if not (is_evident w r)
        then none
        else tools_end w)
unfolding ask
fresh_answer w false h = refl
fresh_answer w true h =
    let m = recorded w confirmed nothing (act (asked true) (asking w)) in
    let asks : records w confirmed nothing (act (asked true) (asking w)) ≡ going m =
      unfold records record_transition state_eq in refl in
    let (n, split) = repair_split w (proposal w) m in
    rw (asks, fresh_repair w, split)
      (fresh_network w n (repaired w (proposal w)).0 (repaired w (proposal w)).1)

-- A first run ends in just this way, whatever the machine and the person answer: refused where the
-- lifeline is broken and no repair can be derived, declined without a confirmation, failed with the
-- repair, an error where the repair has no evidence, failed with the installation or the verification,
-- and committed where all of it succeeded.
pub fresh_end : (w : World) → outcome_of (run w false missing) ≡ expected_end w
fresh_end w =
    let d = proposal w in
    rw (fresh_start w, fresh_ask w)
      (stop_branch (d.needs_repair && d.mode == none) (stops (refused d.reason) (asking w))
        (ask w w.confirms (asking w)) (λ f. from_repair w (f ▷ repair_network w)) _ _ refl
        (λ q. fresh_answer w w.confirms refl))
