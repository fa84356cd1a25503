-- ===== src/FirstBoot/Stages.antt =====
-- The stages of `run` of baseline/lib/firstboot_statemachine.py, and the run.
use base_line_prox.Base.{
  String, Bool, true, false, not, ◌&&◌, Option, none, some, [], ◌==◌, string_eq, option_eq,
  if◌then◌else◌,
}
use base_line_prox.Base.Dict.{Dict}
use base_line_prox.FirstBoot.Journal.{
  new, created, detected, discovered, proposed, confirmed, network_repaired, network_repair_failed,
  packages_installed, packages_verified, committed, state_eq, Check, is_true, Discovery, Diagnosis,
  Evidence, StageResult, nothing, detection, discovery, diagnosis, network, failure, stage, Journal,
  JournalFile, load_journal, last_discovery, last_diagnosis, last_detection, last_failure,
  last_stage,
}
use base_line_prox.FirstBoot.Machine.{
  RepairResult, World, marked, asked, resets_interface, adds_dhcp, installs_tools, verifies_tools,
  applies_settings, Outcome, already_completed, declined, refused, network_failed, packages_failed,
  packages_verify_failed, Machine, Flow, going, stops, raises, ◌▷◌, act, with_value, records,
}

module _ (w : World) where
  unfoldable pub create : Machine → Flow
  create m = if m.journal.state == new then records w created nothing m else going m

  unfoldable pub detect : Machine → Flow
  detect m =
      if m.journal.state == created
      then records w detected (detection w.installed w.version w.evidence) m
      else going m

  unfoldable pub discover : Machine → Flow
  discover m =
      if m.journal.state == detected then records w discovered (discovery w.discover) m else going m

  -- of a lifeline that is up
  abbrev pub healthy : Diagnosis
  healthy = record { needs_repair = false; mode = none; target = none; reason = "" }

  unfoldable pub propose : Machine → Flow
  propose m =
      if m.journal.state == discovered
      then with_value (last_discovery m.journal) m
          (λ d. records w proposed (diagnosis (if d.lifeline_ok then healthy else w.diagnose d)) m)
      else going m

  -- the question at tty1, and what its answer leads to
  unfoldable pub ask : Bool → Machine → Flow
  ask true m = records w confirmed nothing (act (asked true) m)
  ask false m = stops declined (act (asked false) m)

  unfoldable pub confirm : Machine → Flow
  unfolding ask
  confirm m =
      if m.journal.state == proposed
      then with_value (last_diagnosis m.journal) m (λ d.
        if d.needs_repair && d.mode == none
        then stops (refused d.reason) m
        else with_value (last_detection m.journal) m
            (λ installed. with_value (last_discovery m.journal) m (λ found. ask w.confirms m)))
      else going m

  -- what is recorded of the repair
  abbrev pub network_evidence : Option String → Dict String Check → Evidence
  network_evidence target verification = record {
    network_ok = is_true;
    target_interface = target;
    verification = some verification;
  }

  unfoldable pub after_repair : Option String → RepairResult → Machine → Flow
  after_repair target r m =
      if r.ok
      then records w network_repaired (network (network_evidence target r.verification) r.detail) m
      else elim (records w network_repair_failed (failure r.detail) m) [
        | going n ↦ stops (network_failed r.detail) n
        | stops o n ↦ stops o n
        | raises e n ↦ raises e n
      ]

  -- `observed_dev(...) or ""`
  abbrev or_empty : Option String → String
  or_empty none = ""
  or_empty (some s) = s

  -- what stands for a repair where the lifeline is up
  abbrev pub healthy_target : Discovery → Option String
  healthy_target found = some (or_empty (w.observed_dev found.facts))

  abbrev pub healthy_result : Discovery → RepairResult
  healthy_result found = record {
    ok = true;
    detail = "lifeline already healthy - no repair needed";
    verification = w.facts_verification found.facts;
  }

  unfoldable pub repair : Diagnosis → Discovery → Machine → Flow
  unfolding after_repair
  repair d found m =
      if d.needs_repair
      then if d.mode == some "replace"
        then after_repair d.target (w.reset_interface d.target) (act (resets_interface d.target) m)
        else after_repair d.target (w.add_dhcp d.target) (act (adds_dhcp d.target) m)
      else after_repair (healthy_target found) (healthy_result found) m

  unfoldable pub repair_network : Machine → Flow
  unfolding repair
  repair_network m =
      if m.journal.state == confirmed
      then with_value (last_diagnosis m.journal) m
          (λ d. with_value (last_discovery m.journal) m (λ found. repair d found m))
      else going m

  -- a recorded failure is never retried
  unfoldable pub resume_failed : Machine → Flow
  resume_failed m =
      if m.journal.state == network_repair_failed
      then with_value (last_failure m.journal) m (λ text. stops (network_failed text) m)
      else going m

  abbrev install_failed : StageResult → Machine → Flow
  install_failed r n = if r.ok then going n else stops (packages_failed r.detail) n

  unfoldable pub install : Machine → Flow
  install m =
      if m.journal.state == network_repaired
      then records w packages_installed (stage w.install_tools) (act installs_tools m)
        ▷ install_failed w.install_tools
      else going m

  abbrev verify_failed : StageResult → Machine → Flow
  verify_failed r n = if r.ok then going n else stops (packages_verify_failed r.detail) n

  unfoldable pub verify : Machine → Flow
  verify m =
      if m.journal.state == packages_installed
      then with_value (last_stage packages_installed m.journal) m (λ r.
        if not r.ok
        then stops (packages_failed r.detail) m
        else records w packages_verified (stage w.verify_tools) (act verifies_tools m)
          ▷ verify_failed w.verify_tools)
      else going m

  unfoldable pub commit : Machine → Flow
  commit m =
      if m.journal.state == packages_verified
      then with_value (last_stage packages_verified m.journal) m (λ r.
        if not r.ok
        then stops (packages_verify_failed r.detail) m
        else records w committed nothing (act marked m))
      else going m

  abbrev pub finish : Machine → Flow
  finish m = stops Outcome.committed (act (applies_settings true) m)

  -- from a journal on
  unfoldable pub run_journal : Journal → Flow
  unfolding create detect discover propose confirm repair_network resume_failed install verify
      commit
  run_journal j =
      going (record { journal = j; trace = [] })
      ▷ create
      ▷ detect
      ▷ discover
      ▷ propose
      ▷ confirm
      ▷ repair_network
      ▷ resume_failed
      ▷ install
      ▷ verify
      ▷ commit
      ▷ finish

  -- `run`: with the completion marker, nothing but the settings
  unfoldable pub run : Bool → JournalFile → Flow
  unfolding run_journal load_journal
  run marker file =
      if marker
      then stops already_completed
          (act (applies_settings false) (record { journal = load_journal file; trace = [] }))
      else run_journal (load_journal file)
