-- ===== src/FirstBoot/Tests.antt =====
-- A first boot whose lifeline is up, one that was cut off, one whose repair failed, and the theorems at
-- them.
use base_line_prox.Base.{String, true, false, none, some, [], ◌∷◌, ◌≡◌, ◌≢◌, ◌↔◌, All, ok}
use base_line_prox.Base.Dict.{Dict, values}
use base_line_prox.FirstBoot.Journal.{
  network_repair_failed, Check, is_true, Evidence, network, failure, Journal, missing,
  require_evidence,
}
use base_line_prox.FirstBoot.Machine.{RepairResult, World}
use base_line_prox.FirstBoot.Stages.{run}
use base_line_prox.FirstBoot.Evidence.{evidence_iff}
use base_line_prox.FirstBoot.Crashes.{Disk, boot}
use base_line_prox.FirstBoot.Steps.{outcome_of, expected_end}
use base_line_prox.FirstBoot.Outcomes.{fresh_end}

abbrev checks : Dict String Check
checks = ("address", is_true) ∷ ("gateway", is_true) ∷ []

abbrev repaired_now : RepairResult
repaired_now = record { ok = true; detail = "done"; verification = checks }

abbrev calm : World
calm = record {
  ts = λ s. "2026-01-01T00:00:00";
  installed = true;
  version = "8.1";
  evidence = "pveversion";
  discover = record { lifeline_ok = true; facts = "facts" };
  diagnose =
      λ d. record { needs_repair = true; mode = none; target = none; reason = "no candidate" };
  facts_verification = λ facts. checks;
  observed_dev = λ facts. some "vmbr0";
  confirms = true;
  reset_interface = λ target. repaired_now;
  add_dhcp = λ target. repaired_now;
  install_tools = record { ok = true; detail = "" };
  verify_tools = record { ok = true; detail = "" };
}

abbrev bound : Evidence
bound = record { network_ok = is_true; target_interface = some "vmbr0"; verification = some checks }

evidence_iff_example : (require_evidence (network bound "up") ≡ ok tt) ↔ (
    (is_true ≡ is_true)
    × ((target : String) × (some "vmbr0" ≡ some target) × (target ≢ ""))
    × ((d : Dict String Check) × (some checks ≡ some d)
        × (values d ≢ [])
        × All (λ c. c ≡ is_true) (values d)))
evidence_iff_example = evidence_iff bound "up"

abbrev blank : Disk
blank = record { marker = false; file = missing }

abbrev cut_off : Disk
cut_off = boot calm 3 blank

abbrev failed : Journal
failed = record {
  state = network_repair_failed;
  history =
      record {
        state = network_repair_failed;
        ts = "2026-01-01T00:00:00";
        detail = failure "no DHCP";
      }
      ∷ [];
}

fresh_end_example : outcome_of (run calm false missing) ≡ expected_end calm
fresh_end_example = fresh_end calm
