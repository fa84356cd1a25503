-- ===== src/FirstBoot/Safety.antt =====
-- The last stages of the first boot, and the whole run.
use base_line_prox.Base.{
  Bool, true, false, [], ◌==◌, ◌≡◌, refl, ap, ◌∙◌, arith, if◌then◌else◌, Bool-cases, inl, inr,
  string_eq, option_eq,
}
use base_line_prox.FirstBoot.Journal.{
  JournalFile, load_journal, confirmed, network_repaired, packages_installed, packages_verified,
  committed, state_eq, StageResult, stage, Journal, last_stage, nothing,
}
use base_line_prox.FirstBoot.Machine.{
  World, marked, installs_tools, verifies_tools, Outcome, packages_verify_failed, machine_of,
  Machine, Flow, going, stops, raises, ◌▷◌, act, records,
}
use base_line_prox.FirstBoot.Stages.{
  create, detect, discover, propose, confirm, repair_network, resume_failed, install, verify,
  commit, run_journal, run,
}
use base_line_prox.FirstBoot.Legal.{Has, HasOk, IsSound, IsGood, FlowGood, FlowGood-next}
use base_line_prox.FirstBoot.Keeps.{
  Has-old, HasOk-old, last_stage-HasOk, records-Good, with_value-Good, create-Good, detect-Good,
  discover-Good, propose-Good, confirm-Good,
}
use base_line_prox.FirstBoot.KeepsRepair.{repair_network-Good, resume_failed-Good}

if-Good :
    (j0 : Journal) (b : Bool) (n : Machine) (o : Outcome)
    → IsGood j0 n
    → FlowGood j0 (if b then going n else stops o n)
if-Good j0 true n o h = h
if-Good j0 false n o h = h

module _ (j0 : Journal) (w : World) where
  pub install-Good : (m : Machine) → IsGood j0 m → FlowGood j0 (install w m)
  unfolding install
  install-Good m g = elim (Bool-cases (m.journal.state == network_repaired)) [
    | inr q ↦ rw q g
    | inl q ↦ rw q (
        let at : m.journal.state ≡ network_repaired = ground arith in
        let (has, repaired) : Has confirmed m.journal.history
            × Has network_repaired m.journal.history =
          rw at at g.sound.facts in
        FlowGood-next j0
          (records w packages_installed (stage w.install_tools) (act installs_tools m)) _
          (records-Good j0 w packages_installed (stage w.install_tools) (act installs_tools m)
            (record {
              legal = (ap (λ (j : Journal). j.state) g.disk ∙ at, g.legal);
              disk = g.disk;
              sound = g.sound;
            })
            (
              Has-old _ packages_installed confirmed _ m.journal has,
              Has-old _ packages_installed network_repaired _ m.journal repaired,
            )
            (λ c. absurd (ground arith)))
          (λ n h. if-Good j0 w.install_tools.ok n _ h))
  ]

  verify-Good : (m : Machine) → IsGood j0 m → FlowGood j0 (verify w m)
  unfolding verify
  verify-Good m g = elim (Bool-cases (m.journal.state == packages_installed)) [
    | inr q ↦ rw q g
    | inl q ↦ rw q (
        with_value-Good j0 w (last_stage packages_installed m.journal) m _ g (λ r found.
          elim (Bool-cases r.ok) [
            | inr bad ↦ rw bad g
            | inl good ↦ rw good (
                verified r m g (ground arith)
                  (last_stage-HasOk packages_installed m.journal r found good))
          ]))
  ]
    where
      verified :
          (r : StageResult) (m : Machine)
          → IsGood j0 m
          → m.journal.state ≡ packages_installed
          → HasOk packages_installed m.journal.history
          → FlowGood j0 (
              records w packages_verified (stage w.verify_tools) (act verifies_tools m) ▷ (λ n.
                if w.verify_tools.ok
                then going n
                else stops (packages_verify_failed w.verify_tools.detail) n))
      verified r m g at done =
          let (has, repaired) : Has confirmed m.journal.history
              × Has network_repaired m.journal.history =
            rw at at g.sound.facts in
          let on = ap (λ (j : Journal). j.state) g.disk ∙ at in
          FlowGood-next j0
            (records w packages_verified (stage w.verify_tools) (act verifies_tools m)) _
            (records-Good j0 w packages_verified (stage w.verify_tools) (act verifies_tools m)
              (record { legal = ((on, rw g.disk done), g.legal); disk = g.disk; sound = g.sound })
              (
                Has-old _ packages_verified confirmed _ m.journal has,
                Has-old _ packages_verified network_repaired _ m.journal repaired,
                HasOk-old _ packages_verified packages_installed _ m.journal (λ c. ground arith)
                    done,
              )
              (λ c. absurd (ground arith)))
            (λ n h. if-Good j0 w.verify_tools.ok n _ h)

  commit-Good : (m : Machine) → IsGood j0 m → FlowGood j0 (commit w m)
  unfolding commit
  commit-Good m g = elim (Bool-cases (m.journal.state == packages_verified)) [
    | inr q ↦ rw q g
    | inl q ↦ rw q (
        with_value-Good j0 w (last_stage packages_verified m.journal) m _ g (λ r found.
          elim (Bool-cases r.ok) [
            | inr bad ↦ rw bad g
            | inl good ↦ rw good (
                marks m g (ground arith)
                  (last_stage-HasOk packages_verified m.journal r found good))
          ]))
  ]
    where
      marks :
          (m : Machine)
          → IsGood j0 m
          → m.journal.state ≡ packages_verified
          → HasOk packages_verified m.journal.history
          → FlowGood j0 (records w committed nothing (act marked m))
      marks m g at done =
          let (has, repaired, installed) : Has confirmed m.journal.history
              × Has network_repaired m.journal.history
              × HasOk packages_installed m.journal.history =
            rw at at g.sound.facts in
          let on = ap (λ (j : Journal). j.state) g.disk ∙ at in
          records-Good j0 w committed nothing (act marked m)
            (record { legal = ((on, rw g.disk done), g.legal); disk = g.disk; sound = g.sound })
            (
              Has-old _ committed confirmed _ m.journal has,
              Has-old _ committed network_repaired _ m.journal repaired,
              HasOk-old _ committed packages_installed _ m.journal (λ c. ground arith) installed,
              HasOk-old _ committed packages_verified _ m.journal (λ c. ground arith) done,
            )
            (λ c. absurd (ground arith))

pub run_journal-Good : (w : World) (j : Journal) → IsSound j → FlowGood j (run_journal w j)
unfolding run_journal
run_journal-Good w j sound =
    let start : IsGood j (record { journal = j; trace = [] }) = record {
      legal = tt;
      disk = refl;
      sound = sound;
    } in
    let a =
      FlowGood-next j (going (record { journal = j; trace = [] })) (create w) start
        (create-Good j w) in
    let b = FlowGood-next j _ (detect w) a (detect-Good j w) in
    let c = FlowGood-next j _ (discover w) b (discover-Good j w) in
    let d = FlowGood-next j _ (propose w) c (propose-Good j w) in
    let e = FlowGood-next j _ (confirm w) d (confirm-Good j w) in
    let f = FlowGood-next j _ (repair_network w) e (repair_network-Good j w) in
    let g = FlowGood-next j _ (resume_failed w) f (resume_failed-Good j w) in
    let h = FlowGood-next j _ (install w) g (install-Good j w) in
    let i = FlowGood-next j _ (verify w) h (verify-Good j w) in
    let k = FlowGood-next j _ (commit w) i (commit-Good j w) in
    FlowGood-next j _ _ k
      (λ m good. record { legal = (tt, good.legal); disk = good.disk; sound = good.sound })

FlowGood-IsGood : (j : Journal) (f : Flow) → FlowGood j f → IsGood j (machine_of f)
FlowGood-IsGood j (going m) h = h
FlowGood-IsGood j (stops o m) h = h
FlowGood-IsGood j (raises e m) h = h

pub run-Good :
    (w : World) (marker : Bool) (file : JournalFile)
    → IsSound (load_journal file)
    → IsGood (load_journal file) (machine_of (run w marker file))
unfolding run
run-Good w true file sound = record { legal = (tt, tt); disk = refl; sound = sound }
run-Good w false file sound =
    FlowGood-IsGood (load_journal file) (run_journal w (load_journal file))
      (run_journal-Good w (load_journal file) sound)
