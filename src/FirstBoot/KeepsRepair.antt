-- ===== src/FirstBoot/KeepsRepair.antt =====
-- The repair of the network, and its recorded failure.
use base_line_prox.Base.{
  String, Option, some, ◌==◌, ◌≡◌, ap, ◌∙◌, arith, Bool-cases, inl, inr, string_eq, option_eq,
}
use base_line_prox.FirstBoot.Journal.{
  confirmed, network_repaired, network_repair_failed, state_eq, Discovery, Diagnosis, Journal,
  last_discovery, last_diagnosis, last_failure, failure, network,
}
use base_line_prox.FirstBoot.Machine.{
  RepairResult, World, resets_interface, adds_dhcp, network_failed, Machine, Flow, going, stops,
  raises, act, records,
}
use base_line_prox.FirstBoot.Stages.{
  after_repair, repair, repair_network, resume_failed, network_evidence, healthy_target,
  healthy_result,
}
use base_line_prox.FirstBoot.Legal.{Has, IsGood, FlowGood}
use base_line_prox.FirstBoot.Keeps.{Has-new, Has-old, records-Good, with_value-Good}

module _ (j0 : Journal) (w : World) where
  pub after_repair-Good :
      (target : Option String) (r : RepairResult) (m : Machine)
      → IsGood j0 m
      → Has confirmed m.journal.history
      → FlowGood j0 (after_repair w target r m)
  unfolding after_repair
  after_repair-Good target r m g has = elim (Bool-cases r.ok) [
    | inl q ↦ rw q (
        let d = network (network_evidence w target r.verification) r.detail in
        records-Good j0 w network_repaired d m g
          (
            Has-old (w.ts network_repaired) network_repaired confirmed d m.journal has,
            Has-new (w.ts network_repaired) network_repaired d m.journal,
          )
          (λ c. absurd (ground arith)))
    | inr q ↦ rw q (
        stopped (records w network_repair_failed (failure r.detail) m) (
          records-Good j0 w network_repair_failed (failure r.detail) m g tt
            (λ c. absurd (ground arith))))
  ]
    where
      stopped :
          (f : Flow)
          → FlowGood j0 f
          → FlowGood j0 (elim f as (λ f. Flow) [
            | going n ↦ stops (network_failed r.detail) n
            | stops o n ↦ stops o n
            | raises e n ↦ raises e n
          ])
      stopped (going n) h = h
      stopped (stops o n) h = h
      stopped (raises e n) h = h

  pub repair-Good :
      (d : Diagnosis) (found : Discovery) (m : Machine)
      → IsGood j0 m
      → m.journal.state ≡ confirmed
      → FlowGood j0 (repair w d found m)
  unfolding repair
  repair-Good d found m g at =
      let has : Has confirmed m.journal.history = rw at at g.sound.facts in
      let on = ap (λ (j : Journal). j.state) g.disk ∙ at in
      let resets : IsGood j0 (act (resets_interface d.target) m) = record {
        legal = (on, g.legal);
        disk = g.disk;
        sound = g.sound;
      } in
      let adds : IsGood j0 (act (adds_dhcp d.target) m) = record {
        legal = (on, g.legal);
        disk = g.disk;
        sound = g.sound;
      } in
      elim (Bool-cases d.needs_repair) [
        | inr q ↦ rw q (after_repair-Good (healthy_target w found) (healthy_result w found) m g has)
        | inl q ↦ rw q (elim (Bool-cases (d.mode == some "replace")) [
          | inl r ↦ rw r (after_repair-Good _ _ _ resets has)
          | inr r ↦ rw r (after_repair-Good _ _ _ adds has)
        ])
      ]

  pub repair_network-Good : (m : Machine) → IsGood j0 m → FlowGood j0 (repair_network w m)
  unfolding repair_network
  repair_network-Good m g = elim (Bool-cases (m.journal.state == confirmed)) [
    | inr q ↦ rw q g
    | inl q ↦ rw q (
        with_value-Good j0 w (last_diagnosis m.journal) m _ g (λ d a.
          with_value-Good j0 w (last_discovery m.journal) m _ g
            (λ found b. repair-Good d found m g (ground arith))))
  ]

  pub resume_failed-Good : (m : Machine) → IsGood j0 m → FlowGood j0 (resume_failed w m)
  unfolding resume_failed
  resume_failed-Good m g = elim (Bool-cases (m.journal.state == network_repair_failed)) [
    | inr q ↦ rw q g
    | inl q ↦ rw q (with_value-Good j0 w (last_failure m.journal) m _ g (λ text a. g))
  ]
