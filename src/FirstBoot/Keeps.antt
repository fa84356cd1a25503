-- ===== src/FirstBoot/Keeps.antt =====
-- Each stage of the first boot does only what is allowed, and leaves a sound journal.
use base_line_prox.Base.{
  String, Bool, true, false, ◌&&◌, none, ◌==◌, ◌≡◌, ◌≢◌, refl, sym, ap, ◌∙◌, arith, Result, ok, err,
  Bool-cases, Option-cases, Result-cases, inl, inr, string_eq, option_eq,
}
use base_line_prox.FirstBoot.Journal.{
  State, new, created, detected, discovered, proposed, confirmed, state_eq, Detail, StageResult,
  stage, Entry, Journal, Error, key_error, last_entry, next_journal, record_transition,
  last_discovery, last_diagnosis, last_detection, last_stage, nothing,
}
use base_line_prox.FirstBoot.Machine.{World, asked, Machine, Flow, act, with_value, records}
use base_line_prox.FirstBoot.Stages.{create, detect, discover, propose, ask, confirm}
use base_line_prox.FirstBoot.Legal.{
  Has, HasOk, Facts, IsSound, consent, IsGood, FlowGood, last_entry-snoc, record_ok, next-IsSound,
}

pub Has-new :
    (ts : String) (s : State) (d : Detail) (j : Journal) → Has s (next_journal ts s d j).history
unfolding next_journal state_eq
Has-new ts s d j =
    let e : Entry = record { state = s; ts = ts; detail = d } in
    (e, rw (last_entry-snoc s j.history e) (ground arith))

pub Has-old :
    (ts : String) (s t : State) (d : Detail) (j : Journal)
    → Has t j.history
    → Has t (next_journal ts s d j).history
unfolding next_journal
Has-old ts s t d j (old, h) =
    let e : Entry = record { state = s; ts = ts; detail = d } in
    elim (Bool-cases (s == t)) [
      | inl q ↦ (e, rw (last_entry-snoc t j.history e, q) refl)
      | inr q ↦ (old, rw (last_entry-snoc t j.history e, q) h)
    ]

pub HasOk-old :
    (ts : String) (s t : State) (d : Detail) (j : Journal)
    → s ≢ t
    → HasOk t j.history
    → HasOk t (next_journal ts s d j).history
unfolding next_journal
HasOk-old ts s t d j differ (old, r, h, q, o) =
    let e : Entry = record { state = s; ts = ts; detail = d } in
    (old, r, rw (last_entry-snoc t j.history e) (ground arith), q, o)

pub last_stage-HasOk :
    (s : State) (j : Journal) (r : StageResult)
    → last_stage s j ≡ ok r
    → r.ok ≡ true
    → HasOk s j.history
unfolding last_stage
last_stage-HasOk s j r h o = elim (Option-cases (last_entry s j.history)) [
  | inl q ↦ absurd (ground arith)
  | inr (e, q) ↦ (e, r, q, of_detail e.detail (rw (q, last_stage) at h), o)
]
  where
    of_detail :
        (d : Detail)
        → (elim d as (λ d. Result Error StageResult) [ stage x ↦ ok x | _ ↦ err key_error ]) ≡ ok r
        → d ≡ stage r
    of_detail (stage x) k = ground arith
    of_detail _ k = absurd (ground arith)

module _ (j0 : Journal) (w : World) where
  pub records-Good :
      (s : State) (d : Detail) (m : Machine)
      → IsGood j0 m
      → Facts s (next_journal (w.ts s) s d m.journal).history
      → (s ≡ confirmed → (consent m.trace ≡ true) × (m.journal.state ≡ proposed))
      → FlowGood j0 (records w s d m)
  unfolding records
  records-Good s d m g facts asks = elim (Result-cases (record_transition (w.ts s) s d m.journal)) [
    | inr (e, q) ↦ rw (q, records) g
    | inl (k, q) ↦
        let (is, known, evidence) = record_ok (w.ts s) s d m.journal k q in
        let sound : IsSound k =
          rw is (next-IsSound (w.ts s) s d m.journal g.sound evidence facts) in
        let same : k.state ≡ s = rw is (unfold next_journal in refl) in
        rw (q, records)
          (record {
            legal = (
              (
                sound,
                λ c.
                    let (consents, from) = asks (sym same ∙ c) in
                    (consents, ap (λ (j : Journal). j.state) g.disk ∙ from),
              ),
              g.legal,
            );
            disk = refl;
            sound = sound;
          })
  ]

  pub create-Good : (m : Machine) → IsGood j0 m → FlowGood j0 (create w m)
  unfolding create
  create-Good m g = elim (Bool-cases (m.journal.state == new)) [
    | inr q ↦ rw q g
    | inl q ↦ rw q (records-Good created nothing m g tt (λ c. absurd (ground arith)))
  ]

  pub detect-Good : (m : Machine) → IsGood j0 m → FlowGood j0 (detect w m)
  unfolding detect
  detect-Good m g = elim (Bool-cases (m.journal.state == created)) [
    | inr q ↦ rw q g
    | inl q ↦ rw q (records-Good detected _ m g tt (λ c. absurd (ground arith)))
  ]

  pub discover-Good : (m : Machine) → IsGood j0 m → FlowGood j0 (discover w m)
  unfolding discover
  discover-Good m g = elim (Bool-cases (m.journal.state == detected)) [
    | inr q ↦ rw q g
    | inl q ↦ rw q (records-Good discovered _ m g tt (λ c. absurd (ground arith)))
  ]

  pub with_value-Good {ℓ} :
      {A : Type ℓ} (x : Result Error A) (m : Machine) (next : A → Flow)
      → IsGood j0 m
      → ((a : A) → x ≡ ok a → FlowGood j0 (next a))
      → FlowGood j0 (with_value x m next)
  with_value-Good (ok a) m next g k = k a refl
  with_value-Good (err e) m next g k = g

  pub propose-Good : (m : Machine) → IsGood j0 m → FlowGood j0 (propose w m)
  unfolding propose
  propose-Good m g = elim (Bool-cases (m.journal.state == discovered)) [
    | inr q ↦ rw q g
    | inl q ↦ rw q (
        with_value-Good (last_discovery m.journal) m _ g
          (λ d found. records-Good proposed _ m g tt (λ c. absurd (ground arith))))
  ]

  pub ask-Good :
      (answer : Bool) (m : Machine)
      → IsGood j0 m
      → m.journal.state ≡ proposed
      → FlowGood j0 (ask w answer m)
  unfolding ask
  ask-Good true m g at =
      records-Good confirmed nothing (act (asked true) m)
        (record { legal = (tt, g.legal); disk = g.disk; sound = g.sound })
        (Has-new (w.ts confirmed) confirmed nothing m.journal) (λ c. (refl, at))
  ask-Good false m g at = record { legal = (tt, g.legal); disk = g.disk; sound = g.sound }

  pub confirm-Good : (m : Machine) → IsGood j0 m → FlowGood j0 (confirm w m)
  unfolding confirm state_eq
  confirm-Good m g = elim (Bool-cases (m.journal.state == proposed)) [
    | inr q ↦ rw q g
    | inl q ↦ rw q (
        with_value-Good (last_diagnosis m.journal) m _ g (λ d found.
          elim (Bool-cases (d.needs_repair && d.mode == none)) [
            | inl r ↦ rw r g
            | inr r ↦ rw r (
                with_value-Good (last_detection m.journal) m _ g (λ installed a.
                  with_value-Good (last_discovery m.journal) m _ g
                    (λ x b. ask-Good w.confirms m g (ground arith))))
          ]))
  ]
