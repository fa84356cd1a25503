-- ===== src/Repair/Proposed.antt =====
-- What is proposed to a person is what the repair changes.
use base_line_prox.Base.{◌≡◌, ◌≢◌, ap, ◌∙◌, Bool, Eq, Result, ok, err}
use base_line_prox.Base.Dict.{Dict}
use base_line_prox.Interfaces.Data.{Text, Name, Stanza, ParsedConfig}
use base_line_prox.Topology.Walk.{
  TargetCandidate, is_static, is_additive, Derivation, target, ambiguous, nothing_found,
  unknown_device, derive,
}
use base_line_prox.Repair.Reading.{Directories, read_interfaces_config}
use base_line_prox.Repair.Host.{
  Host, World, Stop, refused, crashed, topology_ambiguous, no_candidate,
}
use base_line_prox.Repair.Pipeline.{Shape, replacing, adding, interfaces_path}
use base_line_prox.Repair.Plan.{
  Mode, replace, additive, plan_additive_repair, additive_or, or_additive,
}

abbrev pub test_of : Mode → Stanza → Bool
test_of replace = is_static
test_of additive = is_additive

-- a proposal is a derivation of its mode
record Proposes (d : Directories) (files : Dict Text Text) (dev : Name) (mode : Mode)
    (t : TargetCandidate) : Type 0 where
  cfg : ParsedConfig
  reads : read_interfaces_config d interfaces_path files ≡ ok cfg
  derives : derive (test_of mode) cfg.stanzas dev ≡ target t

module _ (d : Directories) (files : Dict Text Text) (dev : Name) where
  derives_added :
      (cfg : ParsedConfig) (t : TargetCandidate) (a b : Derivation) (mode : Mode)
      → derive is_static cfg.stanzas dev ≡ a
      → derive is_additive cfg.stanzas dev ≡ b
      → ((s : TargetCandidate) → a ≢ target s)
      → additive_or d files dev a b ≡ (mode, target t)
      → derive (test_of mode) cfg.stanzas dev ≡ target t
  derives_added cfg t a (target s) mode p q none h =
      let is : additive ≡ mode = ap (λ (x : Mode × Derivation). x.0) h in
      rw⁻¹ is (q ∙ ap (λ (x : Mode × Derivation). x.1) h)
  derives_added cfg t a (ambiguous cs) mode p q none h = absurd (cc h)
  derives_added cfg t a unknown_device mode p q none h =
      absurd (none t (ap (λ (x : Mode × Derivation). x.1) h))
  derives_added cfg t a nothing_found mode p q none h =
      absurd (none t (ap (λ (x : Mode × Derivation). x.1) h))

  derives :
      (cfg : ParsedConfig) (t : TargetCandidate) (a b : Derivation) (mode : Mode)
      → derive is_static cfg.stanzas dev ≡ a
      → derive is_additive cfg.stanzas dev ≡ b
      → plan_additive_repair d files dev ≡ ok b
      → or_additive d files dev a ≡ ok (mode, target t)
      → derive (test_of mode) cfg.stanzas dev ≡ target t
  derives cfg t (target s) b mode p q r h =
      let same : (replace, target s) ≡ (mode, target t) = cc h in
      let is : replace ≡ mode = ap (λ (x : Mode × Derivation). x.0) same in
      rw⁻¹ is (p ∙ ap (λ (x : Mode × Derivation). x.1) same)
  derives cfg t (ambiguous cs) b mode p q r h = absurd (cc h)
  derives cfg t unknown_device b mode p q r h =
      derives_added cfg t unknown_device b mode p q (λ s e. cc e) (cc (rw r at h))
  derives cfg t nothing_found b mode p q r h =
      derives_added cfg t nothing_found b mode p q (λ s e. cc e) (cc (rw r at h))

-- what the discovery of a repair comes to, where a target was proposed
abbrev pub IsProposed : TargetCandidate → Result Stop Name → Type 0
IsProposed t (ok name) = name ≡ t.name
IsProposed t (err crashed) = ⊥
IsProposed t (err (refused code)) = (code ≢ topology_ambiguous) × (code ≢ no_candidate)

module _ {D : Type 0} ⦃e : Eq D⦄ (w : World D) where
  abbrev pub shape_of : Mode → Shape
  shape_of replace = replacing w
  shape_of additive = adding w
