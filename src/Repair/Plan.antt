-- ===== src/Repair/Plan.antt =====
-- `plan_repair` of baseline/lib/repair.py, and `plan_additive_repair` and `plan_and_derive` of
-- repair_additive.py: which of the two repairs is proposed, and of which interface.
use base_line_prox.Base.{Result, ok, ◌>>=◌}
use base_line_prox.Base.Dict.{Dict}
use base_line_prox.Interfaces.Data.{Text, Name}
use base_line_prox.Topology.Walk.{
  Derivation, target, ambiguous, derive, derive_target, derive_additive_target,
}
use base_line_prox.Repair.Reading.{ReadError, Directories, read_interfaces_config}
use base_line_prox.Repair.Pipeline.{interfaces_path}

pub data Mode : Type 0 where
  replace additive : Mode

module _ (d : Directories) (files : Dict Text Text) (observed_dev : Name) where
  unfoldable pub plan_repair : Result ReadError Derivation
  unfolding read_interfaces_config derive
  plan_repair = do
    cfg ← read_interfaces_config d interfaces_path files
    ok (derive_target cfg.stanzas observed_dev)

  unfoldable pub plan_additive_repair : Result ReadError Derivation
  unfolding read_interfaces_config derive
  plan_additive_repair = do
    cfg ← read_interfaces_config d interfaces_path files
    ok (derive_additive_target cfg.stanzas observed_dev)

  -- where neither finds anything, the first refusal stands
  abbrev pub additive_or : Derivation → Derivation → Mode × Derivation
  additive_or replaced (target t) = (additive, target t)
  additive_or replaced (ambiguous ts) = (additive, ambiguous ts)
  additive_or replaced _ = (replace, replaced)

  abbrev pub or_additive : Derivation → Result ReadError (Mode × Derivation)
  or_additive (target t) = ok (replace, target t)
  or_additive (ambiguous ts) = ok (replace, ambiguous ts)
  or_additive replaced = do added ← plan_additive_repair; ok (additive_or replaced added)

  unfoldable pub plan_and_derive : Result ReadError (Mode × Derivation)
  unfolding plan_repair plan_additive_repair
  plan_and_derive = do replaced ← plan_repair; or_additive replaced
