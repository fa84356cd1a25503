-- ===== src/Repair/Pipeline.antt =====
-- `reset_interface_to_dhcp` of baseline/lib/repair.py and `add_dhcp_to_bridge` of repair_additive.py. The
-- two differ in the derivation, the rewriting, and what follows `ifreload`, which is their `Shape`.
use base_line_prox.Base.{
  String, Bool, true, false, not, ◌&&◌, none, some, [], ◌∷◌, ◌==◌, codes_eq, if◌then◌else◌, Eq,
  Result, ok, err,
}
use base_line_prox.Base.Dict.{Dict, lookup, insert}
use base_line_prox.Base.Text.{codes}
use base_line_prox.Base.Lines.{is_empty}
use base_line_prox.Interfaces.Data.{Text, Name, Stanza, ParsedConfig, has_none}
use base_line_prox.Interfaces.Closure.{closure_text}
use base_line_prox.Interfaces.Rewrite.{
  Refusal, key_error, index_error, rewrite_stanza_to_dhcp, add_dhcp_stanza,
}
use base_line_prox.Topology.Walk.{
  TargetCandidate, is_static, is_additive, Derivation, unknown_device, nothing_found, target,
  ambiguous, derive,
}
use base_line_prox.Repair.Reading.{read_interfaces_config}
use base_line_prox.Repair.Host.{
  Host, World, Code, cluster_member, unsupported_environment, topology_ambiguous, no_candidate,
  already_healthy, protected_connection_unattended, concurrent_config_change, rewrite_error,
  syntax_invalid, apply_failed, dhclient_failed, Stop, refused, crashed, M, ◌>>=◌, ◌>>◌, pure,
  raise, require, log_event,
}
use base_line_prox.Repair.Checks.{
  succeeded, is_standalone, has_ifupdown2, is_healthy, find_protected_sessions, may_disconnect,
  advisory_only, VerificationResult, verify_target, verify_target_extended,
}
use base_line_prox.Repair.Attempts.{
  create_backup, restore_backup, close_attempt, arm_rollback, cancel_rollback,
  write_pending_manifest, clear_pending_manifest,
}

pub record Shape : Type 0 where
  pub test : Stanza → Bool
  pub rewrite : ParsedConfig → Name → Result Refusal (Dict Text Text)
  pub is_additive : Bool

-- whose repair it is, with which identifier, and what was proposed
pub record Request : Type 0 where
  pub attempt_id : Text
  pub observed_dev : Name
  pub proposed_target : Name
  pub operator_present : Bool

pub data Outcome : Type 0 where
  success rolled_back : Outcome
  was_refused : Code → Outcome

pub record RepairResult : Type 0 where
  pub outcome : Outcome
  pub verification : Dict String Bool

abbrev pub interfaces_path : Text
interfaces_path = codes "/etc/network/interfaces"

abbrev no_result : Outcome → RepairResult
no_result o = record { outcome = o; verification = [] }

module _ {D : Type 0} ⦃e : Eq D⦄ (w : World D) (shape : Shape) (q : Request) where
  unfoldable pub read_config : M D ParsedConfig
  read_config h = elim (read_interfaces_config w.directories interfaces_path h.files) [
    | ok cfg ↦ (ok cfg, h)
    | err e ↦ (err crashed, h)
  ]

  unfoldable pub derived : Derivation → M D TargetCandidate
  derived (target t) = pure t
  derived (ambiguous ts) = raise (refused topology_ambiguous)
  derived unknown_device = raise (refused no_candidate)
  derived nothing_found = raise (refused no_candidate)

  abbrev log_discrepancy : Name → M D (Unit {0})
  log_discrepancy name =
      if not (is_empty q.proposed_target) && not (q.proposed_target == name)
      then log_event "target_discrepancy" "info"
      else pure tt

  abbrev log_disclosure : M D (Unit {0})
  log_disclosure =
      if has_none (find_protected_sessions w)
      then pure tt
      else log_event "protected_sessions_disclosed" "info"

  -- the stanza that is left as it is where another is added
  abbrev log_residue : M D (Unit {0})
  log_residue = if shape.is_additive then log_event "residual_config_detected" "info" else pure tt

  -- steps 1 and 2
  unfoldable pub discover : M D Name
  unfolding read_config derived derive
  discover = do
    log_event "proposed" "info"
    require (is_standalone w) cluster_member
    require (has_ifupdown2 w) unsupported_environment
    cfg ← read_config
    t ← derived (derive shape.test cfg.stanzas q.observed_dev)
    log_discrepancy t.name
    require (not (is_healthy w)) already_healthy
    require (may_disconnect w q.operator_present) protected_connection_unattended
    log_disclosure
    log_event "validated" "info"
    log_residue
    pure t.name

  -- step 3
  unfoldable pub back_up : M D D
  unfolding read_config create_backup
  back_up = do
    cfg ← read_config
    digest ← create_backup w q.attempt_id cfg.files
    log_event "backup_written" "info"
    pure digest

  -- step 4
  unfoldable pub arm : Name → M D Text
  unfolding arm_rollback write_pending_manifest
  arm name = do
    unit ← arm_rollback w q.attempt_id
    write_pending_manifest w q.attempt_id name unit
    log_event "rollback_armed" "info"
    pure unit

  -- what others do to the files meanwhile
  unfoldable pub edited : M D (Unit {0})
  edited h = (ok tt, record h { files = w.edits h.files })

  -- the end of an attempt that is given up before anything was applied
  unfoldable pub give_up : Text → String → M D (Unit {0})
  unfolding cancel_rollback clear_pending_manifest close_attempt
  give_up unit outcome = do
    cancel_rollback w unit
    clear_pending_manifest w
    close_attempt w q.attempt_id outcome

  unfoldable pub abandon : {A : Type 0} → Text → String → Code → M D A
  unfolding give_up
  abandon unit outcome code = give_up unit outcome >> raise (refused code)

  unfoldable pub revalidate : Text → D → M D ParsedConfig
  unfolding read_config abandon closure_text
  revalidate unit digest = do
    cfg ← read_config
    elim (w.sha256 (closure_text cfg.files) == digest) [
      | true ↦ pure cfg
      | false ↦ abandon unit "refused_concurrent_change" concurrent_config_change
    ]

  -- writes the files that differ
  unfoldable pub write_files : Dict Text Text → Dict Text Text → M D (Unit {0})
  unfolding lookup
  write_files old [] h = (ok tt, h)
  write_files old ((path, text) ∷ files) h = elim (lookup path old) [
    | none ↦ (err crashed, h)
    | some before ↦ elim (text == before) [
      | true ↦ write_files old files h
      | false ↦
          write_files old files (record h { files = insert path (w.written path text) h.files })
    ]
  ]

  unfoldable pub restore_and_abandon : {A : Type 0} → Text → String → Code → M D A
  unfolding restore_backup abandon
  restore_and_abandon unit outcome code = do
    restored ← restore_backup w q.attempt_id
    abandon unit outcome code

  -- step 5: only a `RewriteError` is caught
  unfoldable pub write : Text → Name → ParsedConfig → M D (Unit {0})
  unfolding write_files restore_and_abandon
  write unit name cfg = elim (shape.rewrite cfg name) [
    | ok files ↦ write_files cfg.files files >> log_event "written" "info"
    | err key_error ↦ raise crashed
    | err index_error ↦ raise crashed
    | err e ↦ restore_and_abandon unit "refused_rewrite_error" rewrite_error
  ]

  abbrev pub log_restore : Bool → M D (Unit {0})
  log_restore restored = log_event "restored" (if restored then "info" else "fail")

  -- the refusal of a syntax that is not valid
  unfoldable pub refuse_syntax : Text → M D (Unit {0})
  unfolding restore_backup give_up
  refuse_syntax unit = do
    restored ← restore_backup w q.attempt_id
    give_up unit "refused_syntax_invalid"
    log_restore restored
    raise (refused syntax_invalid)

  -- step 6
  unfoldable pub check_syntax : Text → M D (Unit {0})
  unfolding refuse_syntax advisory_only
  check_syntax unit =
      if succeeded w.syntax_check
      then pure tt
      else if advisory_only w w.syntax_check.stderr
      then log_event "syntax_check_advisory" "info"
      else refuse_syntax unit

  abbrev status_of : Bool → String
  status_of true = "pass"
  status_of false = "fail"

  -- step 7, with `dhclient` where a stanza was added
  unfoldable pub apply : M D (Unit {0})
  apply = do
    log_event "applied" (status_of (succeeded w.reload))
    require (succeeded w.reload) apply_failed
    elim shape.is_additive [
      | false ↦ pure tt
      | true ↦
          log_event "dhclient_supplementary" (status_of (succeeded w.dhclient))
          >> require (succeeded w.dhclient) dhclient_failed
    ]

  abbrev pub verification : Result Stop VerificationResult
  verification = if shape.is_additive then verify_target_extended w else verify_target w true

  abbrev checks_of : VerificationResult → Dict String Bool
  checks_of v =
      ("address", not (is_empty v.address))
      ∷ ("gateway", not (is_empty v.gateway))
      ∷ (if shape.is_additive then ("dns", true) ∷ ("https", true) ∷ [] else [])

  -- step 9
  unfoldable pub finish : Text → VerificationResult → M D RepairResult
  unfolding cancel_rollback clear_pending_manifest close_attempt
  finish unit v = do
    log_event "verify_pass" "pass"
    cancel_rollback w unit
    clear_pending_manifest w
    close_attempt w q.attempt_id "success"
    log_event "cancelled_rollback" "info"
    pure (record { outcome = success; verification = checks_of v })

  -- step 8
  unfoldable pub verify : Text → M D RepairResult
  unfolding finish verify_target verify_target_extended
  verify unit = elim verification [
    | err e ↦ raise e
    | ok v ↦
        if v.verified
        then finish unit v
        else log_event "verify_timeout" "fail" >> pure (no_result rolled_back)
  ]

  -- from the backup on
  unfoldable pub transact : Name → M D RepairResult
  unfolding back_up arm edited revalidate write check_syntax apply verify
  transact name = do
    digest ← back_up
    unit ← arm name
    edited
    cfg ← revalidate unit digest
    write unit name cfg
    check_syntax unit
    apply
    verify unit

  -- the handler of `RepairRefused`
  unfoldable pub handle : Result Stop RepairResult × Host D → Result Stop RepairResult × Host D
  handle (ok r, h) = (ok r, h)
  handle (err crashed, h) = (err crashed, h)
  handle (err (refused code), h) =
      (log_event "refused" "fail" >> pure (no_result (was_refused code))) h

  unfoldable pub repair : M D RepairResult
  unfolding discover transact handle
  repair h = handle ((discover >>= transact) h)

module _ {D : Type 0} ⦃e : Eq D⦄ (w : World D) where
  abbrev pub replacing : Shape
  replacing = record { test = is_static; rewrite = rewrite_stanza_to_dhcp; is_additive = false }

  abbrev pub adding : Shape
  adding = record { test = is_additive; rewrite = add_dhcp_stanza; is_additive = true }

  unfoldable pub reset_interface_to_dhcp : Request → M D RepairResult
  unfolding repair
  reset_interface_to_dhcp = repair w replacing

  unfoldable pub add_dhcp_to_bridge : Request → M D RepairResult
  unfolding repair
  add_dhcp_to_bridge = repair w adding
