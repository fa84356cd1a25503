-- ===== src/Repair/Tests.antt =====
-- A repair that fails its verification, the rollback behind it, and the theorems at them.
mod Fixture
mod Retention
mod Success
mod Proposal
use base_line_prox.Base.{
  ℕ, ◌+◌, ◌*◌, ◌≡◌, ◌≢◌, ◌⊎◌, refl, ap, subst, String, true, false, none, some, [], ◌∷◌, codes_eq,
  nat_eq, string_eq, arith, contains, Result, ok, err,
}
use base_line_prox.Base.Dict.{Dict, NodupKeys, Entries, lookup, insert}
use base_line_prox.Base.Text.{codes}
use base_line_prox.Base.Lines.{split_lines, keep_lines, words, strip, strip_start, strip_codes}
use base_line_prox.Base.Sorting.{sort_texts}
use base_line_prox.Interfaces.Data.{Text}
use base_line_prox.Interfaces.Closure.{content, IsPlainFile}
use base_line_prox.Interfaces.Parser.{parse_files}
use base_line_prox.Interfaces.Rewrite.{rewrite_stanza_to_dhcp}
use base_line_prox.Interfaces.Recognize.{
  iface_header, source_target, source_directory, is_auto, option_line, is_comment_or_blank,
  has_glob_metachars,
}
use base_line_prox.Repair.Reading.{
  out_of_fuel, read_interfaces_config, Directories, read_closure, unseen_targets, file_targets,
}
use base_line_prox.Repair.Host.{CommandResult, Attempt, Probe, Host, World, Stop}
use base_line_prox.Repair.Attempts.{rollback_unit_name, backup_name, pruned, prune_old_backups}
use base_line_prox.Repair.Checks.{
  VerificationResult, verify_target, is_standalone, has_ifupdown2, is_healthy, may_disconnect,
  find_protected_sessions,
}
use base_line_prox.Repair.Backups.{HaveNames}
use base_line_prox.Repair.Before.{OnOk}
use base_line_prox.Repair.Settles.{repair-IsSettled}
use base_line_prox.Repair.Restores.{rollback_succeeds}
use base_line_prox.Repair.Retention.{IsPrunable, prune_removes_old}
use base_line_prox.Repair.Terminates.{read_closure_ends}
use base_line_prox.Repair.Safe.{Holds, Has, CanRollBack, IsLeft}
use base_line_prox.Repair.Writes.{IsSettled}
use base_line_prox.Repair.Recovers.{repair_then_rollback}
use base_line_prox.Repair.Pipeline.{
  replacing, repair, Request, RepairResult, rolled_back, interfaces_path, reset_interface_to_dhcp,
}
use base_line_prox.Repair.Rollback.{same_boot_rollback}
use base_line_prox.Repair.Tests.Fixture.{
  interfaces, disk, directories, succeeds, fails, probe, world, request, host,
}

abbrev unverified : RepairResult
unverified = record { outcome = rolled_back; verification = [] }

reads : read_closure directories interfaces_path disk ≡ ok disk
unfolding read_closure lookup insert codes_eq nat_eq file_targets unseen_targets split_lines words
    source_target source_directory
reads = refl

abbrev broken : Host Text
broken = (reset_interface_to_dhcp world request host).1

fails_verification : (reset_interface_to_dhcp world request host).0 ≡ ok unverified
unfolding reset_interface_to_dhcp lookup insert codes_eq nat_eq string_eq split_lines keep_lines
    words strip strip_start strip_codes iface_header source_target source_directory is_auto
    option_line is_comment_or_blank has_glob_metachars is_standalone has_ifupdown2
    read_interfaces_config parse_files is_healthy may_disconnect find_protected_sessions
    rewrite_stanza_to_dhcp
fails_verification = refl

fails_verification_pair : repair world (replacing world) request host ≡ (ok unverified, broken)
unfolding reset_interface_to_dhcp
fails_verification_pair = ap (λ (r : Result Stop RepairResult). (r, broken)) fails_verification

is_rewritten :
    content interfaces_path broken.files
    ≡ codes "auto lo\niface lo inet loopback\n\niface eno1 inet dhcp\n"
unfolding reset_interface_to_dhcp lookup insert codes_eq nat_eq string_eq split_lines keep_lines
    words strip strip_start strip_codes iface_header source_target source_directory is_auto
    option_line is_comment_or_blank has_glob_metachars is_standalone has_ifupdown2
    read_interfaces_config parse_files is_healthy may_disconnect find_protected_sessions
    rewrite_stanza_to_dhcp
is_rewritten = refl

stays_armed : contains broken.timers (rollback_unit_name request.attempt_id) ≡ true
unfolding reset_interface_to_dhcp rollback_unit_name lookup insert codes_eq nat_eq string_eq
    split_lines keep_lines words strip strip_start strip_codes iface_header source_target
    source_directory is_auto option_line is_comment_or_blank has_glob_metachars is_standalone
    has_ifupdown2 read_interfaces_config parse_files is_healthy may_disconnect
    find_protected_sessions rewrite_stanza_to_dhcp
stays_armed = refl

abbrev restored : Host Text
restored = (same_boot_rollback world request.attempt_id broken).1

rolls_back : (same_boot_rollback world request.attempt_id broken).0 ≡ ok 0
unfolding same_boot_rollback reset_interface_to_dhcp rollback_unit_name lookup insert codes_eq
    nat_eq string_eq split_lines keep_lines words strip strip_start strip_codes iface_header
    source_target source_directory is_auto option_line is_comment_or_blank has_glob_metachars
    is_standalone has_ifupdown2 read_interfaces_config parse_files is_healthy may_disconnect
    find_protected_sessions rewrite_stanza_to_dhcp backup_name
rolls_back = refl

plain : OnOk (Entries IsPlainFile) (read_closure directories interfaces_path disk)
plain = rw reads (omega arith)

named : OnOk HaveNames (read_closure directories interfaces_path disk)
named = rw reads (refl, tt)

repair_then_rollback_example :
    content interfaces_path restored.files ≡ content interfaces_path (world.edits host.files)
repair_then_rollback_example =
    repair_then_rollback world world (replacing world) request refl (λ path text. refl) (λ s t h. h)
      refl host broken restored unverified named plain plain (refl, refl) fails_verification_pair
      stays_armed (ap (λ (c : Result Stop ℕ). (c, restored)) rolls_back) interfaces_path

repair-IsSettled_example :
    Holds
      (IsSettled world (replacing world) request disk)
      (IsLeft world request.attempt_id disk (world.edits disk))
      (repair world (replacing world) request host)
repair-IsSettled_example =
    repair-IsSettled world (replacing world) request disk refl (λ path text. refl) (λ s t h. h)
      named plain plain host refl (refl, refl)

can_roll_back : CanRollBack world request.attempt_id disk broken
can_roll_back =
    subst
      (Holds (IsSettled world (replacing world) request disk)
        (IsLeft world request.attempt_id disk (world.edits disk)))
      fails_verification_pair
      (repair-IsSettled world (replacing world) request disk refl (λ path text. refl) (λ s t h. h)
        named plain plain host refl (refl, refl))

abbrev unreachable : VerificationResult
unreachable = record { verified = false; address = codes "192.0.2.9"; gateway = [] }

unreachable_is_read : verify_target world false ≡ ok unreachable
unfolding verify_target codes_eq nat_eq
unreachable_is_read = refl

rollback_succeeds_example :
    (after : Host Text) × (same_boot_rollback world request.attempt_id broken ≡ (ok 0, after))
    × Has world request.attempt_id disk after
    × (after.pending ≡ none)
rollback_succeeds_example =
    rollback_succeeds world request.attempt_id disk (λ s t h. h) (λ path text. refl) broken
      can_roll_back (ground arith) unreachable unreachable_is_read
