-- ===== src/Repair/Tests/Success.antt =====
-- A repair that succeeds, and what the first boot takes for evidence.
use text.Mathlib.TextEquality.{eq_iff}
use base_line_prox.Base.{
  ◌≡◌, refl, ap, true, some, [], ◌∷◌, codes_eq, nat_eq, string_eq, Result, ok,
}
use base_line_prox.Base.Dict.{lookup, insert}
use base_line_prox.Base.Lines.{split_lines, keep_lines, words, strip, strip_start, strip_codes}
use base_line_prox.Interfaces.Data.{Text}
use base_line_prox.Interfaces.Parser.{parse_files}
use base_line_prox.Interfaces.Rewrite.{rewrite_stanza_to_dhcp}
use base_line_prox.Interfaces.Recognize.{
  iface_header, source_target, source_directory, is_auto, option_line, is_comment_or_blank,
  has_glob_metachars,
}
use base_line_prox.Repair.Reading.{read_interfaces_config}
use base_line_prox.Repair.Host.{Probe, World, Stop}
use base_line_prox.Repair.Checks.{
  verify_target, is_standalone, has_ifupdown2, is_healthy, may_disconnect, find_protected_sessions,
}
use base_line_prox.Repair.Pipeline.{replacing, RepairResult, reset_interface_to_dhcp}
use base_line_prox.Repair.Tests.Fixture.{succeeds, world, request, host}
use base_line_prox.FirstBoot.Journal.{is_true, network, require_evidence}
use base_line_prox.Repair.Evident.{as_checks, require_evidence-repair}
use base_line_prox.Repair.Pipeline.{success}

-- an address by DHCP, and a gateway that answers
abbrev reached : Probe
reached = record {
  addresses = succeeds "2: eno1    inet 192.0.2.77/24 scope global dynamic eno1";
  routes = succeeds "default via 192.0.2.1 dev eno1";
  ping = succeeds "";
}

abbrev reachable : World Text
reachable = record world { first_probe = reached; second_probe = reached }

abbrev verified : RepairResult
verified = record { outcome = success; verification = ("address", true) ∷ ("gateway", true) ∷ [] }

succeeds_now : (reset_interface_to_dhcp reachable request host).0 ≡ ok verified
unfolding reset_interface_to_dhcp lookup insert codes_eq nat_eq string_eq split_lines keep_lines
    words strip strip_start strip_codes iface_header source_target source_directory is_auto
    option_line is_comment_or_blank has_glob_metachars is_standalone has_ifupdown2
    read_interfaces_config parse_files is_healthy may_disconnect find_protected_sessions
    rewrite_stanza_to_dhcp verify_target
succeeds_now = refl

require_evidence-repair_example :
    require_evidence (
      network
        (record {
          network_ok = is_true;
          target_interface = some "eno1";
          verification = some (as_checks verified.verification);
        })
        "reset")
    ≡ ok tt
unfolding reset_interface_to_dhcp string_eq
require_evidence-repair_example =
    require_evidence-repair reachable (replacing reachable) request host
      (reset_interface_to_dhcp reachable request host).1 verified "eno1" "reset"
      (ap
        (λ (r : Result Stop RepairResult). (r, (reset_interface_to_dhcp reachable request host).1))
        succeeds_now)
      refl (λ q. cc ((eq_iff "eno1" "").1 q))
