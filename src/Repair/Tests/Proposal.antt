-- ===== src/Repair/Tests/Proposal.antt =====
-- A bridge over the device that was observed, which is proposed and then derived again.
use base_line_prox.Base.{[], ◌∷◌}
use base_line_prox.Base.Text.{codes}
use base_line_prox.Interfaces.Data.{Text}
use base_line_prox.Topology.Stanzas.{Stanza, bridge}
use base_line_prox.Topology.Walk.{TargetCandidate}
use base_line_prox.Repair.Host.{Host}
use base_line_prox.Repair.Pipeline.{Request, interfaces_path}
use base_line_prox.Repair.Tests.Fixture.{request, host}

abbrev bridged : Host Text
bridged = record host {
  files =
      (
        interfaces_path,
        codes "iface eno1 inet manual\n\niface vmbr0 inet static\n\tbridge-ports eno1\n",
      )
      ∷ [];
}

abbrev stanza : Stanza
stanza = record {
  name = codes "vmbr0";
  family = codes "inet";
  method = codes "static";
  options = (codes "bridge-ports", codes "eno1") ∷ [];
  lines = codes "iface vmbr0 inet static" ∷ codes "\tbridge-ports eno1" ∷ [];
  source_path = interfaces_path;
  line_start = 2;
  line_end = 4;
}

abbrev vmbr0 : TargetCandidate
vmbr0 = record {
  name = codes "vmbr0";
  kind = bridge;
  stanza = stanza;
  physical_devices = codes "eno1" ∷ [];
}

abbrev at_target : Request
at_target = record request { observed_dev = codes "vmbr0" }
