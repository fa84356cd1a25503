-- ===== src/Repair/Tests/Fixture.antt =====
-- A host whose one interface has a static address, and what its commands print.
use base_line_prox.Base.{String, true, false, none, [], ◌∷◌, codes_eq, nat_eq, string_eq}
use base_line_prox.Base.Dict.{Dict}
use base_line_prox.Base.Text.{codes}
use base_line_prox.Interfaces.Data.{Text}
use base_line_prox.Repair.Reading.{Directories}
use base_line_prox.Repair.Host.{CommandResult, Probe, Host, World}
use base_line_prox.Repair.Pipeline.{Request, interfaces_path}

abbrev pub interfaces : Text
interfaces =
    codes "auto lo\niface lo inet loopback\n\niface eno1 inet static\n\taddress 192.0.2.9/24\n"

abbrev pub disk : Dict Text Text
disk = (interfaces_path, interfaces) ∷ []

abbrev pub directories : Directories
directories = record { listing = λ d. none; matches = λ entry pattern. false }

abbrev pub succeeds : String → CommandResult
succeeds output = record { returncode = 0; stdout = codes output; stderr = [] }

abbrev pub fails : CommandResult
fails = record { returncode = 1; stdout = []; stderr = [] }

-- an address, and no route
abbrev pub probe : Probe
probe = record {
  addresses = succeeds "2: eno1    inet 192.0.2.9/24 scope global eno1";
  routes = succeeds "";
  ping = fails;
}

abbrev pub world : World Text
world = record {
  directories = directories;
  sha256 = λ text. text;
  written = λ path text. text;
  now = 0;
  corosync_config = false;
  pvecm_status = fails;
  which_ifreload = succeeds "/usr/sbin/ifreload";
  ifupdown2_version = succeeds "3.3.0";
  extra_ports = [];
  sockets = succeeds "Recv-Q Send-Q Local Peer";
  facts = ("gateway_reachable", false) ∷ [];
  edits = λ files. files;
  systemd_run = succeeds "";
  systemctl_stop = succeeds "";
  syntax_check = succeeds "";
  reload = succeeds "";
  dhclient = succeeds "";
  first_probe = probe;
  second_probe = probe;
  name_lookup = fails;
  fetch = fails;
}

abbrev pub request : Request
request = record {
  attempt_id = codes "a1";
  observed_dev = codes "eno1";
  proposed_target = [];
  operator_present = true;
}

abbrev pub host : Host Text
host = record { files = disk; attempts = []; pending = none; timers = []; log = [] }
