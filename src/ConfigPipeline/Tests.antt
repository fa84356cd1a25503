-- ===== src/ConfigPipeline/Tests.antt =====
-- A config with an iperf3 server, applied where one function raises and the firewall works.
use base_line_prox.Base.{◌≡◌, refl, true, false, none, some, [], ◌∷◌, contains, string_eq}
use base_line_prox.Base.Dict.{lookup}
use base_line_prox.ConfigPipeline.Pipeline.{
  text, boolean, Config, Apply, is_server, apply_stored_config,
}
use base_line_prox.ConfigPipeline.Sorted.{server_behind_firewall}

abbrev functions : Apply
functions = record {
  network = λ s. none;
  firewall = λ s. some true;
  ssh = λ s. some false;
  tether = λ s. some true;
  handoff = λ s. some true;
  smartd = λ s. some true;
  ethtool = λ i s. some true;
  iperf3 = λ s. some true;
  cpu_microcode = λ p. some true;
  wifi_firmware = λ p. some true;
}

abbrev exported : Config
exported = record {
  network = ("hostname", text "pve") ∷ [];
  firewall = [];
  ssh = ("password", boolean false) ∷ [];
  tether = [];
  handoff = [];
  proxmox = [];
  drivers = ("cpu_microcode", boolean true) ∷ [];
  iperf3 = ("role", text "server") ∷ [];
}

serves : is_server exported.iperf3 ≡ true
unfolding lookup string_eq
serves = refl

runs_iperf3 :
    contains (apply_stored_config functions (some exported) (text "eno1") true).applied "iperf3"
    ≡ true
unfolding apply_stored_config lookup string_eq
runs_iperf3 = refl

server_behind_firewall_example :
    contains (apply_stored_config functions (some exported) (text "eno1") true).applied "firewall"
    ≡ true
server_behind_firewall_example =
    server_behind_firewall functions exported (text "eno1") true serves runs_iperf3
