-- ===== src/ConfigPipeline/Pipeline.antt =====
-- `apply_stored_config` of baseline/lib/config_pipeline.py.
-- A section of the exported config is a dict of settings; one that is missing or empty is empty here, as
-- for `config.get(...) or {}`. What each function of config_apply.py returns is the record `Apply`: its
-- `ok`, or `none` where it raises.
use base_line_prox.Base.{
  ℕ, String, Bool, true, false, not, ◌&&◌, ◌||◌, Option, none, some, List, [], ◌∷◌, ◌++◌, ◌==◌,
  string_eq, nat_eq, if◌then◌else◌, any, contains,
}
use base_line_prox.Base.Dict.{Dict, lookup, has_key}

pub data Setting : Type 0 where
  text : String → Setting
  boolean : Bool → Setting
  number : ℕ → Setting
  null : Setting

abbrev pub Section : Type 0
Section = Dict String Setting

pub record Config : Type 0 where
  pub network : Section
  pub firewall : Section
  pub ssh : Section
  pub tether : Section
  pub handoff : Section
  pub proxmox : Section
  pub drivers : Section
  -- `diagnostics.iperf3`
  pub iperf3 : Section

pub record Apply : Type 0 where
  pub network : Section → Option Bool
  pub firewall : Section → Option Bool
  pub ssh : Section → Option Bool
  pub tether : Section → Option Bool
  pub handoff : Section → Option Bool
  pub smartd : Section → Option Bool
  -- the interface comes first
  pub ethtool : Setting → Section → Option Bool
  pub iperf3 : Section → Option Bool
  -- by the package's name
  pub cpu_microcode : Setting → Option Bool
  pub wifi_firmware : Setting → Option Bool

pub record Summary : Type 0 where
  pub applied : List String
  pub skipped : List String
  pub failed : List String

abbrev pub smartd_keys : List String
smartd_keys =
    "smartd_health_check" ∷ "smartd_monitor_all" ∷ "smartd_auto_offline"
    ∷ "smartd_attribute_autosave" ∷ "smartd_selftest_schedule" ∷ "smartd_email"
    ∷ "smartd_email_frequency" ∷ []

abbrev pub ethtool_keys : List String
ethtool_keys =
    "ethtool_autoneg" ∷ "ethtool_speed" ∷ "ethtool_duplex" ∷ "ethtool_wol" ∷ "ethtool_rx_checksum"
    ∷ "ethtool_tx_checksum" ∷ "ethtool_tso" ∷ "ethtool_gro" ∷ "ethtool_pause_autoneg" ∷ []

-- `_has_any_key`
unfoldable pub has_any_key : Section → List String → Bool
has_any_key section names = any (λ k. has_key k section) names

abbrev is_truthy : Setting → Bool
is_truthy (text s) = not (s == "")
is_truthy (boolean b) = b
is_truthy (number n) = not (n == 0)
is_truthy null = false

-- `section.get(name) or default`
abbrev get_or : String → Section → Setting → Setting
get_or name section default = elim (lookup name section) [
  | none ↦ default
  | some v ↦ if is_truthy v then v else default
]

abbrev is_set : String → Section → Bool
is_set name section = elim (lookup name section) [ none ↦ false | some v ↦ is_truthy v ]

abbrev pub is_present : Section → Bool
is_present s = elim s [ [] ↦ false | x ∷ xs ↦ true ]

-- `run_subsystem`
unfoldable pub run_subsystem : String → Bool → Option Bool → Summary → Summary
run_subsystem name present result s =
    if not present then record s { skipped = s.skipped ++ name ∷ [] } else elim result [
      | some true ↦ record s { applied = s.applied ++ name ∷ [] }
      | _ ↦ record s { failed = s.failed ++ name ∷ [] }
    ]

-- the test of `iperf3_apply`
abbrev pub is_server : Section → Bool
is_server section = elim (lookup "role" section) [ some (text r) ↦ r == "server" | _ ↦ false ]

module _ (a : Apply) where
  unfoldable pub iperf3_apply : Section → Summary → Option Bool
  iperf3_apply section s =
      if is_server section && not (contains s.applied "firewall")
      then some false
      else a.iperf3 section

  -- `_lan_only`, on no section
  abbrev lan_only : Bool
  lan_only = elim (a.firewall []) [ some ok ↦ ok | none ↦ false ]

  abbrev nothing_done : Summary
  nothing_done = record { applied = []; skipped = []; failed = [] }

  unfoldable pub without_config : Bool → Summary
  without_config enforce_lan_only =
      let skipped =
        "network" ∷ "ssh" ∷ "tether" ∷ "handoff" ∷ "smartd" ∷ "ethtool" ∷ "iperf3" ∷ "cpu_microcode"
        ∷ "wifi_firmware" ∷ [] in
      if not enforce_lan_only
      then record { applied = []; skipped = skipped ++ "firewall" ∷ []; failed = [] }
      else if lan_only
      then record { applied = "firewall" ∷ []; skipped = skipped; failed = [] }
      else record { applied = []; skipped = skipped; failed = "firewall" ∷ [] }

  -- up to the firewall and behind it, up to iperf3, and the drivers
  unfoldable pub first_sections : Config → Bool → Summary
  unfolding run_subsystem
  first_sections c enforce_lan_only =
      let s = run_subsystem "network" (is_present c.network) (a.network c.network) nothing_done in
      let s =
        run_subsystem "firewall" (enforce_lan_only || is_present c.firewall) (a.firewall c.firewall)
          s in
      let s = run_subsystem "ssh" (is_present c.ssh) (a.ssh c.ssh) s in
      let s = run_subsystem "tether" (is_present c.tether) (a.tether c.tether) s in
      run_subsystem "handoff" (is_present c.handoff) (a.handoff c.handoff) s

  unfoldable pub tool_sections : Config → Setting → Summary → Summary
  unfolding run_subsystem has_any_key
  tool_sections c network_interface s =
      let interface = get_or "ethtool_interface" c.proxmox network_interface in
      let s = run_subsystem "smartd" (has_any_key c.proxmox smartd_keys) (a.smartd c.proxmox) s in
      run_subsystem "ethtool" (has_any_key c.proxmox ethtool_keys) (a.ethtool interface c.proxmox) s

  unfoldable pub last_sections : Config → Summary → Summary
  unfolding run_subsystem iperf3_apply
  last_sections c s =
      let s = run_subsystem "iperf3" (is_present c.iperf3) (iperf3_apply c.iperf3 s) s in
      let s =
        run_subsystem "cpu_microcode" (is_set "cpu_microcode" c.drivers)
          (a.cpu_microcode (get_or "cpu_microcode_package" c.drivers (text "amd64-microcode"))) s in
      run_subsystem "wifi_firmware" (is_set "nic_wifi_firmware" c.drivers)
        (a.wifi_firmware (get_or "wifi_firmware_package" c.drivers (text "firmware-mediatek"))) s

  -- `none` is no config, or an empty one
  unfoldable pub apply_stored_config : Option Config → Setting → Bool → Summary
  unfolding without_config first_sections tool_sections last_sections
  apply_stored_config none network_interface enforce_lan_only = without_config enforce_lan_only
  apply_stored_config (some c) network_interface enforce_lan_only =
      last_sections c (tool_sections c network_interface (first_sections c enforce_lan_only))
