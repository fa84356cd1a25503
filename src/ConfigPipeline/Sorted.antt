-- ===== src/ConfigPipeline/Sorted.antt =====
-- Each subsystem is reported once, whatever fails, and the iperf3 server never runs without the firewall.
use base_line_prox.Base.{
  ℕ, ◌+◌, ◌<◌, ◌↔◌, ◌≡◌, String, Bool, true, false, ◌&&◌, Option, none, some, List, [], ◌∷◌, ◌++◌,
  ◌==◌, string_eq, arith, if◌then◌else◌, contains,
}
use base_line_prox.ConfigPipeline.Pipeline.{
  Setting, Section, Config, Apply, Summary, run_subsystem, iperf3_apply, is_server, is_present,
  without_config, first_sections, tool_sections, last_sections, apply_stored_config,
}

abbrev pub count : String → List String → ℕ
count n [] = 0
count n (x ∷ xs) = (if n == x then 1 else 0) + count n xs

count-append : (n : String) (xs ys : List String) → count n (xs ++ ys) ≡ count n xs + count n ys
count-append n [] ys = omega arith
count-append n (x ∷ xs) ys = ground (arith, count-append n xs ys)

-- how often a name is reported
abbrev pub reports : String → Summary → ℕ
reports n s = count n s.applied + count n s.skipped + count n s.failed

abbrev one : String → String → ℕ
one n name = if n == name then 1 else 0

reports-run_subsystem :
    (n name : String) (present : Bool) (r : Option Bool) (s : Summary)
    → reports n (run_subsystem name present r s) ≡ reports n s + one n name
unfolding run_subsystem
reports-run_subsystem n name present r s =
    let a = count-append n s.applied (name ∷ []) in
    let b = count-append n s.skipped (name ∷ []) in
    let c = count-append n s.failed (name ∷ []) in ground arith

abbrev pub subsystems : List String
subsystems =
    "network" ∷ "firewall" ∷ "ssh" ∷ "tether" ∷ "handoff" ∷ "smartd" ∷ "ethtool" ∷ "iperf3"
    ∷ "cpu_microcode" ∷ "wifi_firmware" ∷ []

module _ (a : Apply) where
  reports-first :
      (n : String) (c : Config) (enforce : Bool)
      → reports n (first_sections a c enforce)
        ≡ one n "network" + one n "firewall" + one n "ssh" + one n "tether" + one n "handoff"
  unfolding first_sections
  reports-first n c enforce = omega (arith, reports-run_subsystem)

  reports-tools :
      (n : String) (c : Config) (i : Setting) (s : Summary)
      → reports n (tool_sections a c i s) ≡ reports n s + one n "smartd" + one n "ethtool"
  unfolding tool_sections
  reports-tools n c i s = omega (arith, reports-run_subsystem)

  reports-last :
      (n : String) (c : Config) (s : Summary)
      → reports n (last_sections a c s)
        ≡ reports n s + one n "iperf3" + one n "cpu_microcode" + one n "wifi_firmware"
  unfolding last_sections
  reports-last n c s = omega (arith, reports-run_subsystem)

  -- Every subsystem is reported once and nothing else is, as applied, skipped or failed, whatever the
  -- config holds and whatever each function returns or raises.
  pub each_reported_once :
      (n : String) (config : Option Config) (interface : Setting) (enforce : Bool)
      → reports n (apply_stored_config a config interface enforce) ≡ count n subsystems
  unfolding apply_stored_config without_config
  each_reported_once n none interface true = ground arith
  each_reported_once n none interface false = ground arith
  each_reported_once n (some c) interface enforce =
      let s = first_sections a c enforce in
      let t = tool_sections a c interface s in
      omega (arith, reports-first n c enforce, reports-tools n c interface s, reports-last n c t)

abbrev succeeds : Option Bool → Bool
succeeds r = elim r [ some ok ↦ ok | none ↦ false ]

-- how often a name is among the applied ones after a subsystem
applied-run_subsystem :
    (x name : String) (present : Bool) (r : Option Bool) (s : Summary)
    → count x (run_subsystem name present r s).applied
      ≡ count x s.applied + (if x == name then (if present && succeeds r then 1 else 0) else 0)
unfolding run_subsystem
applied-run_subsystem x name present r s =
    let e = count-append x s.applied (name ∷ []) in ground arith

contains_iff_counted : (x : String) (xs : List String) → (contains xs x ≡ true) ↔ (0 < count x xs)
contains_iff_counted x [] = ground arith
contains_iff_counted x (y ∷ xs) = ground (arith, contains_iff_counted x xs)

must_count : (m n : ℕ) (p q : Bool) → 0 < m → n ≡ 0 → m ≡ n + (if p && q then 1 else 0) → q ≡ true
must_count m n p q h k e = ground arith

module _ (a : Apply) where
  iperf3_uncounted :
      (c : Config) (interface : Setting) (enforce : Bool)
      → count "iperf3" (tool_sections a c interface (first_sections a c enforce)).applied ≡ 0
  unfolding tool_sections first_sections string_eq
  iperf3_uncounted c interface enforce = omega (arith, applied-run_subsystem)

  iperf3_counted :
      (c : Config) (s : Summary)
      → count "iperf3" (last_sections a c s).applied
        ≡ count "iperf3" s.applied
          + (if is_present c.iperf3 && succeeds (iperf3_apply a c.iperf3 s) then 1 else 0)
  unfolding last_sections string_eq
  iperf3_counted c s = omega (arith, applied-run_subsystem)

  firewall_counted :
      (c : Config) (s : Summary)
      → count "firewall" (last_sections a c s).applied ≡ count "firewall" s.applied
  unfolding last_sections string_eq
  firewall_counted c s = omega (arith, applied-run_subsystem)

  server_refused :
      (section : Section) (s : Summary)
      → is_server section ≡ true
      → succeeds (iperf3_apply a section s) ≡ true
      → contains s.applied "firewall" ≡ true
  unfolding iperf3_apply
  server_refused section s server h = ground arith

  -- An iperf3 server is reported as applied only if the firewall is, whatever else the config holds.
  pub server_behind_firewall :
      (c : Config) (interface : Setting) (enforce : Bool)
      → is_server c.iperf3 ≡ true
      → contains (apply_stored_config a (some c) interface enforce).applied "iperf3" ≡ true
      → contains (apply_stored_config a (some c) interface enforce).applied "firewall" ≡ true
  unfolding apply_stored_config
  server_behind_firewall c interface enforce server h =
      let s = tool_sections a c interface (first_sections a c enforce) in
      let counted = (contains_iff_counted "iperf3" (last_sections a c s).applied).0 h in
      let succeeded =
        must_count _ _ (is_present c.iperf3) (succeeds (iperf3_apply a c.iperf3 s)) counted
          (iperf3_uncounted c interface enforce) (iperf3_counted c s) in
      let before =
        (contains_iff_counted "firewall" s.applied).0
          (server_refused c.iperf3 s server succeeded) in
      (contains_iff_counted "firewall" (last_sections a c s).applied).1
        (omega (arith, before, firewall_counted c s))
