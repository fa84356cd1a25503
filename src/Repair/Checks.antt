-- ===== src/Repair/Checks.antt =====
-- The questions of baseline/lib/repair.py to the host, each over the output of its commands, and
-- `verify_target_extended` of repair_additive.py.
use base_line_prox.Base.{
  ℕ, ◌+◌, ◌-◌, ◌*◌, String, Bool, true, false, not, ◌&&◌, ◌||◌, Option, none, some, List, [], ◌∷◌,
  ◌++◌, ◌==◌, codes_eq, nat_eq, string_eq, if◌then◌else◌, leb, all, keep, contains, drop, get_elem?,
  Result, ok, err,
}
use base_line_prox.Base.Dict.{Dict, lookup, insert}
use base_line_prox.Base.Text.{codes}
use base_line_prox.Base.Lines.{
  split_lines, split_at, words, strip, strip_start, strip_codes, is_empty,
}
use base_line_prox.Interfaces.Data.{Text, has_none}
use base_line_prox.Repair.Host.{CommandResult, Probe, World, Stop, crashed}

abbrev pub succeeded : CommandResult → Bool
succeeded r = r.returncode == 0

abbrev pub says_something : CommandResult → Bool
says_something r = not (is_empty (strip r.stdout))

abbrev starts_with : Text → Text → Bool
starts_with prefix s = elim (strip_codes prefix s) [ none ↦ false | some rest ↦ true ]

-- the text behind the last separator, or all of it
unfoldable pub after_last : ℕ → Text → Text
after_last sep [] = []
after_last sep (c ∷ s) =
    let rest = after_last sep s in if contains s sep then rest else if c == sep then s else c ∷ s

-- `int(s)`, of decimal digits
read_digits : ℕ → Text → Option ℕ
read_digits n [] = some n
read_digits n (c ∷ s) =
    let rest = read_digits (n * 10 + (c - b'0')) s in
    if leb b'0' c && leb c b'9' then rest else none

abbrev read_number : Text → Option ℕ
read_number [] = none
read_number (c ∷ s) = read_digits 0 (c ∷ s)

-- the session of a line of `ss`: its port and its peer
pub data ProtectedSession : Type 0 where
  unknown_session : ProtectedSession
  session : ℕ → Text → ProtectedSession

abbrev peer_of : List Text → Text
peer_of parts = elim (get_elem? parts 4) [ none ↦ codes "?" | some peer ↦ peer ]

line_sessions : List ℕ → Text → List ProtectedSession
line_sessions ports line = elim (get_elem? (words line) 3) [
  | none ↦ []
  | some local ↦ elim (read_number (after_last b':' local)) [
    | none ↦ []
    | some port ↦ if contains ports port then session port (peer_of (words line)) ∷ [] else []
  ]
]

lines_sessions : List ℕ → List Text → List ProtectedSession
lines_sessions ports [] = []
lines_sessions ports (line ∷ lines) = line_sessions ports line ++ lines_sessions ports lines

-- what stands behind the first such word, where there is one
word_after : Text → List Text → Option (Option Text)
word_after key [] = none
word_after key (w ∷ ws) =
    let rest = word_after key ws in if w == key then some (get_elem? ws 0) else rest

abbrev first_part : ℕ → Text → Text
first_part sep s = elim (split_at sep s) [ [] ↦ [] | p ∷ ps ↦ p ]

-- `address` after the loop over the lines; an `inet` with nothing behind it raises
pub address_from : Text → List Text → Result Stop Text
address_from address [] = ok address
address_from address (line ∷ lines) = elim (word_after (codes "inet") (words line)) [
  | none ↦ address_from address lines
  | some none ↦ err crashed
  | some (some w) ↦ address_from (first_part b'/' w) lines
]

-- `gateway` after the loop over the lines
pub gateway_from : Text → List Text → Result Stop Text
gateway_from gateway [] = ok gateway
gateway_from gateway (line ∷ lines) =
    if starts_with (codes "default via") line
    then elim (get_elem? (words line) 2) [ none ↦ err crashed | some w ↦ gateway_from w lines ]
    else gateway_from gateway lines

pub record VerificationResult : Type 0 where
  pub verified : Bool
  pub address : Text
  pub gateway : Text

abbrev pub failed_with : Text → Text → VerificationResult
failed_with address gateway = record { verified = false; address = address; gateway = gateway }

-- one round of `verify_target`
unfoldable pub verify_once : Probe → Result Stop VerificationResult
unfolding address_from gateway_from word_after split_lines split_at words strip_codes
verify_once p = elim (address_from [] (split_lines p.addresses.stdout)) [
  | err e ↦ err e
  | ok address ↦
      if is_empty address
      then ok (failed_with [] [])
      else elim (gateway_from [] (split_lines p.routes.stdout)) [
        | err e ↦ err e
        | ok gateway ↦
            if is_empty gateway
            then ok (failed_with address [])
            else if not (succeeded p.ping)
            then ok (failed_with address gateway)
            else ok (record { verified = true; address = address; gateway = gateway })
      ]
]

-- the second round, behind a delay, decides; the first one's address and gateway are reported
abbrev stabilized : VerificationResult → VerificationResult → VerificationResult
stabilized v again = if again.verified then v else failed_with v.address v.gateway

module _ {D : Type 0} (w : World D) where
  unfoldable pub is_standalone : Bool
  unfolding strip
  is_standalone =
      not (w.corosync_config || (succeeded w.pvecm_status && says_something w.pvecm_status))

  unfoldable pub has_ifupdown2 : Bool
  unfolding strip
  has_ifupdown2 =
      succeeded w.which_ifreload && says_something w.which_ifreload && succeeded w.ifupdown2_version

  -- SSH, the web interface of Proxmox, and the ports of `protected_ports.json`
  abbrev pub protected_ports : List ℕ
  protected_ports = 22 ∷ 8006 ∷ w.extra_ports

  unfoldable pub find_protected_sessions : List ProtectedSession
  unfolding lines_sessions line_sessions read_digits after_last split_lines words
  find_protected_sessions =
      if succeeded w.sockets
      then lines_sessions protected_ports (drop 1 (split_lines w.sockets.stdout))
      else unknown_session ∷ []

  -- `check_connection_guard` lets the repair go on
  unfoldable pub may_disconnect : Bool → Bool
  may_disconnect operator_present = has_none find_protected_sessions || operator_present

  abbrev fact_map : List (String × Bool) → Dict String Bool → Dict String Bool
  fact_map [] d = d
  fact_map ((fact, holds) ∷ facts) d = fact_map facts (insert fact holds d)

  abbrev missing_or_true : Option Bool → Bool
  missing_or_true none = true
  missing_or_true (some b) = b

  unfoldable pub is_healthy : Bool
  unfolding lookup insert
  is_healthy =
      let facts = fact_map w.facts [] in
      missing_or_true (lookup "gateway_reachable" facts)
      && missing_or_true (lookup "address_assigned" facts)

  -- `_syntax_check_advisory_only`
  unfoldable pub advisory_only : Text → Bool
  unfolding split_lines strip strip_start strip_codes
  advisory_only stderr =
      let lines = keep (λ line. not (is_empty (strip line))) (split_lines stderr) in
      not (has_none lines) && all (λ line. starts_with (codes "warning:") (strip_start line)) lines

  unfoldable pub verify_target : Bool → Result Stop VerificationResult
  unfolding verify_once
  verify_target stabilize = elim (verify_once w.first_probe) [
    | err e ↦ err e
    | ok v ↦
        if v.verified && stabilize
        then elim (verify_once w.second_probe) [
          | err e ↦ err e
          | ok again ↦ ok (stabilized v again)
        ]
        else ok v
  ]

  abbrev is_digit : ℕ → Bool
  is_digit c = leb b'0' c && leb c b'9'

  -- `curl` printed a code of HTTP other than 000
  abbrev pub is_http_code : Text → Bool
  is_http_code code = not (is_empty code) && all is_digit code && not (code == codes "000")

  unfoldable pub verify_target_extended : Result Stop VerificationResult
  unfolding verify_target strip
  verify_target_extended = elim (verify_target true) [
    | err e ↦ err e
    | ok v ↦
        if not v.verified
        then ok v
        else if not (succeeded w.name_lookup && says_something w.name_lookup)
        then ok (failed_with v.address v.gateway)
        else if not (succeeded w.fetch && is_http_code (strip w.fetch.stdout))
        then ok (failed_with v.address v.gateway)
        else ok v
  ]
