-- ===== src/Persistence/Tests.antt =====
-- A store that is attached, a ledger of three entries under a MAC that differs for different texts, and
-- the theorems at them.
use Prim.Native.Char.{code}
use base_line_prox.Base.{
  ℕ, zero, suc, ◌≡◌, ◌≢◌, ◌↔◌, refl, ap, String, true, false, [], ◌∷◌, ◌++◌, arith, All, string_eq,
  length, ok, err,
}
use base_line_prox.Persistence.Grants.{
  disable, uninstall, active, revoked, Grant, suspends, reactivates, installed, Application,
  delete_state, disables, uninstalls, re_enables, changes, act_all,
}
use base_line_prox.Persistence.Access.{IsIdle, IsRevoked, act_all-IsIdle, deleted_for_good}
use base_line_prox.Persistence.Attachment.{
  AttachmentState, absent, detected_unknown, authorized, requires_recovery, state_eq,
  no_legal_transition, attempt_transition,
}
use base_line_prox.Persistence.Earned.{
  Attachment, start, step, IsTrusted, states_are-Earned, dead_ends,
}
use base_line_prox.Persistence.Ledger.{
  Canonical, LedgerEntry, Hmac, AuthorityLedger, create, last_mac, append, verify_from,
  verify_chain,
}
use base_line_prox.Persistence.Chain.{append_verifies, gap_detected, cut_verifies}
use base_line_prox.Persistence.Evidence.{
  carrier_identity, directly_read, uncorroborated, EvidenceClaim, equivalent, ambiguous_refusal,
  distinct, relevant, evaluate_identity, scope_eq,
}
use base_line_prox.Persistence.Agreement.{Supports, equivalent_iff}
use base_line_prox.Persistence.Snapshot.{
  Proposal, apply_restore, IsRestore, apply_restore-IsRestore,
}

abbrev photos : Grant
photos = record {
  grant_id = "g1";
  person = "TestPerson-001";
  application = "viewer";
  collection = "photos";
  access_mode = "read";
  duration = "until_revoked";
  authorized_by = "TestPerson-001";
  state = revoked;
}

abbrev viewer : Application
viewer = record {
  application_id = "viewer";
  state = installed;
  grants = record photos { state = active } ∷ photos ∷ [];
}

left : (act_all (disables ∷ changes 0 suspends ∷ uninstalls ∷ []) viewer).state ≢ installed
unfolding disable uninstall
left h = ground arith

act_all-IsIdle_example :
    All IsIdle (act_all (disables ∷ changes 0 suspends ∷ uninstalls ∷ []) viewer).grants
act_all-IsIdle_example =
    act_all-IsIdle (disables ∷ changes 0 suspends ∷ uninstalls ∷ []) viewer
      ((λ n h. ground arith), ((λ n h. ground arith), ((λ n h. ground arith), tt))) refl left

deleted_for_good_example :
    All IsRevoked
      (act_all
        (re_enables true ∷ changes 0 reactivates ∷ [])
        (delete_state (act_all (disables ∷ []) viewer))).grants
deleted_for_good_example =
    deleted_for_good (disables ∷ []) (re_enables true ∷ changes 0 reactivates ∷ []) viewer

trusted_store : Attachment authorized (
    "logical_identity_matches_trusted" ∷ "manifest_parses_known_schema" ∷ "correct_key_supplied"
    ∷ "luks_header_recognized" ∷ [])
unfolding attempt_transition state_eq string_eq
trusted_store =
    step "logical_identity_matches_trusted"
      (step "manifest_parses_known_schema"
        (step "correct_key_supplied"
          (step "luks_header_recognized" (step "device_appears" start refl) refl) refl)
        refl)
      refl

states_are-Earned_example : IsTrusted (
    "logical_identity_matches_trusted" ∷ "manifest_parses_known_schema" ∷ "correct_key_supplied"
    ∷ "luks_header_recognized" ∷ [])
states_are-Earned_example = states_are-Earned trusted_store

dead_ends_example :
    (attempt_transition requires_recovery "failure_clears"
      ≡ err (no_legal_transition requires_recovery "failure_clears"))
    × ((t : AttachmentState)
        → attempt_transition absent "failure_clears" ≡ ok t
        → (◌≡◌ {A = String} "failure_clears" "device_appears") × (t ≡ detected_unknown))
dead_ends_example = dead_ends "failure_clears"

-- two texts in one, told apart by the marks before the characters of the first
pair : String → String → String
pair String.[] t = String.◌∷◌ "y" t
pair (String.◌∷◌ c s) t = String.◌∷◌ "x" (String.◌∷◌ c (pair s t))

count : ℕ → String → String
count zero t = String.◌∷◌ "y" t
count (suc n) t = String.◌∷◌ "x" (count n t)

first_code : String → ℕ
first_code String.[] = 0
first_code (String.◌∷◌ c s) = code c

pair_injective : (s t a b : String) → pair s a ≡ pair t b → (s ≡ t) × (a ≡ b)
unfolding pair first_code
pair_injective String.[] String.[] a b h = ground arith
pair_injective String.[] (String.◌∷◌ d t) a b h =
    let e = ap first_code h in absurd (omega (arith, e))
pair_injective (String.◌∷◌ c s) String.[] a b h =
    let e = ap first_code h in absurd (omega (arith, e))
pair_injective (String.◌∷◌ c s) (String.◌∷◌ d t) a b h = ground (arith, pair_injective s t a b)

count_injective : (m n : ℕ) (a b : String) → count m a ≡ count n b → (m ≡ n) × (a ≡ b)
unfolding count first_code
count_injective zero zero a b h = ground arith
count_injective zero (suc n) a b h = let e = ap first_code h in absurd (omega (arith, e))
count_injective (suc m) zero a b h = let e = ap first_code h in absurd (omega (arith, e))
count_injective (suc m) (suc n) a b h = ground (arith, count_injective m n a b)

-- entries without a payload, and one key
abbrev toy : Hmac (Unit {0}) (Unit {0})
toy key domain m = pair domain (count m.sequence (pair m.event m.previous_mac))

toy_injective :
    (domain : String) (m n : Canonical (Unit {0})) → toy tt domain m ≡ toy tt domain n → m ≡ n
toy_injective domain m n h =
    let (same, inner) = pair_injective domain domain _ _ h in
    let (numbers, texts) = count_injective m.sequence n.sequence _ _ inner in
    let (events, macs) = pair_injective m.event n.event m.previous_mac n.previous_mac texts in
    ground arith

toy_nonempty : (domain : String) (m : Canonical (Unit {0})) → toy tt domain m ≢ ""
unfolding pair first_code
toy_nonempty String.[] m h = let e = ap first_code h in omega (arith, e)
toy_nonempty (String.◌∷◌ c s) m h = let e = ap first_code h in omega (arith, e)

abbrev blank : AuthorityLedger (Unit {0}) (Unit {0})
blank = record { key = tt; domain = "d"; entries = [] }

abbrev one : AuthorityLedger (Unit {0}) (Unit {0})
one = append toy "created" tt blank

abbrev three : AuthorityLedger (Unit {0}) (Unit {0})
three = append toy "revoked" tt (append toy "granted" tt one)

blank_verifies : verify_chain toy blank ≡ true
unfolding verify_chain verify_from
blank_verifies = refl

three_verifies : verify_chain toy three ≡ true
three_verifies =
    let a = append_verifies toy "created" tt blank blank_verifies in
    let b = append_verifies toy "granted" tt one a.0 in
    (append_verifies toy "revoked" tt (append toy "granted" tt one) b.0).0

append_verifies_example :
    (verify_chain toy one ≡ true)
    × ((e : LedgerEntry (Unit {0})) × (one.entries ≡ [] ++ e ∷ [])
        × (e.sequence ≡ length {A = LedgerEntry (Unit {0})} [])
        × (e.event ≡ "created")
        × (e.payload ≡ tt)
        × (e.previous_mac ≡ last_mac toy "" []))
append_verifies_example = append_verifies toy "created" tt blank blank_verifies

abbrev first : LedgerEntry (Unit {0})
first = create toy 0 "created" tt "" tt "d"

abbrev second : LedgerEntry (Unit {0})
second = create toy 1 "granted" tt first.mac tt "d"

abbrev third : LedgerEntry (Unit {0})
third = create toy 2 "revoked" tt second.mac tt "d"

entries-three : three.entries ≡ first ∷ second ∷ third ∷ []
unfolding append create last_mac
entries-three = refl

gap_detected_example : verify_chain toy (record three { entries = first ∷ third ∷ [] }) ≡ false
gap_detected_example =
    gap_detected toy three (first ∷ []) [] second third (toy_injective three.domain)
      (toy_nonempty three.domain) entries-three three_verifies

cut_verifies_example : verify_chain toy (record three { entries = first ∷ second ∷ [] }) ≡ true
cut_verifies_example =
    cut_verifies toy three (first ∷ second ∷ []) (third ∷ []) entries-three three_verifies

abbrev rollback : Proposal
rollback = record { target_generation = 4; restored_grant_ids = "g2" ∷ "g1" ∷ [] }

apply_restore-IsRestore_example :
    IsRestore toy rollback
      ("g1" ∷ [])
      three
      (apply_restore toy (λ generation ids. tt) rollback ("g1" ∷ []) three)
apply_restore-IsRestore_example =
    apply_restore-IsRestore toy (λ generation ids. tt) rollback ("g1" ∷ []) three three_verifies

-- a header that was read, and a report of another value
abbrev header : EvidenceClaim
header = record {
  source = "luks_header";
  observation_time = 5;
  scope = carrier_identity;
  value = "disk-a";
  confidence = directly_read;
  corroboration = uncorroborated;
}

abbrev report : EvidenceClaim
report = record header { source = "external_observation"; value = "disk-b" }

disagree :
    (evaluate_identity carrier_identity (header ∷ header ∷ report ∷ [])).outcome ≡ ambiguous_refusal
unfolding evaluate_identity distinct relevant scope_eq string_eq
disagree = refl

equivalent_iff_example :
    ((evaluate_identity carrier_identity (header ∷ header ∷ [])).outcome ≡ equivalent) ↔ (
      (relevant carrier_identity (header ∷ header ∷ []) ≢ [])
      × ((v : String) × All (Supports carrier_identity v) (header ∷ header ∷ [])))
equivalent_iff_example = equivalent_iff carrier_identity (header ∷ header ∷ [])
