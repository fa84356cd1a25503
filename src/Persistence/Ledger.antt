-- ===== src/Persistence/Ledger.antt =====
-- The authority ledger of baseline/lib/testpersistence/manifest.py, the domains that its entries are
-- authenticated under, and the schema versions that a reader accepts.
-- A payload is of any type `P`, a key of any type `K`. `hmac` is HMAC-SHA256 under a key, as hexadecimal
-- digits, of a domain and the canonical JSON of an entry's other fields, which stand for that text.
use base_line_prox.Base.{
  ℕ, String, Bool, true, false, not, List, [], ◌∷◌, ◌++◌, ◌==◌, string_eq, length, ltb,
  if◌then◌else◌, Result, ok, err, guard,
}

abbrev pub test_domain : String
test_domain = "baseline-manifest-test-v1:"

abbrev pub production_domain : String
production_domain = "baseline-manifest-production-v1:"

pub data ManifestError : Type 0 where
  authenticity schema_version : ManifestError

-- `check_schema_version`
unfoldable pub check_schema_version : ℕ → ℕ → Result ManifestError (Unit {0})
check_schema_version manifest reader = if ltb reader manifest then err schema_version else ok tt

unfoldable pub domain_for : Bool → String
domain_for test_only = if test_only then test_domain else production_domain

unfoldable pub assert_domain_matches_mode : String → Bool → Result ManifestError (Unit {0})
unfolding domain_for
assert_domain_matches_mode domain reader_is_test =
    guard (domain == domain_for reader_is_test) authenticity

-- what `_canonical` prints
pub record Canonical (P : Type 0) : Type 0 where
  pub sequence : ℕ
  pub event : String
  pub payload : P
  pub previous_mac : String

pub record LedgerEntry (P : Type 0) : Type 0 where
  pub sequence : ℕ
  pub event : String
  pub payload : P
  pub previous_mac : String
  pub mac : String

abbrev pub Hmac : Type 0 → Type 0 → Type 0
Hmac K P = K → String → Canonical P → String

abbrev pub canonical : {P : Type 0} → LedgerEntry P → Canonical P
canonical e = record {
  sequence = e.sequence;
  event = e.event;
  payload = e.payload;
  previous_mac = e.previous_mac;
}

pub record AuthorityLedger (K P : Type 0) : Type 0 where
  pub key : K
  pub domain : String
  pub entries : List (LedgerEntry P)

module _ {K P : Type 0} (hmac : Hmac K P) where
  unfoldable pub create : ℕ → String → P → String → K → String → LedgerEntry P
  create sequence event payload previous key domain = record {
    sequence = sequence;
    event = event;
    payload = payload;
    previous_mac = previous;
    mac =
        hmac key domain (record {
          sequence = sequence;
          event = event;
          payload = payload;
          previous_mac = previous;
        });
  }

  unfoldable pub verify : K → String → LedgerEntry P → Bool
  verify key domain e = hmac key domain (canonical e) == e.mac

  -- the mac of the last entry, or what stands before the first
  unfoldable pub last_mac : String → List (LedgerEntry P) → String
  last_mac previous [] = previous
  last_mac previous (e ∷ es) = last_mac e.mac es

  unfoldable pub append : String → P → AuthorityLedger K P → AuthorityLedger K P
  unfolding create last_mac
  append event payload l =
      let entry = create (length l.entries) event payload (last_mac "" l.entries) l.key l.domain in
      record l { entries = l.entries ++ entry ∷ [] }

  -- the loop of `verify_chain`
  unfoldable pub verify_from : K → String → String → List (LedgerEntry P) → Bool
  unfolding verify
  verify_from key domain previous [] = true
  verify_from key domain previous (e ∷ es) =
      let rest = verify_from key domain e.mac es in
      if not (e.previous_mac == previous)
      then false
      else if not (verify key domain e)
      then false
      else rest

  unfoldable pub verify_chain : AuthorityLedger K P → Bool
  unfolding verify_from
  verify_chain l = verify_from l.key l.domain "" l.entries
