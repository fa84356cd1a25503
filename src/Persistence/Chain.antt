-- ===== src/Persistence/Chain.antt =====
-- What `verify_chain` accepts: every ledger that was only appended to, and no other that ends alike.
use package.text.Mathlib.TextEquality.{eq_iff}
use base_line_prox.Base.{
  ℕ, ◌≤◌, ◌≡◌, ◌≢◌, ◌↔◌, refl, sym, ap, ◌∙◌, String, Bool, true, false, ◌&&◌, List, [], ◌∷◌, ◌++◌,
  string_eq, length, arith, ok, Bool-cases, inl, inr,
}
use base_line_prox.Persistence.Ledger.{
  test_domain, production_domain, check_schema_version, domain_for, assert_domain_matches_mode,
  Canonical, LedgerEntry, Hmac, canonical, AuthorityLedger, create, verify, last_mac, append,
  verify_from, verify_chain,
}

module _ {K P : Type 0} (hmac : Hmac K P) (key : K) (domain : String) where
  verify_from-append :
      (p : String) (xs ys : List (LedgerEntry P))
      → verify_from hmac key domain p (xs ++ ys)
        ≡ (verify_from hmac key domain p xs && verify_from hmac key domain (last_mac hmac p xs) ys)
  unfolding verify_from last_mac
  verify_from-append p [] ys = refl
  verify_from-append p (x ∷ xs) ys = ground (arith, verify_from-append x.mac xs ys)

  verify_from-head :
      (p : String) (x : LedgerEntry P) (xs : List (LedgerEntry P))
      → verify_from hmac key domain p (x ∷ xs) ≡ true
      → (x.previous_mac ≡ p)
        × (hmac key domain (canonical x) ≡ x.mac)
        × (verify_from hmac key domain x.mac xs ≡ true)
  unfolding verify_from verify
  verify_from-head p x xs h = ground arith

  -- no entry that continues a chain at `p` has `p` as its own mac
  abbrev IsFresh : String → Type 0
  IsFresh p = (m : Canonical P) → m.previous_mac ≡ p → hmac key domain m ≢ p

  module _ (injective : (m n : Canonical P) → hmac key domain m ≡ hmac key domain n → m ≡ n) where
    IsFresh-next :
        (p : String) (x : LedgerEntry P)
        → IsFresh p
        → x.previous_mac ≡ p
        → hmac key domain (canonical x) ≡ x.mac
        → IsFresh x.mac
    IsFresh-next p x fresh linked signed m continues same =
        let is : m ≡ canonical x = injective m (canonical x) (same ∙ sym signed) in
        let back : x.previous_mac ≡ x.mac =
          sym (ap (λ (c : Canonical P). c.previous_mac) is) ∙ continues in
        fresh (canonical x) linked (signed ∙ (sym back ∙ linked))

    IsFresh-last :
        (p : String) (xs : List (LedgerEntry P))
        → IsFresh p
        → verify_from hmac key domain p xs ≡ true
        → IsFresh (last_mac hmac p xs)
    unfolding last_mac
    IsFresh-last p [] fresh h = fresh
    IsFresh-last p (x ∷ xs) fresh h =
        let (linked, signed, rest) = verify_from-head p x xs h in
        IsFresh-last x.mac xs (IsFresh-next p x fresh linked signed) rest

    gap_fails :
        (p : String) (x y : LedgerEntry P) (ys : List (LedgerEntry P))
        → IsFresh p
        → verify_from hmac key domain p (x ∷ y ∷ ys) ≡ true
        → verify_from hmac key domain p (y ∷ ys) ≡ false
    gap_fails p x y ys fresh h =
        let (linked, signed, rest) = verify_from-head p x (y ∷ ys) h in
        let (next, signed_y, rest_y) = verify_from-head x.mac y ys rest in
        elim (Bool-cases (verify_from hmac key domain p (y ∷ ys))) [
          | inr e ↦ e
          | inl e ↦
              let (again, signed_z, rest_z) = verify_from-head p y ys e in
              absurd (fresh (canonical x) linked (signed ∙ (sym next ∙ again)))
        ]

module _ {K P : Type 0} (hmac : Hmac K P) where
  -- Appending keeps a chain valid, and a chain that starts empty stays valid under appends only: the
  -- new entry carries the number of entries before it and the last mac.
  pub append_verifies :
      (event : String) (payload : P) (l : AuthorityLedger K P)
      → verify_chain hmac l ≡ true
      → (verify_chain hmac (append hmac event payload l) ≡ true)
        × ((e : LedgerEntry P) × ((append hmac event payload l).entries ≡ l.entries ++ e ∷ [])
            × (e.sequence ≡ length l.entries)
            × (e.event ≡ event)
            × (e.payload ≡ payload)
            × (e.previous_mac ≡ last_mac hmac "" l.entries))
  unfolding verify_chain append
  append_verifies event payload l h =
      let e =
        create hmac (length l.entries) event payload (last_mac hmac "" l.entries) l.key l.domain in
      let one : verify_from hmac l.key l.domain (last_mac hmac "" l.entries) (e ∷ []) ≡ true =
        unfold verify_from verify create in ground arith in
      (
        rw (verify_from-append hmac l.key l.domain "" l.entries (e ∷ []), h) one,
        (
          e,
          refl,
          unfold create in refl,
          unfold create in refl,
          unfold create in refl,
          unfold create in refl,
        ),
      )

  -- An entry taken out of a valid chain is detected, unless it was the last: if the MAC differs for
  -- different entries and is never empty, the chain without it does not verify.
  pub gap_detected :
      (l : AuthorityLedger K P) (xs ys : List (LedgerEntry P)) (x y : LedgerEntry P)
      → ((m n : Canonical P) → hmac l.key l.domain m ≡ hmac l.key l.domain n → m ≡ n)
      → ((m : Canonical P) → hmac l.key l.domain m ≢ "")
      → l.entries ≡ xs ++ x ∷ y ∷ ys
      → verify_chain hmac l ≡ true
      → verify_chain hmac (record l { entries = xs ++ y ∷ ys }) ≡ false
  unfolding verify_chain
  gap_detected l xs ys x y injective nonempty split h =
      let whole = verify_from-append hmac l.key l.domain "" xs (x ∷ y ∷ ys) in
      let all_valid : verify_from hmac l.key l.domain "" (xs ++ x ∷ y ∷ ys) ≡ true =
        rw (← split) h in
      let before : verify_from hmac l.key l.domain "" xs ≡ true = ground arith in
      let after : verify_from hmac l.key l.domain (last_mac hmac "" xs) (x ∷ y ∷ ys) ≡ true =
        ground arith in
      let fresh = IsFresh-last hmac l.key l.domain injective "" xs (λ m q. nonempty m) before in
      rw (verify_from-append hmac l.key l.domain "" xs (y ∷ ys), before)
        (gap_fails hmac l.key l.domain injective (last_mac hmac "" xs) x y ys fresh after)

  -- What `verify_chain` does not detect: without its last entries, a valid chain verifies all the same.
  pub cut_verifies :
      (l : AuthorityLedger K P) (xs ys : List (LedgerEntry P))
      → l.entries ≡ xs ++ ys
      → verify_chain hmac l ≡ true
      → verify_chain hmac (record l { entries = xs }) ≡ true
  unfolding verify_chain
  cut_verifies l xs ys split h =
      let all_valid : verify_from hmac l.key l.domain "" (xs ++ ys) ≡ true = rw (← split) h in
      ground (arith, verify_from-append hmac l.key l.domain "" xs ys)

  -- An entry that was created under one domain verifies under another exactly if the two are the same,
  -- if the MAC differs for different domains.
  pub domains_apart :
      (sequence : ℕ) (event : String) (payload : P) (previous : String) (key : K)
      (written read : String)
      → ((m : Canonical P) → hmac key read m ≡ hmac key written m → read ≡ written)
      → (verify hmac key read (create hmac sequence event payload previous key written) ≡ true)
        ↔ (written ≡ read)
  unfolding create verify
  domains_apart sequence event payload previous key written read apart =
      let m : Canonical P = record {
        sequence = sequence;
        event = event;
        payload = payload;
        previous_mac = previous;
      } in
      (λ h. sym (apart m (ground arith)), λ p. rw p (ground arith))

modes_differ : test_domain ≢ production_domain
modes_differ p = cc ((eq_iff test_domain production_domain).1 p)

-- A reader in one mode accepts a manifest of its own mode's domain and refuses the other's, and any
-- manifest whose schema is newer than it knows.
pub reader_accepts :
    (written_test reader_test : Bool) (manifest reader : ℕ)
    → ((assert_domain_matches_mode (domain_for written_test) reader_test ≡ ok tt)
        ↔ (written_test ≡ reader_test))
      × ((check_schema_version manifest reader ≡ ok tt) ↔ (manifest ≤ reader))
unfolding assert_domain_matches_mode domain_for check_schema_version
reader_accepts true true manifest reader = ground arith
reader_accepts true false manifest reader = ground (arith, modes_differ)
reader_accepts false true manifest reader = ground (arith, modes_differ)
reader_accepts false false manifest reader = ground arith
