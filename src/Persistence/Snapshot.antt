-- ===== src/Persistence/Snapshot.antt =====
-- `apply_restore` of baseline/lib/testpersistence/snapshot.py: a restore is checked against the grants
-- that the current ledger shows revoked, and recorded in that ledger.
-- The two frozensets are lists without regard to order; the payload of the event is `describe`, of the
-- generation and the sorted identifiers.
use base_line_prox.Base.{
  refl, All, arith, inl, inr, ◌++◌, List-cases, ℕ, String, Bool, true, false, List, [], ◌∷◌, keep,
  contains, string_eq, Result, ok, err, ◌≡◌,
}
use base_line_prox.Base.Sorting.{sorted}
use base_line_prox.Persistence.Ledger.{Hmac, AuthorityLedger, LedgerEntry, append, verify_chain}
use base_line_prox.Persistence.Chain.{append_verifies}

pub record Proposal : Type 0 where
  pub target_generation : ℕ
  pub restored_grant_ids : List String

pub data Violation : Type 0 where
  would_resurrect : List String → Violation

-- `restored & revoked`
unfoldable pub resurrected : Proposal → List String → List String
resurrected p revoked = keep (contains revoked) p.restored_grant_ids

unfoldable pub validate_restore : Proposal → List String → Result Violation (Unit {0})
unfolding resurrected
validate_restore p revoked = elim (resurrected p revoked) [
  | [] ↦ ok tt
  | g ∷ gs ↦ err (would_resurrect (g ∷ gs))
]

module _ {K P : Type 0} (hmac : Hmac K P) (describe : ℕ → List String → P) where
  unfoldable pub apply_restore :
      Proposal → List String → AuthorityLedger K P → Result Violation (AuthorityLedger K P)
  unfolding validate_restore sorted
  apply_restore p revoked l = elim (validate_restore p revoked) [
    | err e ↦ err e
    | ok done ↦ ok (
        append hmac "snapshot_restored" (describe p.target_generation (sorted p.restored_grant_ids))
          l)
  ]

-- every identifier of the list is in none of the others
abbrev pub AreDisjoint : List String → List String → Type 0
AreDisjoint xs ys = All (λ x. contains ys x ≡ false) xs

keep_none : (p : String → Bool) (xs : List String) → keep p xs ≡ [] → All (λ x. p x ≡ false) xs
keep_none p [] h = tt
keep_none p (x ∷ xs) h = ground (arith, keep_none p xs)

keep_none_rev : (p : String → Bool) (xs : List String) → All (λ x. p x ≡ false) xs → keep p xs ≡ []
keep_none_rev p [] h = refl
keep_none_rev p (x ∷ xs) h = ground (arith, keep_none_rev p xs h.1)

module _ {K P : Type 0} (hmac : Hmac K P) where
  -- what a restore may answer: a refusal, when a grant would come back, or the ledger with one more
  -- entry, when none would
  abbrev pub IsRestore :
      Proposal → List String → AuthorityLedger K P → Result Violation (AuthorityLedger K P) → Type 0
  IsRestore p revoked l (ok t) =
      AreDisjoint p.restored_grant_ids revoked
      × (verify_chain hmac t ≡ true)
      × ((e : LedgerEntry P) × (t.entries ≡ l.entries ++ e ∷ []) × (e.event ≡ "snapshot_restored"))
  IsRestore p revoked l (err v) = ¬ AreDisjoint p.restored_grant_ids revoked

module _ {K P : Type 0} (hmac : Hmac K P) (describe : ℕ → List String → P) where
  -- On a ledger whose chain is valid, a restore goes through exactly if it would bring back no grant that
  -- the current ledger shows revoked, and is then recorded as one more entry of that ledger, whose chain
  -- stays valid; none of its entries is taken back.
  pub apply_restore-IsRestore :
      (p : Proposal) (revoked : List String) (l : AuthorityLedger K P)
      → verify_chain hmac l ≡ true
      → IsRestore hmac p revoked l (apply_restore hmac describe p revoked l)
  unfolding apply_restore validate_restore resurrected
  apply_restore-IsRestore p revoked l valid =
      let given =
        append_verifies hmac "snapshot_restored"
          (describe p.target_generation (sorted p.restored_grant_ids)) l valid in
      let (e, grown, numbered, named, held, linked) = given.1 in
      elim (List-cases (keep (contains revoked) p.restored_grant_ids)) [
        | inl q ↦
            rw (q, apply_restore)
              (keep_none (contains revoked) p.restored_grant_ids q, given.0, (e, grown, named))
        | inr (g, gs, q) ↦
            rw (q, apply_restore)
              (λ h. absurd (cc (q, keep_none_rev (contains revoked) p.restored_grant_ids h)))
      ]
