-- ===== src/Hitl/Sound.antt =====
-- What holds of a `ConfirmationStore` of baseline/lib/hitl.py between two calls, and the parts of the
-- calls that keep it.
use base_line_prox.Base.{
  ℕ, ◌+◌, ◌≤◌, ◌<◌, ◌≡◌, refl, String, true, false, some, arith, length, Bool-cases, inl, inr, leb,
  ltb, string_eq,
}
use base_line_prox.Base.Dict.{
  Entries, lookup, Entries-insert, Entries-erase, Entries-keep_values, Entries-lookup,
  length-insert-le, length-insert_old, length-erase-le, length-keep_values-le,
}
use base_line_prox.Hitl.Types.{
  mac_of, request_digest, is_confirmed, never_pre_approved, phrase_for, max_pending,
  max_failed_attempts, max_grant_uses, Env, Challenge, Grant, Authorization, Store, Draw, Kind, Arg,
  natural,
}
use base_line_prox.Hitl.Operations.{count_failure, prune, mint, challenge, new_challenge}
use base_line_prox.Hitl.Approvals.{in_limits}

abbrev pub IsAllowed : Grant → Type 0
IsAllowed g = (never_pre_approved g.action ≡ false) × (g.uses_left ≤ max_grant_uses)

pub in_limits-le : (a : Arg) (most : ℕ) {n : ℕ} → in_limits a most ≡ some n → n ≤ most
in_limits-le (natural k) most h = ground arith
in_limits-le _ most h = cc

module _ {P D : Type 0} (env : Env P D) where
  -- A pending challenge asks for what it says, and has failures left.
  pub record IsAsked (r : Challenge P D) : Type 0 where
    pub takes_confirmation : is_confirmed r.action ≡ true
    pub digest : r.digest ≡ request_digest env r.action r.params r.serial
    pub phrase : r.phrase ≡ phrase_for r.action r.serial
    pub failures : r.failures < max_failed_attempts

  pub record IsIssued (owner : ℕ) (key : String) (a : Authorization D) : Type 0 where
    pub nonce : a.nonce ≡ key
    pub store : a.store ≡ owner
    pub mac : a.mac ≡ mac_of env a.nonce a.digest a.expires a.kind

  pub record IsSound (s : Store P D) : Type 0 where
    pub few : length s.pending ≤ max_pending
    pub asked : Entries (λ id r. IsAsked r) s.pending
    pub allowed : Entries (λ id g. IsAllowed g) s.grants
    pub issued : Entries (IsIssued s.ident) s.live
    pub days : Entries (λ id d. never_pre_approved d.action ≡ false) s.daily

  pub prune-IsSound : (now : ℕ) (s : Store P D) → IsSound s → IsSound (prune env now s)
  unfolding prune
  prune-IsSound now s h = record {
    few = omega (arith, length-keep_values-le (λ r. ltb now r.expires) s.pending, h.few);
    asked = Entries-keep_values _ _ s.pending h.asked;
    allowed = Entries-keep_values _ _ s.grants h.allowed;
    issued = Entries-keep_values _ _ s.live h.issued;
    days = Entries-keep_values _ _ s.daily h.days;
  }

  pub mint-IsSound :
      (draw : Draw) (digest : D) (kind : Kind) (expires : ℕ) (s : Store P D)
      → IsSound s
      → IsSound (mint env draw digest kind expires s).0
  unfolding mint
  mint-IsSound draw digest kind expires s h = record {
    few = h.few;
    asked = h.asked;
    allowed = h.allowed;
    issued =
        Entries-insert _ draw.nonce _ s.live (record { nonce = refl; store = refl; mac = refl })
          h.issued;
    days = h.days;
  }

  pub count_failure-IsSound :
      (id : String) (r : Challenge P D) (s : Store P D)
      → lookup id s.pending ≡ some r
      → IsSound s
      → IsSound (count_failure id r s)
  unfolding count_failure
  count_failure-IsSound id r s found h =
      elim (Bool-cases (leb max_failed_attempts (r.failures + 1))) [
        | inl last ↦ rw last (record {
          few = omega (arith, length-erase-le id s.pending, h.few);
          asked = Entries-erase _ id s.pending h.asked;
          allowed = h.allowed;
          issued = h.issued;
          days = h.days;
        })
        | inr more ↦ rw more (record {
          few = omega (arith, length-insert_old id _ r s.pending found, h.few);
          asked =
              let k = Entries-lookup _ id s.pending r h.asked found in
              Entries-insert _ id _ s.pending
                (record {
                  takes_confirmation = k.takes_confirmation;
                  digest = k.digest;
                  phrase = k.phrase;
                  failures = ground arith;
                })
                h.asked;
          allowed = h.allowed;
          issued = h.issued;
          days = h.days;
        })
      ]

  pub challenge-IsSound :
      (now : ℕ) (draw : Draw) (who action : String) (params : P) (serial : String) (s : Store P D)
      → IsSound s
      → IsSound (challenge env now draw who action params serial s).0
  unfolding challenge
  challenge-IsSound now draw who action params serial s h =
      elim (Bool-cases (is_confirmed action)) [
        | inr e ↦ rw e h
        | inl e ↦ rw e (
            let t = prune env now s in
            let k = prune-IsSound now s h in
            elim (Bool-cases (leb max_pending (length t.pending))) [
              | inl full ↦ rw full k
              | inr room ↦ rw room (record {
                few =
                    let r = new_challenge env now who action params serial t in
                    let grown = length-insert-le draw.key r t.pending in ground (arith, grown);
                asked =
                    Entries-insert _ draw.key _ t.pending
                      (record {
                        takes_confirmation = e;
                        digest = refl;
                        phrase = refl;
                        failures = omega arith;
                      })
                      k.asked;
                allowed = k.allowed;
                issued = k.issued;
                days = k.days;
              })
            ])
      ]
