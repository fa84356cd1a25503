-- ===== src/Persistence/Evidence.antt =====
-- baseline/lib/testpersistence/evidence.py: what several claims say together of an identity.
use base_line_prox.Base.{
  ℕ, String, List, [], ◌∷◌, map, keep, length, contains, ltb, Eq, ◌==◌, string_eq, if◌then◌else◌,
}

pub data EvidenceScope : Type 0 where
  carrier_identity logical_identity generation : EvidenceScope

scope_dec : Discrete EvidenceScope
scope_dec = hlevel

instance unfoldable pub scope_eq : Eq EvidenceScope
unfolding scope_dec
scope_eq = record { dec = scope_dec }

pub data Confidence : Type 0 where
  directly_read inferred externally_reported : Confidence

pub data CorroborationStatus : Type 0 where
  uncorroborated corroborating contradicting : CorroborationStatus

pub record EvidenceClaim : Type 0 where
  pub source : String
  pub observation_time : ℕ
  pub scope : EvidenceScope
  pub value : String
  pub confidence : Confidence
  pub corroboration : CorroborationStatus

pub data IdentityOutcome : Type 0 where
  equivalent ambiguous_refusal : IdentityOutcome

-- the text of a reason, with the numbers that it names
pub data EvidenceReason : Type 0 where
  no_evidence : EvidenceReason
  conflicting : (distinct_values claims : ℕ) → EvidenceReason
  claims_agree : (claims : ℕ) → EvidenceReason

pub record IdentityEvaluation : Type 0 where
  pub outcome : IdentityOutcome
  pub scope : EvidenceScope
  pub reason : EvidenceReason

-- `set(xs)`, of which the code takes the size
unfoldable pub distinct : List String → List String
distinct [] = []
distinct (x ∷ xs) = let rest = distinct xs in if contains rest x then rest else x ∷ rest

unfoldable pub relevant : EvidenceScope → List EvidenceClaim → List EvidenceClaim
relevant s claims = keep (λ c. c.scope == s) claims

unfoldable pub evaluate_identity : EvidenceScope → List EvidenceClaim → IdentityEvaluation
unfolding relevant distinct
evaluate_identity s claims = elim (relevant s claims) [
  | [] ↦ record { outcome = ambiguous_refusal; scope = s; reason = no_evidence }
  | c ∷ cs ↦
      let found = length (distinct (map (λ d. d.value) (c ∷ cs))) in
      if ltb 1 found
      then record {
        outcome = ambiguous_refusal;
        scope = s;
        reason = conflicting found (length (c ∷ cs));
      }
      else record { outcome = equivalent; scope = s; reason = claims_agree (length (c ∷ cs)) }
]
