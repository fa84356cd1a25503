-- ===== src/FirstBoot/Evidence.antt =====
-- The evidence that `network_repaired` requires.
use base_line_prox.Base.{
  String, true, Option, none, some, List, [], ◌∷◌, ◌≡◌, ◌≢◌, ◌↔◌, refl, arith, All, ok, all,
  string_eq,
}
use base_line_prox.Base.Dict.{Dict, values}
use base_line_prox.FirstBoot.Journal.{require_evidence, Check, passed, is_true, network, Evidence}

all-true : (cs : List Check) → all passed cs ≡ true → All (λ c. c ≡ is_true) cs
all-true [] h = tt
all-true (c ∷ cs) h = ground (arith, all-true cs)

all-true_rev : (cs : List Check) → All (λ c. c ≡ is_true) cs → all passed cs ≡ true
all-true_rev [] h = refl
all-true_rev (c ∷ cs) h = ground (arith, all-true_rev cs h.1)

abbrev evidence : Check → Option String → Option (Dict String Check) → Evidence
evidence n t v = record { network_ok = n; target_interface = t; verification = v }

evidence_to :
    (n : Check) (t : Option String) (v : Option (Dict String Check)) (text : String)
    → require_evidence (network (evidence n t v) text) ≡ ok tt
    → (n ≡ is_true)
      × ((target : String) × (t ≡ some target) × (target ≢ ""))
      × ((checks : Dict String Check) × (v ≡ some checks)
          × (values checks ≢ [])
          × All (λ c. c ≡ is_true) (values checks))
unfolding require_evidence
evidence_to n none v text h = absurd (ground arith)
evidence_to n (some s) none text h = absurd (ground arith)
evidence_to n (some s) (some []) text h = absurd (ground arith)
evidence_to n (some s) (some ((k, c) ∷ d)) text h = (
  ground arith,
  (s, refl, ground arith),
  ((k, c) ∷ d, refl, (λ q. cc q), all-true (c ∷ values d) (ground arith)),
)

evidence_from :
    (n : Check) (t : Option String) (v : Option (Dict String Check)) (text target : String)
    (checks : Dict String Check)
    → n ≡ is_true
    → t ≡ some target
    → target ≢ ""
    → v ≡ some checks
    → values checks ≢ []
    → All (λ c. c ≡ is_true) (values checks)
    → require_evidence (network (evidence n t v) text) ≡ ok tt
unfolding require_evidence
evidence_from n t v text target [] a b c d some_check e = absurd (some_check refl)
evidence_from n t v text target ((k, x) ∷ checks) a b c d some_check e =
    rw (a, b, d) (ground (arith, all-true_rev (x ∷ values checks) e))

-- The evidence for a repaired network is accepted exactly if the outcome is exactly `True`, the
-- interface has a name, and the verification is a dict with at least one check, each exactly `True`.
pub evidence_iff :
    (e : Evidence) (text : String)
    → (require_evidence (network e text) ≡ ok tt) ↔ (
        (e.network_ok ≡ is_true)
        × ((target : String) × (e.target_interface ≡ some target) × (target ≢ ""))
        × ((checks : Dict String Check) × (e.verification ≡ some checks)
            × (values checks ≢ [])
            × All (λ c. c ≡ is_true) (values checks)))
unfolding require_evidence
evidence_iff e text = (
  evidence_to e.network_ok e.target_interface e.verification text,
  λ (n, (target, given, named), (checks, dict, some_check, all_hold)).
      evidence_from e.network_ok e.target_interface e.verification text target checks n given named
        dict some_check all_hold,
)
