-- ===== src/Persistence/Agreement.antt =====
-- When claims of an identity agree.
use base_line_prox.Base.{
  ◌≤◌, ◌≡◌, ◌≢◌, ◌⊎◌, ◌↔◌, inl, inr, refl, String, true, List, [], ◌∷◌, map, length, contains,
  string_eq, sym, All, arith, List-cases, subst,
}
use base_line_prox.Persistence.Evidence.{
  EvidenceScope, EvidenceClaim, equivalent, evaluate_identity, distinct, relevant, scope_eq,
}

contains-distinct :
    (xs : List String) (y : String) → contains xs y ≡ true → contains (distinct xs) y ≡ true
unfolding distinct
contains-distinct [] y h = ground arith
contains-distinct (x ∷ xs) y h = ground (arith, contains-distinct xs y)

at_most_one :
    (d : List String) (x y : String)
    → length d ≤ 1
    → contains d x ≡ true
    → contains d y ≡ true
    → y ≡ x
at_most_one [] x y small h k = absurd (ground arith)
at_most_one (z ∷ []) x y small h k = ground arith
at_most_one (z ∷ w ∷ d) x y small h k = absurd (ground arith)

All-contains :
    (P : String → Type 0) (xs : List String)
    → ((y : String) → contains xs y ≡ true → P y)
    → All P xs
All-contains P [] h = tt
All-contains P (x ∷ xs) h = (h x (ground arith), All-contains P xs (λ y k. h y (ground arith)))

distinct_one :
    (x : String) (xs : List String) → length (distinct (x ∷ xs)) ≤ 1 → All (λ y. y ≡ x) xs
distinct_one x xs small =
    All-contains (λ y. y ≡ x) xs
      (λ y k.
        at_most_one (distinct (x ∷ xs)) x y small (contains-distinct (x ∷ xs) x (ground arith))
          (contains-distinct (x ∷ xs) y (ground arith)))

distinct_same :
    (x : String) (xs : List String)
    → All (λ y. y ≡ x) xs
    → (distinct xs ≡ []) ⊎ (distinct xs ≡ x ∷ [])
unfolding distinct
distinct_same x [] h = inl refl
distinct_same x (y ∷ xs) h = ground (arith, distinct_same x xs h.1)

distinct_small :
    (x : String) (xs : List String) → All (λ y. y ≡ x) xs → length (distinct (x ∷ xs)) ≤ 1
unfolding distinct
distinct_small x xs h = ground (arith, distinct_same x xs h)

-- a claim of another scope, or of the value
abbrev pub Supports : EvidenceScope → String → EvidenceClaim → Type 0
Supports s v c = (c.scope ≢ s) ⊎ (c.value ≡ v)

supported :
    (s : EvidenceScope) (v : String) (claims : List EvidenceClaim)
    → All (λ y. y ≡ v) (map (λ c. c.value) (relevant s claims))
    → All (Supports s v) claims
unfolding relevant
supported s v [] h = tt
supported s v (c ∷ cs) h = ground (arith, supported s v cs)

supported_rev :
    (s : EvidenceScope) (v : String) (claims : List EvidenceClaim)
    → All (Supports s v) claims
    → All (λ y. y ≡ v) (map (λ c. c.value) (relevant s claims))
unfolding relevant
supported_rev s v [] h = tt
supported_rev s v (c ∷ cs) h = ground (arith, supported_rev s v cs h.1)

-- the outcome, when a claim is about the scope
equivalent_small :
    (s : EvidenceScope) (claims : List EvidenceClaim) (c : EvidenceClaim) (cs : List EvidenceClaim)
    → relevant s claims ≡ c ∷ cs
    → ((evaluate_identity s claims).outcome ≡ equivalent)
      ↔ (length (distinct (map (λ d. d.value) (c ∷ cs))) ≤ 1)
unfolding evaluate_identity
equivalent_small s claims c cs q = ground arith

supported_iff :
    (s : EvidenceScope) (claims : List EvidenceClaim) (c : EvidenceClaim) (cs : List EvidenceClaim)
    → relevant s claims ≡ c ∷ cs
    → (length (distinct (map (λ d. d.value) (c ∷ cs))) ≤ 1)
      ↔ ((v : String) × All (Supports s v) claims)
supported_iff s claims c cs q = (
  λ small. (
    c.value,
    supported s c.value claims (rw q (refl, distinct_one c.value (map (λ d. d.value) cs) small)),
  ),
  λ (v, h).
      let same : All (λ y. y ≡ v) (map (λ d. d.value) (c ∷ cs)) =
        subst (λ l. All (λ y. y ≡ v) (map (λ d. d.value) l)) q (supported_rev s v claims h) in
      distinct_small c.value (map (λ d. d.value) cs)
        (subst (λ w. All (λ y. y ≡ w) (map (λ d. d.value) cs)) (sym same.0) same.1),
)

-- Claims establish an identity exactly if at least one of them is about the scope that is asked for, and
-- all that are about it have one value: two different values are refused, however many claims agree with
-- either, and so is the absence of any claim.
pub equivalent_iff :
    (s : EvidenceScope) (claims : List EvidenceClaim)
    → ((evaluate_identity s claims).outcome ≡ equivalent)
      ↔ ((relevant s claims ≢ []) × ((v : String) × All (Supports s v) claims))
unfolding evaluate_identity
equivalent_iff s claims = elim (List-cases (relevant s claims)) [
  | inl q ↦ ((λ h. absurd (ground arith)), λ h. absurd (h.0 q))
  | inr (c, cs, q) ↦
      let small = equivalent_small s claims c cs q in
      let one = supported_iff s claims c cs q in
      (λ h. ((λ p. absurd (cc (p, q))), one.0 (small.0 h)), λ h. small.1 (one.1 h.1))
]
