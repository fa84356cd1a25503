-- ===== src/Repair/Evident.antt =====
-- What a repair that succeeds hands on to the first boot, which records the network as repaired only
-- with evidence.
use base_line_prox.Base.{
  String, ◌≡◌, ◌≢◌, inl, inr, refl, subst, Bool, true, false, ◌&&◌, some, [], ◌∷◌, string_eq, All,
  Eq, Result, ok, err, Bool-cases, Result-cases,
}
use base_line_prox.Base.Dict.{Dict, values}
use base_line_prox.Base.Lines.{split_lines, strip, is_empty}
use base_line_prox.Interfaces.Data.{Text, Name}
use base_line_prox.FirstBoot.Journal.{Check, is_true, is_false, network, require_evidence}
use base_line_prox.FirstBoot.Evidence.{evidence_iff}
use base_line_prox.Repair.Host.{Host, Probe, World, Stop, refused, crashed, M, ◌>>=◌}
use base_line_prox.Repair.Checks.{
  succeeded, says_something, is_http_code, VerificationResult, address_from, gateway_from,
  verify_once, verify_target, verify_target_extended,
}
use base_line_prox.Repair.Pipeline.{
  Shape, Request, success, RepairResult, discover, back_up, arm, edited, revalidate, write,
  check_syntax, apply, transact, finish, verification, verify, handle, repair,
}
use base_line_prox.Repair.Before.{OnOk, on_ok}
use base_line_prox.Repair.Safe.{Holds, Holds-bind}

-- an address and a gateway were read wherever a round verifies
abbrev IsGiven : VerificationResult → Type 0
IsGiven v = v.verified ≡ true → (is_empty v.address ≡ false) × (is_empty v.gateway ≡ false)

verify_once-IsGiven : (p : Probe) → OnOk IsGiven (verify_once p)
unfolding verify_once
verify_once-IsGiven p = elim (Result-cases (address_from [] (split_lines p.addresses.stdout))) [
  | inr (s, a) ↦ rw (a, OnOk, verify_once) tt
  | inl (address, a) ↦ elim (Bool-cases (is_empty address)) [
    | inl n ↦ rw (a, n, OnOk, verify_once) (λ t. absurd (cc t))
    | inr n ↦ elim (Result-cases (gateway_from [] (split_lines p.routes.stdout))) [
      | inr (s, g) ↦ rw (a, n, g, OnOk, verify_once) tt
      | inl (gateway, g) ↦ elim (Bool-cases (is_empty gateway)) [
        | inl m ↦ rw (a, n, g, m, OnOk, verify_once) (λ t. absurd (cc t))
        | inr m ↦ elim (Bool-cases (succeeded p.ping)) [
          | inl r ↦ rw (a, n, g, m, r, OnOk, verify_once) (λ t. (n, m))
          | inr r ↦ rw (a, n, g, m, r, OnOk, verify_once) (λ t. absurd (cc t))
        ]
      ]
    ]
  ]
]

module _ {D : Type 0} (w : World D) where
  verify_target-IsGiven : OnOk IsGiven (verify_target w true)
  unfolding verify_target
  verify_target-IsGiven = elim (Result-cases (verify_once w.first_probe)) [
    | inr (s, a) ↦ rw (a, OnOk, verify_target) tt
    | inl (v, a) ↦
        let given =
          on_ok IsGiven (verify_once w.first_probe) v (verify_once-IsGiven w.first_probe) a in
        elim (Bool-cases v.verified) [
          | inr n ↦ rw (a, n, OnOk, verify_target) (λ t. absurd (cc t))
          | inl y ↦ elim (Result-cases (verify_once w.second_probe)) [
            | inr (s, b) ↦ rw (a, y, b, OnOk, verify_target) tt
            | inl (again, b) ↦ elim (Bool-cases again.verified) [
              | inl z ↦ rw (a, y, b, z, OnOk, verify_target) (λ t. given y)
              | inr z ↦ rw (a, y, b, z, OnOk, verify_target) (λ t. absurd (cc t))
            ]
          ]
        ]
  ]

  verify_target_extended-IsGiven : OnOk IsGiven (verify_target_extended w)
  unfolding verify_target_extended
  verify_target_extended-IsGiven = elim (Result-cases (verify_target w true)) [
    | inr (s, a) ↦ rw (a, OnOk, verify_target_extended) tt
    | inl (v, a) ↦
        let given = on_ok IsGiven (verify_target w true) v verify_target-IsGiven a in
        elim (Bool-cases v.verified) [
          | inr n ↦ rw (a, n, OnOk, verify_target_extended) (λ t. absurd (cc t))
          | inl y ↦ elim (Bool-cases (succeeded w.name_lookup && says_something w.name_lookup)) [
            | inr d ↦ rw (a, y, d, OnOk, verify_target_extended) (λ t. absurd (cc t))
            | inl d ↦
                elim (Bool-cases (succeeded w.fetch && is_http_code w (strip w.fetch.stdout))) [
                  | inr f ↦ rw (a, y, d, f, OnOk, verify_target_extended) (λ t. absurd (cc t))
                  | inl f ↦ rw (a, y, d, f, OnOk, verify_target_extended) (λ t. given y)
                ]
          ]
        ]
  ]

abbrev pub check_of : Bool → Check
check_of true = is_true
check_of false = is_false

-- the verification, as `dict(repair_result.verification)` hands it on
abbrev pub as_checks : Dict String Bool → Dict String Check
as_checks [] = []
as_checks ((name, holds) ∷ checks) = (name, check_of holds) ∷ as_checks checks

-- some check, and each exactly `True`
abbrev IsEvident : RepairResult → Type 0
IsEvident r =
    r.outcome ≡ success
    → (values (as_checks r.verification) ≢ [])
      × All (λ c. c ≡ is_true) (values (as_checks r.verification))

module _ {D : Type 0} ⦃e : Eq D⦄ (w : World D) (shape : Shape) (q : Request) where
  abbrev Evident : Result Stop RepairResult × Host D → Type 0
  Evident = Holds (λ r h. IsEvident r) (λ s h. Unit)

  verification-IsGiven : OnOk IsGiven (verification w shape q)
  verification-IsGiven = elim (Bool-cases shape.is_additive) [
    | inl a ↦ rw a (verify_target_extended-IsGiven w)
    | inr a ↦ rw a (verify_target-IsGiven w)
  ]

  finish-Evident :
      (unit : Text) (v : VerificationResult) (h : Host D)
      → is_empty v.address ≡ false
      → is_empty v.gateway ≡ false
      → Evident (finish w shape q unit v h)
  unfolding finish
  finish-Evident unit v h address gateway = elim (Bool-cases shape.is_additive) [
    | inl a ↦ rw (address, gateway, a) (λ s. ((λ q. cc q), (refl, (refl, (refl, (refl, tt))))))
    | inr a ↦ rw (address, gateway, a) (λ s. ((λ q. cc q), (refl, (refl, tt))))
  ]

  verify-Evident : (unit : Text) (h : Host D) → Evident (verify w shape q unit h)
  unfolding verify
  verify-Evident unit h = elim (Result-cases (verification w shape q)) [
    | inr (s, r) ↦ rw (r, Holds, verify) tt
    | inl (v, r) ↦ elim (Bool-cases v.verified) [
      | inr n ↦ rw (r, n, Holds, verify) (λ s. absurd (cc s))
      | inl y ↦
          let given = on_ok IsGiven (verification w shape q) v verification-IsGiven r y in
          rw (r, y, verify) (finish-Evident unit v h given.0 given.1)
    ]
  ]

  -- the steps before the verification return no result of a repair
  any_step : {A : Type 0} (r : Result Stop A × Host D) → Holds (λ a h. Unit) (λ s h. Unit) r
  any_step (ok a, h) = tt
  any_step (err s, h) = tt

  then-Evident :
      {A : Type 0} (m : M D A) (f : A → M D RepairResult) (h : Host D)
      → ((a : A) (n : Host D) → Evident (f a n))
      → Evident ((m >>= f) h)
  then-Evident m f h next =
      Holds-bind (λ a n. Unit) (λ r n. IsEvident r) (λ s n. Unit) m f h (any_step (m h))
        (λ a n x. next a n)

  transact-Evident : (name : Name) (h : Host D) → Evident (transact w shape q name h)
  unfolding transact
  transact-Evident name h = then-Evident (back_up w shape q) _ h (λ digest n.
      then-Evident (arm w shape q name) _ n (λ unit n.
        then-Evident (edited w shape q) _ n (λ done n.
          then-Evident (revalidate w shape q unit digest) _ n (λ cfg n.
            then-Evident (write w shape q unit name cfg) _ n (λ done n.
              then-Evident (check_syntax w shape q unit) _ n (λ done n.
                then-Evident (apply w shape q) _ n (λ done n. verify-Evident unit n)))))))

  handle-Evident :
      (r : Result Stop RepairResult × Host D) → Evident r → Evident (handle w shape q r)
  unfolding handle
  handle-Evident (ok r, h) evident = evident
  handle-Evident (err crashed, h) evident = evident
  handle-Evident (err (refused c), h) evident = λ s. absurd (cc s)

  -- A repair that reports success, of either shape, hands on a verification that the first boot accepts as
  -- evidence for a repaired network, whatever the interface is called, as long as it has a name.
  pub require_evidence-repair :
      (h n : Host D) (r : RepairResult) (target detail : String)
      → repair w shape q h ≡ (ok r, n)
      → r.outcome ≡ success
      → target ≢ ""
      → require_evidence (
          network
            (record {
              network_ok = is_true;
              target_interface = some target;
              verification = some (as_checks r.verification);
            })
            detail)
        ≡ ok tt
  unfolding repair
  require_evidence-repair h n r target detail run ends named =
      let evident : IsEvident r = subst Evident run (
        handle-Evident ((discover w shape q >>= transact w shape q) h)
          (then-Evident (discover w shape q) (transact w shape q) h transact-Evident)) in
      (evidence_iff _ detail).1 (
        refl,
        (target, refl, named),
        (as_checks r.verification, refl, (evident ends).0, (evident ends).1),
      )
