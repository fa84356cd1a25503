-- ===== src/Hitl/Confirming.antt =====
-- `confirm` keeps the store sound.
use base_line_prox.Base.{
  ℕ, ◌≡◌, String, true, false, Option, some, arith, Option-cases, Bool-cases, inl, inr, string_eq,
}
use base_line_prox.Base.Dict.{lookup, erase, Entries-insert, Entries-erase, length-erase-le}
use base_line_prox.Hitl.Types.{never_pre_approved, Env, Challenge, Store, Draw}
use base_line_prox.Hitl.Operations.{prune, authorize_day, accept, confirm_found, confirm, truthy}
use base_line_prox.Hitl.Sound.{IsSound, prune-IsSound, mint-IsSound, count_failure-IsSound}

module _ {P D : Type 0} (env : Env P D) where
  pub authorize_day-IsSound :
      (now : ℕ) (draw : Draw) (account : Option String) (r : Challenge P D) (s : Store P D)
      → (truthy account ≡ true → never_pre_approved r.action ≡ false)
      → IsSound env s
      → IsSound env (authorize_day env now draw account r s)
  unfolding authorize_day
  authorize_day-IsSound now draw account r s never h = elim (Bool-cases (truthy account)) [
    | inr e ↦ rw e h
    | inl e ↦ rw e (record {
      few = h.few;
      asked = h.asked;
      allowed = h.allowed;
      issued = h.issued;
      days = Entries-insert _ draw.key _ s.daily (never e) h.days;
    })
  ]

  pub accept-IsSound :
      (now : ℕ) (draw : Draw) (who id : String) (account : Option String) (r : Challenge P D)
      (s : Store P D)
      → (truthy account ≡ true → never_pre_approved r.action ≡ false)
      → IsSound env s
      → IsSound env (accept env now draw who id account r s).0
  unfolding accept
  accept-IsSound now draw who id account r s never h =
      let erased : IsSound env (record s { pending = erase id s.pending }) = record {
        few = omega (arith, length-erase-le id s.pending, h.few);
        asked = Entries-erase _ id s.pending h.asked;
        allowed = h.allowed;
        issued = h.issued;
        days = h.days;
      } in
      let k =
        mint-IsSound env draw _ _ _ _ (authorize_day-IsSound now draw account r _ never erased) in
      record { few = k.few; asked = k.asked; allowed = k.allowed; issued = k.issued; days = k.days }

  pub confirm_found-IsSound :
      (now : ℕ) (draw : Draw) (who id typed secret : String) (account : Option String)
      (r : Challenge P D) (s : Store P D)
      → lookup id s.pending ≡ some r
      → IsSound env s
      → IsSound env (confirm_found env now draw who id typed secret account r s).0
  unfolding confirm_found
  confirm_found-IsSound now draw who id typed secret account r s found h =
      ground (
        arith,
        accept-IsSound now draw who id account r s,
        count_failure-IsSound env id r s found h,
      )

  pub confirm-IsSound :
      (now : ℕ) (draw : Draw) (who id typed secret : String) (account : Option String)
      (s : Store P D)
      → IsSound env s
      → IsSound env (confirm env now draw who id typed secret account s).0
  unfolding confirm
  confirm-IsSound now draw who id typed secret account s h =
      let t = prune env now s in
      let k = prune-IsSound env now s h in
      elim (Option-cases (lookup id t.pending)) [
        | inl e ↦
            rw (e, confirm)
              (record {
                few = k.few;
                asked = k.asked;
                allowed = k.allowed;
                issued = k.issued;
                days = k.days;
              })
        | inr (r, e) ↦
            rw (e, confirm) (confirm_found-IsSound now draw who id typed secret account r t e k)
      ]
