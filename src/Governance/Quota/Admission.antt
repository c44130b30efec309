-- ===== src/Governance/Quota/Admission.antt =====
-- Admissions by `acquire` and `reserve` (governance/quota.py).
use aiagent.Prelude.{ℕ, ◌≡◌, refl, arith, ◌≢◌, Bool, Option, Bool-cases, false, inl, inr, true}
use aiagent.Governance.Keys.{Redis, Store, keys, Keys, RunQuota, RunQuotaLease}
use aiagent.Governance.Scripts.{
  Argv, acquired, acquire_outcome, when_ok, Outcome, acquire_script, reserve_script, pruned,
  rate_pruned, reserve_outcome, reserved,
}
use aiagent.Governance.Quota.{acquire, reserve, admitted, ok, day_or, argv, lease_for}

disabled-ok : Outcome.disabled ≡ Outcome.ok → ⊥
disabled-ok e = cc

module _ (r : Redis) where
  when_ok-ok :
      (o : Outcome) (y n : Store r)
      → (when_ok r o y n).0 ≡ Outcome.ok
      → (o ≡ Outcome.ok) × ((when_ok r o y n).1 ≡ y)
  when_ok-ok Outcome.ok y n e = (refl, refl)
  when_ok-ok Outcome.existing y n e = cc
  when_ok-ok _ y n e = cc

  pub when_ok-refused :
      (o : Outcome) (y n : Store r) → (when_ok r o y n).0 ≢ Outcome.ok → (when_ok r o y n).1 ≡ n
  when_ok-refused Outcome.ok y n e = absurd (e refl)
  when_ok-refused Outcome.existing y n e = refl
  when_ok-refused _ y n e = refl

  -- An outcome of 'ok' comes from the tests on the pruned sets, with the writes that follow them.
  pub acquire_script-ok :
      (k : Keys) (a : Argv) (s : Store r)
      → (acquire_script r k a s).0 ≡ Outcome.ok
      → (acquire_outcome r k a (pruned r k a s) ≡ Outcome.ok)
        × ((acquire_script r k a s).1 ≡ acquired r k a (pruned r k a s))
  unfolding acquire_script
  acquire_script-ok k a s e = elim (Bool-cases (r.flags.exists s.flags k.disabled)) [
    | inl stopped ↦ absurd (disabled-ok (rw (stopped, acquire_script) at e))
    | inr running ↦
        let e' : (when_ok r (acquire_outcome r k a (pruned r k a s))
              (acquired r k a (pruned r k a s)) (pruned r k a s)).0
            ≡ Outcome.ok =
          rw (running, acquire_script) at e in
        rw (running, acquire_script) (when_ok-ok _ _ _ e')
  ]

  pub reserve_script-ok :
      (k : Keys) (a : Argv) (s : Store r)
      → (reserve_script r k a s).0 ≡ Outcome.ok
      → let p = rate_pruned r k a s in
        (reserve_outcome r k a p ≡ Outcome.ok) × ((reserve_script r k a s).1 ≡ reserved r k a p)
  unfolding reserve_script
  reserve_script-ok k a s e = elim (Bool-cases (r.flags.exists s.flags k.disabled)) [
    | inl stopped ↦ absurd (disabled-ok (rw (stopped, reserve_script) at e))
    | inr running ↦
        let p = rate_pruned r k a s in
        let e' : (when_ok r (reserve_outcome r k a p) (reserved r k a p) p).0 ≡ Outcome.ok =
          rw (running, reserve_script) at e in
        rw (running, reserve_script) (when_ok-ok _ _ _ e')
  ]

  -- A lease that is owned although existing ones are not claimed was paid for by this call.
  admitted-own :
      (o : Outcome) (f : Bool → RunQuotaLease) {lease : RunQuotaLease}
      → ((b : Bool) → (f b).owns_reservation ≡ b)
      → admitted o false f ≡ ok lease
      → lease.owns_reservation ≡ true
      → (o ≡ Outcome.ok) × (lease ≡ f true)
  admitted-own Outcome.ok f own e h = (refl, ground arith)
  admitted-own Outcome.existing f own e h = ground (arith, own false)
  admitted-own _ f own e h = cc

  -- What a call of `acquire` that takes a new reservation returns and leaves.
  pub acquire_grant :
      (q : RunQuota) (o u id : ℕ) (budget_day : Option ℕ) (now : ℕ) (s : Store r)
      {lease : RunQuotaLease}
      → (acquire r q o u id budget_day false now s).0 ≡ ok lease
      → lease.owns_reservation ≡ true
      → let d = day_or budget_day now in
        let k = keys o u d in
        let a = argv q id now in
        (lease ≡ lease_for q o u id d false true)
        × (acquire_outcome r k a (pruned r k a s) ≡ Outcome.ok)
        × ((acquire r q o u id budget_day false now s).1 ≡ acquired r k a (pruned r k a s))
  unfolding acquire
  acquire_grant q o u id budget_day now s e h =
      let d = day_or budget_day now in
      let g = admitted-own _ (lease_for q o u id d false) (λ b. refl) e h in
      let t = acquire_script-ok (keys o u d) (argv q id now) s g.0 in (g.1, t.0, t.1)

  pub reserve_grant :
      (q : RunQuota) (o u id : ℕ) (budget_day : Option ℕ) (now : ℕ) (s : Store r)
      {lease : RunQuotaLease}
      → (reserve r q o u id budget_day false now s).0 ≡ ok lease
      → lease.owns_reservation ≡ true
      → let d = day_or budget_day now in
        let k = keys o u d in
        let a = argv q id now in
        (lease ≡ lease_for q o u id d true true)
        × (reserve_outcome r k a (rate_pruned r k a s) ≡ Outcome.ok)
        × ((reserve r q o u id budget_day false now s).1 ≡ reserved r k a (rate_pruned r k a s))
  unfolding reserve
  reserve_grant q o u id budget_day now s e h =
      let d = day_or budget_day now in
      let g = admitted-own _ (lease_for q o u id d true) (λ b. refl) e h in
      let t = reserve_script-ok (keys o u d) (argv q id now) s g.0 in (g.1, t.0, t.1)
