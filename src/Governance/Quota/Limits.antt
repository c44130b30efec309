-- ===== src/Governance/Quota/Limits.antt =====
-- The limits of governance/quota.py and `acquire`.
use aiagent.Governance.Keys.{Redis, Store, keys, Keys, RunQuota, RunQuotaLease}
use aiagent.Governance.Scripts.{Outcome, Argv, acquire_outcome, budget_outcome, acquired, pruned}
use aiagent.Prelude.{ℕ, ◌≤◌, ◌<◌, ◌≤ℤ◌, ◌+ℤ◌, ◌≡◌, arith, pos, Option, false, ==_refl, true}
use aiagent.Governance.Quota.Sums.{zcard-acquired, get-acquired}
use aiagent.Governance.Quota.{acquire, ok, day_or, argv}
use aiagent.Governance.Quota.Admission.{acquire_grant}

module _ (r : Redis) where
  -- The sets hold no more members than allowed, and no daily counter is above its budget.
  pub record Within (k : Keys) (a : Argv) (s : Store r) : Type 0 where
    pub user_runs : r.sets.zcard s.sets k.user_runs ≤ a.max_user_runs
    pub organization_runs : r.sets.zcard s.sets k.organization_runs ≤ a.max_organization_runs
    pub user_rate : r.sets.zcard s.sets k.user_rate ≤ a.max_user_rate
    pub user_tokens : r.counters.get s.counts k.user_tokens ≤ℤ pos a.max_user_tokens
    pub organization_tokens :
        r.counters.get s.counts k.organization_tokens ≤ℤ pos a.max_organization_tokens
    pub user_cost : r.counters.get s.counts k.user_cost ≤ℤ pos a.max_user_cost
    pub organization_cost :
        r.counters.get s.counts k.organization_cost ≤ℤ pos a.max_organization_cost

  -- The tests that an 'ok' has passed.
  acquire_tests :
      (k : Keys) (a : Argv) (s : Store r)
      → acquire_outcome r k a s ≡ Outcome.ok
      → (r.sets.zcard s.sets k.user_runs < a.max_user_runs)
        × (r.sets.zcard s.sets k.organization_runs < a.max_organization_runs)
        × (r.sets.zcard s.sets k.user_rate < a.max_user_rate)
        × (budget_outcome r k a s ≡ Outcome.ok)
  acquire_tests k a s e = ground arith

  budget_tests :
      (k : Keys) (a : Argv) (s : Store r)
      → budget_outcome r k a s ≡ Outcome.ok
      → (r.counters.get s.counts k.user_tokens +ℤ pos a.tokens ≤ℤ pos a.max_user_tokens)
        × (r.counters.get s.counts k.organization_tokens +ℤ pos a.tokens
            ≤ℤ pos a.max_organization_tokens)
        × (r.counters.get s.counts k.user_cost +ℤ pos a.cost ≤ℤ pos a.max_user_cost)
        × (r.counters.get s.counts k.organization_cost +ℤ pos a.cost ≤ℤ pos a.max_organization_cost)
  budget_tests k a s e = ground arith

  acquired-Within :
      (o u d : ℕ) (a : Argv) (s : Store r)
      → acquire_outcome r (keys o u d) a s ≡ Outcome.ok
      → Within (keys o u d) a (acquired r (keys o u d) a s)
  acquired-Within o u d a s e =
      let k = keys o u d in
      let t = acquire_tests k a s e in
      let b = budget_tests k a s (t.3) in
      let z = zcard-acquired r o u d a s in
      record {
        user_runs = omega arith;
        organization_runs = omega arith;
        user_rate = omega arith;
        user_tokens = rw (get-acquired r o u d a s k.user_tokens) (rw (==_refl d, ==_refl u) b.0);
        organization_tokens =
            rw (get-acquired r o u d a s k.organization_tokens) (rw (==_refl d, ==_refl o) b.1);
        user_cost = rw (get-acquired r o u d a s k.user_cost) (rw (==_refl d, ==_refl u) b.2);
        organization_cost =
            rw (get-acquired r o u d a s k.organization_cost) (rw (==_refl d, ==_refl o) b.3);
      }

  -- When `acquire` without `claim_existing` takes a new reservation, afterwards the sets of running
  -- Runs of the user and of the organization and the set of the user's Runs in the rate window have
  -- no more members than allowed, and none of the four daily counters is above its budget.
  pub acquire-Within :
      (q : RunQuota) (o u id : ℕ) (budget_day : Option ℕ) (now : ℕ) (s : Store r)
      {lease : RunQuotaLease}
      → (acquire r q o u id budget_day false now s).0 ≡ ok lease
      → lease.owns_reservation ≡ true
      → Within
          (keys o u (day_or budget_day now))
          (argv q id now)
          (acquire r q o u id budget_day false now s).1
  acquire-Within q o u id budget_day now s e h =
      let d = day_or budget_day now in
      let a = argv q id now in
      let g = acquire_grant r q o u id budget_day now s e h in
      rw (g.2) (acquired-Within o u d a (pruned r (keys o u d) a s) (g.1))
