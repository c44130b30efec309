-- ===== src/Governance/Quota/Rounds.antt =====
-- A reservation of governance/quota.py, from `acquire` to `rollback` or `settle`.
use aiagent.Governance.Keys.{Redis, Store, keys, RunQuota, RunQuotaLease, CounterKey}
use aiagent.Governance.Scripts.{rollback_script, settle_script}
use aiagent.Prelude.{ℕ, ◌≡◌, pos, true, false, none, Option, ℤ, ◌+ℤ◌, pos_part, ==_refl}
use aiagent.Governance.Quota.{ok, rollback, settle, acquire, day_or, argv}
use aiagent.Governance.Quota.Admission.{acquire_grant}
use aiagent.Governance.Quota.Sums.{get-charge, share, get-acquired, share_back, share_settle}

module _ (r : Redis) where
  -- Taking a reservation with `acquire` (without `claim_existing`) and rolling it back leaves every
  -- daily counter as it was, and the lease in none of the three sets.
  pub rollback-acquire :
      (q : RunQuota) (o u id : ℕ) (budget_day : Option ℕ) (now : ℕ) (s : Store r)
      {lease : RunQuotaLease}
      → (acquire r q o u id budget_day false now s).0 ≡ ok lease
      → lease.owns_reservation ≡ true
      → let t = rollback r lease (acquire r q o u id budget_day false now s).1 in
        let k = keys o u (day_or budget_day now) in
        ((j : CounterKey) → r.counters.get t.counts j ≡ r.counters.get s.counts j)
        × (r.sets.zscore t.sets k.organization_runs id ≡ none)
        × (r.sets.zscore t.sets k.user_runs id ≡ none)
        × (r.sets.zscore t.sets k.user_rate id ≡ none)
  unfolding rollback rollback_script
  rollback-acquire q o u id budget_day now s e h =
      let d = day_or budget_day now in
      let g = acquire_grant r q o u id budget_day now s e h in
      rw (g.0, g.2)
        (
          λ j.
              rw (get-charge r o u d _ _ _ j, get-acquired r o u d (argv q id now) _ j)
                (share_back (keys o u d) _ _ j _),
          simp (r.sets.zscore-zrem, ==_refl),
          simp (r.sets.zscore-zrem, ==_refl),
          simp (r.sets.zscore-zrem, ==_refl),
        )

  -- Taking a reservation with `acquire` (without `claim_existing`) and settling it charges each
  -- daily counter what was used, negative amounts counting as none, and takes the lease out of the
  -- two sets of running Runs.
  pub settle-acquire :
      (q : RunQuota) (o u id : ℕ) (budget_day : Option ℕ) (now : ℕ) (tokens cost : ℤ) (s : Store r)
      {lease : RunQuotaLease}
      → (acquire r q o u id budget_day false now s).0 ≡ ok lease
      → lease.owns_reservation ≡ true
      → let t = settle r lease tokens cost (acquire r q o u id budget_day false now s).1 in
        let k = keys o u (day_or budget_day now) in
        ((j : CounterKey)
          → r.counters.get t.counts j
            ≡ r.counters.get s.counts j +ℤ share k (pos (pos_part tokens)) (pos (pos_part cost)) j)
        × (r.sets.zscore t.sets k.organization_runs id ≡ none)
        × (r.sets.zscore t.sets k.user_runs id ≡ none)
  unfolding settle settle_script
  settle-acquire q o u id budget_day now tokens cost s e h =
      let d = day_or budget_day now in
      let g = acquire_grant r q o u id budget_day now s e h in
      rw (g.0, g.2)
        (
          λ j.
              rw (get-charge r o u d _ _ _ j, get-acquired r o u d (argv q id now) _ j)
                (share_settle (keys o u d) _ _ _ _ j _),
          simp (r.sets.zscore-zrem, ==_refl),
          simp (r.sets.zscore-zrem, ==_refl),
        )
