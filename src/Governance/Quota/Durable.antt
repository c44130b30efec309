-- ===== src/Governance/Quota/Durable.antt =====
-- Durable reservations of governance/quota.py.
use aiagent.Governance.Keys.{
  Redis, Store, keys, RunQuotaLease, reservation, RunQuota, CounterKey, runs_disabled, rate_user,
}
use aiagent.Governance.Quota.{ok, reserve, rollback, settle, lease_for, day_or, argv}
use aiagent.Prelude.{
  ℕ, ◌≡◌, refl, arith, true, false, ℤ, ==_refl, Bool-cases, Option, inl, inr, none,
}
use aiagent.Governance.Scripts.{rollback_script, reserve_script}
use aiagent.Governance.Quota.Admission.{reserve_grant}
use aiagent.Governance.Quota.Sums.{get-charge, get-reserved, share_back}

module _ (r : Redis) where
  -- Without its reservation key a durable lease is rolled back to no effect.
  rollback_done :
      (lease : RunQuotaLease) (s : Store r)
      → lease.durable_reservation ≡ true
      → r.flags.exists s.flags (reservation lease.lease_id) ≡ false
      → rollback r lease s ≡ s
  unfolding rollback
  rollback_done lease s d e = ground arith

  forgotten :
      (id : ℕ) (f : r.flags.State)
      → r.flags.exists (r.flags.delete (reservation id) f) (reservation id) ≡ false
  forgotten id f = simp (r.flags.exists-delete, ==_refl)

  -- After a durable lease was settled, a rollback refunds nothing.
  pub rollback-settle :
      (lease : RunQuotaLease) (tokens cost : ℤ) (s : Store r)
      → lease.durable_reservation ≡ true
      → rollback r lease (settle r lease tokens cost s) ≡ settle r lease tokens cost s
  unfolding settle
  rollback-settle lease tokens cost s d =
      rollback_done lease (settle r lease tokens cost s) d (forgotten lease.lease_id _)

  rollback-forgets :
      (lease : RunQuotaLease) (s : Store r)
      → lease.owns_reservation ≡ true
      → lease.durable_reservation ≡ true
      → r.flags.exists (rollback r lease s).flags (reservation lease.lease_id) ≡ false
  unfolding rollback
  rollback-forgets lease s o d =
      elim (Bool-cases (r.flags.exists s.flags (reservation lease.lease_id))) [
        | inl held ↦ rw (o, d, held) (forgotten lease.lease_id _)
        | inr gone ↦ rw (o, d, gone) gone
      ]

  -- Rolling an owned durable lease back twice is rolling it back once.
  pub rollback-rollback :
      (lease : RunQuotaLease) (s : Store r)
      → lease.owns_reservation ≡ true
      → lease.durable_reservation ≡ true
      → rollback r lease (rollback r lease s) ≡ rollback r lease s
  rollback-rollback lease s o d =
      rollback_done lease (rollback r lease s) d (rollback-forgets lease s o d)

  -- Taking a reservation with `reserve` (without `claim_existing`) and rolling it back leaves every
  -- daily counter as it was, the lease out of the rate window and its reservation key deleted.
  pub rollback-reserve :
      (q : RunQuota) (o u id : ℕ) (budget_day : Option ℕ) (now : ℕ) (s : Store r)
      {lease : RunQuotaLease}
      → (reserve r q o u id budget_day false now s).0 ≡ ok lease
      → lease.owns_reservation ≡ true
      → let t = rollback r lease (reserve r q o u id budget_day false now s).1 in
        ((j : CounterKey) → r.counters.get t.counts j ≡ r.counters.get s.counts j)
        × (r.sets.zscore t.sets (rate_user u) id ≡ none)
        × (r.flags.exists t.flags (reservation id) ≡ false)
  unfolding rollback rollback_script
  rollback-reserve q o u id budget_day now s e h =
      let d = day_or budget_day now in
      let g = reserve_grant r q o u id budget_day now s e h in
      rw (g.0, g.2)
        (simp (r.flags.exists-set_ex, r.flags.exists-delete, ==_refl)
          (
            λ j.
                rw (get-charge r o u d _ _ _ j, get-reserved r o u d (argv q id now) _ j)
                  (share_back (keys o u d) _ _ j _),
            simp (r.sets.zscore-zrem, ==_refl),
            refl,
          ))

  -- A second `reserve` for the same Run, while Runs are enabled and before the reservation key that the
  -- first one set runs out, is admitted again without owning a
  -- reservation and charges no counter.
  pub reserve-reserve :
      (q : RunQuota) (o u id : ℕ) (budget_day day' : Option ℕ) (now later : ℕ) (s : Store r)
      {lease : RunQuotaLease}
      → (reserve r q o u id budget_day false now s).0 ≡ ok lease
      → lease.owns_reservation ≡ true
      → r.flags.exists s.flags runs_disabled ≡ false
      → let t = (reserve r q o u id budget_day false now s).1 in
        let again = reserve r q o u id day' false later t in
        (again.0 ≡ ok (lease_for q o u id (day_or day' later) true false))
        × (again.1.counts ≡ t.counts)
  unfolding reserve reserve_script
  reserve-reserve q o u id budget_day day' now later s e h on =
      let g = reserve_grant r q o u id budget_day now s e h in
      rw (g.2) (simp (r.flags.exists-set_ex, ==_refl, on) (refl, refl))
