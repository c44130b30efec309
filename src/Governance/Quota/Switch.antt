-- ===== src/Governance/Quota/Switch.antt =====
-- The operational switch of governance/quota.py.
use aiagent.Governance.Quota.{
  quota_exceeded, acquire, reserve, disable_runs, enable_runs, runs_enabled, quota_message,
}
use aiagent.Governance.Keys.{Redis, RunQuota, Store}
use aiagent.Governance.Scripts.{acquire_script, reserve_script}
use aiagent.Prelude.{ℕ, Option, Bool, ◌≡◌, false, true, refl}

module _ (r : Redis) where
  -- While Runs are disabled, neither `acquire` nor `reserve` admits a Run or writes anything, even for
  -- a lease that already has its reservation; `enable_runs` lets Runs start again, and neither switch
  -- changes a sorted set or a counter.
  pub disable_runs-stops :
      (q : RunQuota) (o u id : ℕ) (budget_day : Option ℕ) (claim : Bool) (now : ℕ) (s : Store r)
      → let t = disable_runs r s in
        let stopped = quota_exceeded "Agent Runs are disabled by the operational switch." in
        (acquire r q o u id budget_day claim now t ≡ (stopped, t))
        × (reserve r q o u id budget_day claim now t ≡ (stopped, t))
        × (runs_enabled r t ≡ false)
        × (runs_enabled r (enable_runs r t) ≡ true)
        × ((enable_runs r t).sets ≡ s.sets)
        × ((enable_runs r t).counts ≡ s.counts)
  unfolding acquire reserve acquire_script reserve_script disable_runs enable_runs runs_enabled
      quota_message
  disable_runs-stops q o u id budget_day claim now s =
      simp (r.flags.exists-set, r.flags.exists-delete) (refl, refl, refl, refl, refl, refl)
