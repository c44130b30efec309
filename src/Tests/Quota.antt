-- ===== src/Tests/Quota.antt =====
-- The quotas of governance/quota.py on a small server.
use aiagent.Governance.Quota.{
  ok, quota_exceeded, acquire, reserve, rollback, settle, lease_for, quota_message, argv,
}
use aiagent.Prelude.{refl, ℕ, Bool, false, true, none, ◌+ℤ◌, pos, ◌≡◌, negsuc, ◌/◌}
use aiagent.Governance.Keys.{
  RunQuota, RunQuotaLease, keys, CounterKey, runs_disabled, rate_user, reservation,
}
use aiagent.Governance.Quota.Limits.{Within, acquire-Within}
use aiagent.Governance.Quota.Refusal.{OnlyPruned, acquire-refused}
use aiagent.Tests.Server.{server, empty_store}
use aiagent.Governance.Scripts.{acquire_script, reserve_script}
use aiagent.Governance.Quota.Rounds.{rollback-acquire, settle-acquire}
use aiagent.Governance.Quota.Durable.{rollback-reserve}
use aiagent.Governance.Quota.Sums.{share}

abbrev quota : RunQuota
quota = record {
  settings = record {
    max_concurrent_runs_per_user = 2;
    max_concurrent_runs_per_organization = 3;
    max_runs_per_user_per_minute = 5;
    max_daily_tokens_per_user = 1_000;
    max_daily_tokens_per_organization = 5_000;
    max_daily_cost_per_user = 1_000;
    max_daily_cost_per_organization = 5_000;
  };
  run_limits = record { max_input_tokens = 100; max_output_tokens = 50; max_cost = 20 };
  lease_seconds = 60;
}

-- The same quota with no Run allowed.
abbrev closed_quota : RunQuota
closed_quota = record quota {
  settings = record quota.settings { max_concurrent_runs_per_user = 0 };
}

abbrev now : ℕ
now = 86_400_000_000

abbrev granted : Bool → RunQuotaLease
granted durable = lease_for quota 1 2 9 1 durable true

acquire-granted : (acquire server quota 1 2 9 none false now empty_store).0 ≡ ok (granted false)
unfolding acquire acquire_script server empty_store ◌+ℤ◌
acquire-granted = refl

reserve-granted : (reserve server quota 1 2 9 none false now empty_store).0 ≡ ok (granted true)
unfolding reserve reserve_script server empty_store ◌+ℤ◌
reserve-granted = refl

acquire-closed :
    (acquire server closed_quota 1 2 9 none false now empty_store).0
    ≡ quota_exceeded "User concurrent Run quota exceeded."
unfolding acquire acquire_script server empty_store quota_message
acquire-closed = refl

acquire-Within_example :
    Within server
      (keys 1 2 1)
      (argv quota 9 now)
      (acquire server quota 1 2 9 none false now empty_store).1
acquire-Within_example =
    acquire-Within server quota 1 2 9 none now empty_store {lease = granted false} acquire-granted
      refl

acquire-refused_example :
    OnlyPruned server
      (now / 1_000)
      empty_store
      (acquire server closed_quota 1 2 9 none false now empty_store).1
acquire-refused_example =
    acquire-refused server closed_quota 1 2 9 none false now empty_store acquire-closed

rollback-acquire_example :
    let t =
      rollback server (granted false) (acquire server quota 1 2 9 none false now empty_store).1 in
    let k = keys 1 2 1 in
    ((j : CounterKey) → server.counters.get t.counts j ≡ server.counters.get (empty_store).counts j)
    × (server.sets.zscore t.sets k.organization_runs 9 ≡ none)
    × (server.sets.zscore t.sets k.user_runs 9 ≡ none)
    × (server.sets.zscore t.sets k.user_rate 9 ≡ none)
rollback-acquire_example =
    rollback-acquire server quota 1 2 9 none now empty_store {lease = granted false} acquire-granted
      refl

settle-acquire_example :
    let t =
      settle server
        (granted false)
        (pos 30)
        (negsuc 4)
        (acquire server quota 1 2 9 none false now empty_store).1 in
    let k = keys 1 2 1 in
    ((j : CounterKey)
      → server.counters.get t.counts j
        ≡ server.counters.get (empty_store).counts j +ℤ share k (pos 30) (pos 0) j)
    × (server.sets.zscore t.sets k.organization_runs 9 ≡ none)
    × (server.sets.zscore t.sets k.user_runs 9 ≡ none)
settle-acquire_example =
    settle-acquire server quota 1 2 9 none now (pos 30) (negsuc 4) empty_store
      {lease = granted false} acquire-granted refl

rollback-reserve_example :
    let t =
      rollback server (granted true) (reserve server quota 1 2 9 none false now empty_store).1 in
    ((j : CounterKey) → server.counters.get t.counts j ≡ server.counters.get (empty_store).counts j)
    × (server.sets.zscore t.sets (rate_user 2) 9 ≡ none)
    × (server.flags.exists t.flags (reservation 9) ≡ false)
rollback-reserve_example =
    rollback-reserve server quota 1 2 9 none now empty_store {lease = granted true} reserve-granted
      refl

runs-on : server.flags.exists (empty_store).flags runs_disabled ≡ false
unfolding server empty_store
runs-on = refl
