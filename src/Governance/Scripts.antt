-- ===== src/Governance/Scripts.antt =====
-- The Lua scripts of governance/quota.py, each one atomic step of the Redis server. ARGV has
-- names here; DECRBY is INCRBY of the negated amount.
use aiagent.Prelude.{ℕ, Bool, leb, if◌then◌else◌, is_some, ℤ, pos, ◌+ℤ◌, sub_ℕ, ltb_ℤ}
use aiagent.Governance.Keys.{CounterKey, Redis, Store, Keys, reservation}

pub data Outcome : Type 0 where
  ok existing disabled user_concurrency organization_concurrency user_rate : Outcome
  user_tokens organization_tokens user_cost organization_cost : Outcome

pub record Argv : Type 0 where
  pub now_ms : ℕ
  pub expires_ms : ℕ
  pub lease_id : ℕ
  pub max_user_runs : ℕ
  pub max_organization_runs : ℕ
  pub max_user_rate : ℕ
  pub tokens : ℕ
  pub cost : ℕ
  pub max_user_tokens : ℕ
  pub max_organization_tokens : ℕ
  pub max_user_cost : ℕ
  pub max_organization_cost : ℕ
  pub runs_ttl : ℕ
  pub budget_ttl : ℕ

module _ (r : Redis) where
  open r use {sets as zsets, counters, flags as switches}

  -- `GET key + amount > limit`.
  abbrev pub exceeds : Store r → CounterKey → ℕ → ℕ → Bool
  exceeds s key amount limit = ltb_ℤ (pos limit) (counters.get s.counts key +ℤ pos amount)

  -- The four budget tests of _ACQUIRE and _RESERVE.
  abbrev pub budget_outcome : Keys → Argv → Store r → Outcome
  budget_outcome k a s =
      if exceeds s k.user_tokens a.tokens a.max_user_tokens
      then user_tokens
      else if exceeds s k.organization_tokens a.tokens a.max_organization_tokens
      then organization_tokens
      else if exceeds s k.user_cost a.cost a.max_user_cost
      then user_cost
      else if exceeds s k.organization_cost a.cost a.max_organization_cost
      then organization_cost
      else ok

  -- INCRBY of the two token counters by one amount and of the two cost counters by another.
  abbrev pub charge : Keys → ℤ → ℤ → r.counters.State → r.counters.State
  charge k tokens cost counts = counters.incrby k.organization_cost cost (
      counters.incrby k.user_cost cost (
        counters.incrby k.organization_tokens tokens (counters.incrby k.user_tokens tokens counts)))

  abbrev expire_budgets : Keys → ℕ → r.counters.State → r.counters.State
  expire_budgets k ttl counts = counters.expire k.organization_cost ttl (
      counters.expire k.user_cost ttl
        (counters.expire k.organization_tokens ttl (counters.expire k.user_tokens ttl counts)))

  abbrev pub prune_runs : Keys → ℕ → r.sets.State → r.sets.State
  prune_runs k now sets =
      zsets.zremrangebyscore k.user_runs (pos now)
        (zsets.zremrangebyscore k.organization_runs (pos now) sets)

  abbrev pub prune_rate : Keys → ℕ → r.sets.State → r.sets.State
  prune_rate k now sets = zsets.zremrangebyscore k.user_rate (sub_ℕ now 60_000) sets

  abbrev add_runs : Keys → Argv → r.sets.State → r.sets.State
  add_runs k a sets =
      zsets.zadd k.user_runs a.expires_ms a.lease_id
        (zsets.zadd k.organization_runs a.expires_ms a.lease_id sets)

  abbrev expire_runs : Keys → ℕ → r.sets.State → r.sets.State
  expire_runs k ttl sets = zsets.expire k.user_runs ttl (zsets.expire k.organization_runs ttl sets)

  abbrev add_rate : Keys → Argv → r.sets.State → r.sets.State
  add_rate k a sets = zsets.zadd k.user_rate a.now_ms a.lease_id sets

  abbrev remove_runs : Keys → ℕ → r.sets.State → r.sets.State
  remove_runs k lease_id sets =
      zsets.zrem k.user_runs lease_id (zsets.zrem k.organization_runs lease_id sets)

  -- The tests of _ACQUIRE on the pruned sets.
  abbrev pub acquire_outcome : Keys → Argv → Store r → Outcome
  acquire_outcome k a s =
      if is_some (zsets.zscore s.sets k.organization_runs a.lease_id)
      then existing
      else if leb a.max_user_runs (zsets.zcard s.sets k.user_runs)
      then user_concurrency
      else if leb a.max_organization_runs (zsets.zcard s.sets k.organization_runs)
      then organization_concurrency
      else if leb a.max_user_rate (zsets.zcard s.sets k.user_rate)
      then user_rate
      else budget_outcome k a s

  -- The writes of _ACQUIRE.
  abbrev pub acquired : Keys → Argv → Store r → Store r
  acquired k a s = record s {
    sets =
        zsets.expire k.user_rate 120
          (expire_runs k a.runs_ttl (add_rate k a (add_runs k a s.sets)));
    counts = expire_budgets k a.budget_ttl (charge k (pos a.tokens) (pos a.cost) s.counts);
  }

  abbrev pub pruned : Keys → Argv → Store r → Store r
  pruned k a s = record s { sets = prune_rate k a.now_ms (prune_runs k a.now_ms s.sets) }

  -- Only 'ok' writes more than the pruning.
  abbrev pub when_ok : Outcome → Store r → Store r → Outcome × Store r
  when_ok ok yes_store no_store = (ok, yes_store)
  when_ok outcome yes_store no_store = (outcome, no_store)

  -- _ACQUIRE.
  unfoldable pub acquire_script : Keys → Argv → Store r → Outcome × Store r
  acquire_script k a s =
      if switches.exists s.flags k.disabled
      then (disabled, s)
      else (let p = pruned k a s in when_ok (acquire_outcome k a p) (acquired k a p) p)

  -- _SETTLE: the reservation is replaced by what was used.
  unfoldable pub settle_script : Keys → ℕ → ℕ → ℕ → ℕ → ℕ → Store r → Store r
  settle_script k lease_id tokens cost reserved_tokens reserved_cost s = record s {
    sets = remove_runs k lease_id s.sets;
    counts = charge k (sub_ℕ tokens reserved_tokens) (sub_ℕ cost reserved_cost) s.counts;
  }

  -- _ROLLBACK.
  unfoldable pub rollback_script : Keys → ℕ → ℕ → ℕ → Store r → Store r
  rollback_script k lease_id tokens cost s = record s {
    sets = zsets.zrem k.user_rate lease_id (remove_runs k lease_id s.sets);
    counts = charge k (sub_ℕ 0 tokens) (sub_ℕ 0 cost) s.counts;
  }

  -- _RELEASE_CONCURRENCY.
  unfoldable pub release_concurrency_script : Keys → ℕ → Store r → Store r
  release_concurrency_script k lease_id s = record s { sets = remove_runs k lease_id s.sets }

  -- The tests of _RESERVE on the pruned rate set.
  abbrev pub reserve_outcome : Keys → Argv → Store r → Outcome
  reserve_outcome k a s =
      if switches.exists s.flags (reservation a.lease_id)
      then existing
      else if leb a.max_user_rate (zsets.zcard s.sets k.user_rate)
      then user_rate
      else budget_outcome k a s

  abbrev pub reserved : Keys → Argv → Store r → Store r
  reserved k a s = record {
    sets = zsets.expire k.user_rate 120 (add_rate k a s.sets);
    counts = expire_budgets k a.budget_ttl (charge k (pos a.tokens) (pos a.cost) s.counts);
    flags = switches.set_ex (reservation a.lease_id) a.budget_ttl s.flags;
  }

  abbrev pub rate_pruned : Keys → Argv → Store r → Store r
  rate_pruned k a s = record s { sets = prune_rate k a.now_ms s.sets }

  -- _RESERVE.
  unfoldable pub reserve_script : Keys → Argv → Store r → Outcome × Store r
  reserve_script k a s =
      if switches.exists s.flags k.disabled
      then (disabled, s)
      else (let p = rate_pruned k a s in when_ok (reserve_outcome k a p) (reserved k a p) p)

  -- The tests of _ACQUIRE_CONCURRENCY on the pruned sets.
  abbrev pub concurrency_outcome : Keys → Argv → Store r → Outcome
  concurrency_outcome k a s =
      if is_some (zsets.zscore s.sets k.organization_runs a.lease_id)
      then existing
      else if leb a.max_user_runs (zsets.zcard s.sets k.user_runs)
      then user_concurrency
      else if leb a.max_organization_runs (zsets.zcard s.sets k.organization_runs)
      then organization_concurrency
      else ok

  -- _ACQUIRE_CONCURRENCY.
  unfoldable pub acquire_concurrency_script : Keys → Argv → Store r → Outcome × Store r
  acquire_concurrency_script k a s =
      let p : Store r = record s { sets = prune_runs k a.now_ms s.sets } in
      when_ok (concurrency_outcome k a p)
        (record p { sets = expire_runs k a.runs_ttl (add_runs k a p.sets) }) p
