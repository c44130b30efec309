-- ===== src/Governance/Keys.antt =====
-- The keys, settings and leases of `RedisRunQuota` (governance/quota.py). A key's text
-- is replaced by a constructor with the values that the text is built from.
use aiagent.Prelude.{ℕ, Bool, true, false, ◌&&◌, ◌==◌}
use aiagent.Governance.Redis.{SortedSets, Counters, Flags}

pub data SetKey : Type 0 where
  concurrent_organization concurrent_user rate_user : ℕ → SetKey

-- The daily counters, by day and by user or organization.
pub data CounterKey : Type 0 where
  tokens_user tokens_organization cost_user cost_organization : ℕ → ℕ → CounterKey

pub data FlagKey : Type 0 where
  runs_disabled : FlagKey
  reservation : ℕ → FlagKey

abbrev pub set_key_eq : SetKey → SetKey → Bool
set_key_eq (concurrent_organization a) (concurrent_organization b) = a == b
set_key_eq (concurrent_user a) (concurrent_user b) = a == b
set_key_eq (rate_user a) (rate_user b) = a == b
set_key_eq _ _ = false

abbrev pub counter_key_eq : CounterKey → CounterKey → Bool
counter_key_eq (tokens_user d a) (tokens_user e b) = (d == e) && (a == b)
counter_key_eq (tokens_organization d a) (tokens_organization e b) = (d == e) && (a == b)
counter_key_eq (cost_user d a) (cost_user e b) = (d == e) && (a == b)
counter_key_eq (cost_organization d a) (cost_organization e b) = (d == e) && (a == b)
counter_key_eq _ _ = false

abbrev pub flag_key_eq : FlagKey → FlagKey → Bool
flag_key_eq runs_disabled runs_disabled = true
flag_key_eq (reservation a) (reservation b) = a == b
flag_key_eq _ _ = false

-- The server, and what it holds.
pub record Redis : Type 1 where
  pub sets : SortedSets SetKey set_key_eq
  pub counters : Counters CounterKey counter_key_eq
  pub flags : Flags FlagKey flag_key_eq

pub record Store (r : Redis) : Type 0 where
  pub sets : r.sets.State
  pub counts : r.counters.State
  pub flags : r.flags.State

-- The list that `_keys` returns.
pub record Keys : Type 0 where
  pub organization_runs : SetKey
  pub user_runs : SetKey
  pub user_rate : SetKey
  pub user_tokens : CounterKey
  pub organization_tokens : CounterKey
  pub user_cost : CounterKey
  pub organization_cost : CounterKey
  pub disabled : FlagKey

abbrev pub keys : ℕ → ℕ → ℕ → Keys
keys organization_id user_id day = record {
  organization_runs = concurrent_organization organization_id;
  user_runs = concurrent_user user_id;
  user_rate = rate_user user_id;
  user_tokens = tokens_user day user_id;
  organization_tokens = tokens_organization day organization_id;
  user_cost = cost_user day user_id;
  organization_cost = cost_organization day organization_id;
  disabled = runs_disabled;
}

-- `QuotaSettings` and `RunLimitSettings` of config.py, as far as quotas use them. Costs are counted
-- in micros, as `_cost_micros` gives them.
pub record QuotaSettings : Type 0 where
  pub max_concurrent_runs_per_user : ℕ
  pub max_concurrent_runs_per_organization : ℕ
  pub max_runs_per_user_per_minute : ℕ
  pub max_daily_tokens_per_user : ℕ
  pub max_daily_tokens_per_organization : ℕ
  pub max_daily_cost_per_user : ℕ
  pub max_daily_cost_per_organization : ℕ

pub record RunLimits : Type 0 where
  pub max_input_tokens : ℕ
  pub max_output_tokens : ℕ
  pub max_cost : ℕ

-- The fields that `RedisRunQuota.__init__` sets.
pub record RunQuota : Type 0 where
  pub settings : QuotaSettings
  pub run_limits : RunLimits
  pub lease_seconds : ℕ

pub record RunQuotaLease : Type 0 where
  pub lease_id : ℕ
  pub organization_id : ℕ
  pub user_id : ℕ
  pub day : ℕ
  pub reserved_tokens : ℕ
  pub reserved_cost_micros : ℕ
  pub owns_reservation : Bool
  pub durable_reservation : Bool
