-- ===== src/Governance/Quota.antt =====
-- `RedisRunQuota` of governance/quota.py: admission of Runs and the daily budgets. The clock (in
-- microseconds) is an argument; a UUID is a number, and so is a day.
pub mod Sums
pub mod Admission
pub mod Rounds
pub mod Limits
pub mod Refusal
pub mod Durable
pub mod Expiry
pub mod Switch
use aiagent.Prelude.{
  ℕ, ◌+◌, ◌-◌, ◌*◌, ◌/◌, max, Bool, true, false, not, ◌&&◌, ◌||◌, Option, none, some, String,
  if◌then◌else◌, ℤ, pos_part,
}
use aiagent.Governance.Keys.{
  Redis, Store, keys, QuotaSettings, RunLimits, RunQuota, RunQuotaLease, reservation, runs_disabled,
  Keys,
}
use aiagent.Governance.Scripts.{
  Outcome, Argv, acquire_script, settle_script, rollback_script, release_concurrency_script,
  reserve_script, acquire_concurrency_script,
}

-- A method's result, or `QuotaExceededError` with its message.
pub data Result (A : Type 0) : Type 0 where
  ok : A → Result A
  quota_exceeded : String → Result A

abbrev pub day_length : ℕ
day_length = 86_400_000_000

-- `date` of an instant, as the number of the day.
abbrev pub date_of : ℕ → ℕ
date_of now = now / day_length

unfoldable pub seconds_until_budget_expiry : ℕ → ℕ
seconds_until_budget_expiry now =
    let tomorrow = (date_of now + 1) * day_length in
    max ((tomorrow - now) / 1_000_000 + 3_600) 3_600

unfoldable pub quota_message : Outcome → String
quota_message Outcome.disabled = "Agent Runs are disabled by the operational switch."
quota_message Outcome.user_concurrency = "User concurrent Run quota exceeded."
quota_message Outcome.organization_concurrency = "Organization concurrent Run quota exceeded."
quota_message Outcome.user_rate = "User Run rate quota exceeded."
quota_message Outcome.user_tokens = "User daily Token quota exceeded."
quota_message Outcome.organization_tokens = "Organization daily Token quota exceeded."
quota_message Outcome.user_cost = "User daily cost quota exceeded."
quota_message Outcome.organization_cost = "Organization daily cost quota exceeded."
quota_message _ = "Run quota admission failed."

abbrev pub reserved_tokens_of : RunQuota → ℕ
reserved_tokens_of q = q.run_limits.max_input_tokens + q.run_limits.max_output_tokens

-- The arguments that the methods hand to their scripts.
abbrev pub argv : RunQuota → ℕ → ℕ → Argv
argv q lease_id now = record {
  now_ms = now / 1_000;
  expires_ms = now / 1_000 + q.lease_seconds * 1_000;
  lease_id = lease_id;
  max_user_runs = q.settings.max_concurrent_runs_per_user;
  max_organization_runs = q.settings.max_concurrent_runs_per_organization;
  max_user_rate = q.settings.max_runs_per_user_per_minute;
  tokens = reserved_tokens_of q;
  cost = q.run_limits.max_cost;
  max_user_tokens = q.settings.max_daily_tokens_per_user;
  max_organization_tokens = q.settings.max_daily_tokens_per_organization;
  max_user_cost = q.settings.max_daily_cost_per_user;
  max_organization_cost = q.settings.max_daily_cost_per_organization;
  runs_ttl = q.lease_seconds + 60;
  budget_ttl = seconds_until_budget_expiry now;
}

abbrev pub day_or : Option ℕ → ℕ → ℕ
day_or none now = date_of now
day_or (some day) now = day

-- `owns_reservation` of an outcome; any but 'ok' and 'existing' is refused.
abbrev pub admitted : Outcome → Bool → (Bool → RunQuotaLease) → Result RunQuotaLease
admitted Outcome.ok claim_existing lease = ok (lease true)
admitted Outcome.existing claim_existing lease = ok (lease claim_existing)
admitted outcome claim_existing lease = quota_exceeded (quota_message outcome)

abbrev pub allowed : Outcome → Result (Unit {0})
allowed Outcome.ok = ok tt
allowed Outcome.existing = ok tt
allowed outcome = quota_exceeded (quota_message outcome)

abbrev pub lease_for : RunQuota → ℕ → ℕ → ℕ → ℕ → Bool → Bool → RunQuotaLease
lease_for q organization_id user_id lease_id day durable owns = record {
  lease_id = lease_id;
  organization_id = organization_id;
  user_id = user_id;
  day = day;
  reserved_tokens = reserved_tokens_of q;
  reserved_cost_micros = q.run_limits.max_cost;
  owns_reservation = owns;
  durable_reservation = durable;
}

-- `reservation_lease`.
abbrev pub reservation_lease : RunQuota → ℕ → ℕ → ℕ → ℕ → RunQuotaLease
reservation_lease q organization_id user_id lease_id budget_day =
    lease_for q organization_id user_id lease_id budget_day true true

module _ (r : Redis) where
  open r use {flags as switches}

  unfoldable pub acquire :
      RunQuota → ℕ → ℕ → ℕ → Option ℕ → Bool → ℕ → Store r → Result RunQuotaLease × Store r
  acquire q organization_id user_id lease_id budget_day claim_existing now s =
      let day = day_or budget_day now in
      let (outcome, s') =
        acquire_script r (keys organization_id user_id day) (argv q lease_id now) s in
      (admitted outcome claim_existing (lease_for q organization_id user_id lease_id day false), s')

  unfoldable pub reserve :
      RunQuota → ℕ → ℕ → ℕ → Option ℕ → Bool → ℕ → Store r → Result RunQuotaLease × Store r
  reserve q organization_id user_id lease_id budget_day claim_existing now s =
      let day = day_or budget_day now in
      let (outcome, s') =
        reserve_script r (keys organization_id user_id day) (argv q lease_id now) s in
      (admitted outcome claim_existing (lease_for q organization_id user_id lease_id day true), s')

  -- The keys of a lease.
  abbrev pub lease_keys : RunQuotaLease → Keys
  lease_keys lease = keys lease.organization_id lease.user_id lease.day

  unfoldable pub acquire_concurrency :
      RunQuota → RunQuotaLease → ℕ → Store r → Result (Unit {0}) × Store r
  acquire_concurrency q lease now s =
      let (outcome, s') =
        acquire_concurrency_script r (lease_keys lease) (argv q lease.lease_id now) s in
      (allowed outcome, s')

  abbrev pub forget_reservation : RunQuotaLease → Store r → Store r
  forget_reservation lease s = record s {
    flags = switches.delete (reservation lease.lease_id) s.flags;
  }

  -- `max(tokens, 0)` and `max(cost_usd, 0.0)`.
  unfoldable pub settle : RunQuotaLease → ℤ → ℤ → Store r → Store r
  settle lease tokens cost s = forget_reservation lease (
      settle_script r (lease_keys lease) lease.lease_id (pos_part tokens) (pos_part cost)
        lease.reserved_tokens lease.reserved_cost_micros s)

  unfoldable pub rollback : RunQuotaLease → Store r → Store r
  rollback lease s =
      if not lease.owns_reservation
      then s
      else if lease.durable_reservation
          && not (switches.exists s.flags (reservation lease.lease_id))
      then s
      else forget_reservation lease (
          rollback_script r (lease_keys lease) lease.lease_id lease.reserved_tokens
            lease.reserved_cost_micros s)

  unfoldable pub abandon : RunQuotaLease → Store r → Store r
  abandon lease s = release_concurrency_script r (lease_keys lease) lease.lease_id s

  unfoldable pub runs_enabled : Store r → Bool
  runs_enabled s = not (switches.exists s.flags runs_disabled)

  unfoldable pub disable_runs : Store r → Store r
  disable_runs s = record s { flags = switches.set runs_disabled s.flags }

  unfoldable pub enable_runs : Store r → Store r
  enable_runs s = record s { flags = switches.delete runs_disabled s.flags }
