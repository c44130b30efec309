-- ===== src/Runs/Retry.antt =====
-- `_retry_delay` of runs/jobs.py. The floats are counted in microseconds, the jitter ratio in
-- millionths; `draw` is the value of `secrets.randbelow(1_000_001)`.
pub mod Bounds
use aiagent.Prelude.{ℕ, ◌+◌, ◌-◌, ◌*◌, ◌/◌, ◌^◌, min, max, ◌==◌, if◌then◌else◌}

abbrev pub micro : ℕ
micro = 1_000_000

-- The keyword arguments `retry_delay_seconds`, `retry_max_delay_seconds`, `retry_jitter_ratio`.
pub record RetryPolicy : Type 0 where
  pub delay : ℕ
  pub max_delay : ℕ
  pub jitter_ratio : ℕ

exponential_delay : ℕ → ℕ → ℕ → ℕ
exponential_delay base failure_count limit = min (base * 2 ^ (failure_count - 1)) limit

-- A factor 1 + jitter below 0 is 0 here; both give the floor of 0.1 seconds.
jittered : ℕ → ℕ → ℕ → ℕ
jittered exponential ratio draw =
    exponential * (micro * micro + 2 * draw * ratio - micro * ratio) / (micro * micro)

pub retry_delay : ℕ → ℕ → ℕ → ℕ → ℕ → ℕ
unfolding exponential_delay jittered
retry_delay base failure_count limit ratio draw =
    let exponential = exponential_delay base failure_count limit in
    if ratio == 0 then exponential else max (min (jittered exponential ratio draw) limit) 100_000

-- The delay that a method reads off its keyword arguments.
abbrev pub policy_delay : RetryPolicy → ℕ → ℕ → ℕ
policy_delay policy failure_count draw =
    retry_delay policy.delay failure_count policy.max_delay policy.jitter_ratio draw
