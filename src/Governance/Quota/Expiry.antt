-- ===== src/Governance/Quota/Expiry.antt =====
-- The lifetime of the daily counters of governance/quota.py.
use aiagent.Prelude.{ℕ, ◌+◌, ◌*◌, ◌≤◌, ◌<◌, arith}
use aiagent.Governance.Quota.{seconds_until_budget_expiry, date_of, day_length}

-- A counter that is written now lives beyond the end of the day it counts, by at least an hour less
-- the second that rounding takes, and never more than 25 hours.
pub budget_expiry_bounds :
    (now : ℕ)
    → ((date_of now + 1) * day_length + 3_599 * 1_000_000
        < now + seconds_until_budget_expiry now * 1_000_000)
      × (seconds_until_budget_expiry now ≤ 90_000)
unfolding seconds_until_budget_expiry
budget_expiry_bounds now = omega arith
