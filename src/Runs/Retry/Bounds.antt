-- ===== src/Runs/Retry/Bounds.antt =====
-- Bounds of the retry delay of runs/jobs.py.
use native.Mathlib.Numerals.{add-one, add-two}
use native.Mathlib.Nat.{pow-suc}
use aiagent.Prelude.{ℕ, ◌≤◌, ◌≡◌, arith, ◌*◌, ◌^◌, ◌-◌, min, suc, max, ◌+◌, ◌≢◌, ◌∙◌, refl}
use aiagent.Runs.Retry.{retry_delay, exponential_delay}

-- The delay is never above the greater of the configured maximum and 0.1 seconds; with jitter it is
-- also at least 0.1 seconds, whatever was drawn.
pub retry_delay_bounds :
    (base failures limit ratio draw : ℕ)
    → (retry_delay base failures limit ratio draw ≤ max limit 100_000)
      × (ratio ≢ 0 → 100_000 ≤ retry_delay base failures limit ratio draw)
unfolding retry_delay
retry_delay_bounds base failures limit ratio draw = ground arith

exponential_delay-suc :
    (base n limit : ℕ) → exponential_delay base (suc n) limit ≡ min (base * 2 ^ n) limit
unfolding exponential_delay
exponential_delay-suc base n limit = rw sub_suc refl
  where
    sub_suc : suc n - 1 ≡ n
    sub_suc = omega arith

double : (b p : ℕ) → b * (p * 2) ≡ 2 * (b * p)
double b p = omega arith

-- Without jitter the first failure waits the base delay, and each further one twice the delay of the
-- one before, as long as that stays within the maximum.
pub retry_delay_doubles :
    (base n limit draw : ℕ)
    → (retry_delay base 1 limit 0 draw ≡ min base limit)
      × (retry_delay base (n + 2) limit 0 draw
          ≡ min (2 * retry_delay base (n + 1) limit 0 draw) limit)
unfolding retry_delay
retry_delay_doubles base n limit draw = (
  exponential_delay-suc base 0 limit ∙ omega arith,
  rw (add-one, add-two)
      (rw (exponential_delay-suc base (suc n) limit, exponential_delay-suc base n limit)
        (rw pow-suc (omega (arith, double base (2 ^ n))))),
)
