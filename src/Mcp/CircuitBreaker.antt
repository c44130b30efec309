-- ===== src/Mcp/CircuitBreaker.antt =====
-- `CircuitBreaker` of mcp/gateway.py: the failures of each key in a row, and until when it is open. An
-- instant is a number of microseconds; 0 stands for no entry, as `get(key, 0)` reads it.
use text.Mathlib.TextPositions.{eq_refl}
use aiagent.Prelude.{
  String, ℕ, if◌then◌else◌, Bool, ◌+◌, List, str_eq, ltb, leb, ◌∷◌, ◌≡◌, length, false, [], arith,
  ◌<◌, not, true, ◌&&◌,
}

pub record Breaker : Type 0 where
  pub failures : String → ℕ
  pub opened_until : String → ℕ

abbrev pub set_at : String → ℕ → (String → ℕ) → String → ℕ
set_at key n table j = if str_eq key j then n else table j

-- Whether the call may go on; when it may not, `CircuitOpenError` is raised.
unfoldable pub before : String → ℕ → Breaker → Bool × Breaker
before key now s =
    if ltb now (s.opened_until key)
    then (false, s)
    else (true, record s { opened_until = set_at key 0 s.opened_until })

unfoldable pub success : String → Breaker → Breaker
success key s = record {
  failures = set_at key 0 s.failures;
  opened_until = set_at key 0 s.opened_until;
}

unfoldable pub failure : String → ℕ → ℕ → ℕ → Breaker → Breaker
failure key threshold recovery now s =
    let failures = set_at key (s.failures key + 1) s.failures in
    if leb threshold (failures key)
    then record { failures = failures; opened_until = set_at key (now + recovery) s.opened_until }
    else record s { failures = failures }

-- Failures in a row at these instants, newest first.
abbrev pub failures_at : String → ℕ → ℕ → List ℕ → Breaker → Breaker
failures_at key threshold recovery [] s = s
failures_at key threshold recovery (now ∷ earlier) s =
    failure key threshold recovery now (failures_at key threshold recovery earlier s)

failures_at-count :
    (key : String) (threshold recovery : ℕ) (times : List ℕ) (s : Breaker)
    → (failures_at key threshold recovery times (success key s)).failures key ≡ length times
unfolding success failure
failures_at-count key threshold recovery [] s = ground (arith, eq_refl key)
failures_at-count key threshold recovery (now ∷ earlier) s =
    ground (arith, eq_refl key, failures_at-count key threshold recovery earlier s)

failures_at-closed :
    (key : String) (threshold recovery : ℕ) (times : List ℕ) (s : Breaker)
    → length times < threshold
    → (failures_at key threshold recovery times (success key s)).opened_until key ≡ 0
unfolding success failure
failures_at-closed key threshold recovery [] s h = ground (arith, eq_refl key)
failures_at-closed key threshold recovery (now ∷ earlier) s h = ground (
  arith,
  eq_refl key,
  failures_at-count key threshold recovery earlier s,
  failures_at-closed key threshold recovery earlier s,
)

-- After a success and then failures in a row, the last at `now`, a call at `t` is refused exactly when
-- the failures have reached the threshold and the recovery time since the last one is not over.
pub before-failures_at :
    (key : String) (threshold recovery t now : ℕ) (earlier : List ℕ) (s : Breaker)
    → (before key t (failures_at key threshold recovery (now ∷ earlier) (success key s))).0
      ≡ not (leb threshold (length earlier + 1) && ltb t (now + recovery))
unfolding before failure
before-failures_at key threshold recovery t now earlier s = ground (
  arith,
  eq_refl key,
  failures_at-count key threshold recovery earlier s,
  failures_at-closed key threshold recovery earlier s,
)
