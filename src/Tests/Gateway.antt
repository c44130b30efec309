-- ===== src/Tests/Gateway.antt =====
-- The limits of mcp/gateway.py on small histories.
use aiagent.Mcp.RateLimiter.Window.{Reach, allowed, start, is_young, check-window}
use aiagent.Prelude.{
  refl, Bool, [], ◌∷◌, ◌≡◌, true, false, ltb, length, not, arith, keep, leb, ◌&&◌, ◌+◌,
}
use aiagent.Mcp.RateLimiter.{Events, check, popleft_old}
use aiagent.Mcp.CircuitBreaker.{Breaker, before, failures_at, success, before-failures_at}

abbrev none_yet : Events
none_yet _ = []

abbrev first : Bool × Events
first = check "k" 1 60 100 none_yet

first-granted : first.0 ≡ true
unfolding check popleft_old
first-granted = refl

abbrev one_call : Reach 60 "k" first.1 (100 ∷ []) 100
one_call = allowed 1 100 (start 90) (omega arith) first-granted

-- A second call 20 later is refused, one 60 later allowed.
limited : ((check "k" 1 60 120 first.1).0 ≡ false) × ((check "k" 1 60 160 first.1).0 ≡ true)
unfolding check popleft_old
limited = (refl, refl)

check-window_example :
    (check "k" 1 60 120 first.1).0 ≡ ltb (length (keep (is_young 60 120) (100 ∷ []))) 1
check-window_example = check-window 60 "k" 1 120 one_call (omega arith)

abbrev idle : Breaker
idle = record { failures = λ _. 0; opened_until = λ _. 0 }

before-failures_at_example :
    (before "k" 50 (failures_at "k" 2 30 (40 ∷ 10 ∷ []) (success "k" idle))).0
    ≡ not (leb 2 2 && ltb 50 (40 + 30))
before-failures_at_example = before-failures_at "k" 2 30 50 40 (10 ∷ []) idle
