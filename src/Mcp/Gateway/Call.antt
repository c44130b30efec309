-- ===== src/Mcp/Gateway/Call.antt =====
-- `McpGateway.call` (mcp/gateway.py), and what every call leaves behind.
use aiagent.Mcp.Gateway.{
  GatewayError, GatewayTexts, ResolvedTool, RunContext, RawResult, Answer, Gateway, Outcome,
  has_expired, tool_result, denial_markers, errs, gives, some, answers, fails, payload_of,
  authorization, mcp_connection, gateway_timeout, protocol_validation, rate_limit_exceeded,
  circuit_open, other_error,
}
use aiagent.Mcp.RateLimiter.{check}
use aiagent.Mcp.CircuitBreaker.{before, success, failure, Breaker}
use aiagent.Agents.Model.{ToolResult}
use aiagent.Json.{Json, Fields, obj}
use aiagent.Prelude.{if◌then◌else◌, not, inr, inl, false, str_eq, refl, ◌&&◌, List, subst, ap}
use text.Mathlib.TextPositions.{eq_refl}
use aiagent.Prelude.{String, Bool, ℕ, ◌⊎◌, none, Option, ◌≡◌, true, ◌∷◌, arith, any, ◌+◌}

-- The catalog's answer, and the check of a value against a schema.
pub record Catalog : Type 0 where
  pub resolve_tool : RunContext → String → ResolvedTool ⊎ GatewayError
  pub is_valid : Json → Json → Bool

-- How the part of a call inside its `try` ends.
pub data Ending : Type 0 where
  completes denies : ToolResult → Ending
  breaks : GatewayError → Ending

module _ (t : GatewayTexts) (c : Catalog) where
  -- `_is_permission_denial`.
  abbrev pub is_permission_denial : ToolResult → Bool
  is_permission_denial result =
      let text = t.lower (
        t.dumps_spaced
          (elim result.structured_content [ none ↦ result.content | some value ↦ value ])) in
      any (λ marker. t.contains text marker) denial_markers

  abbrev pub output_is_valid : ResolvedTool → RawResult → Bool
  output_is_valid tool raw = elim tool.output_schema [
    | none ↦ true
    | some schema ↦ c.is_valid schema (payload_of t raw)
  ]

  -- What becomes of an answer of the server.
  unfoldable pub end_of : ℕ → RunContext → ResolvedTool → Fields → Answer → Ending
  end_of now context tool arguments (errs error) = breaks error
  end_of now context tool arguments (answers raw) =
      let result = tool_result t now context tool arguments raw in
      if not (output_is_valid tool raw)
      then breaks protocol_validation
      else if str_eq tool.system_code "permission-system"
          && (result.is_error && is_permission_denial result)
      then denies result
      else completes result

  abbrev pub window : ℕ
  window = 60000000

  abbrev pub server_key : RunContext → ResolvedTool → String
  server_key context tool = t.key context.organization_id tool.server_id

  -- The body of the `try`, and the gateway after it.
  unfoldable pub try_call :
      ℕ → RunContext → ResolvedTool → Fields → Answer → Gateway → Ending × Gateway
  try_call now context tool arguments answer g =
      let key = server_key context tool in
      let limited =
        check (t.user_key key context.user_id) tool.rate_limit_per_minute window now g.events in
      let g1 : Gateway = record g { events = limited.1 } in
      let opened = before key now g.breaker in
      let g2 : Gateway = record g1 { breaker = opened.1 } in
      if not (c.is_valid tool.input_schema (obj arguments))
      then (breaks protocol_validation, g)
      else if not limited.0
      then (breaks rate_limit_exceeded, g1)
      else if not opened.0
      then (breaks circuit_open, g2)
      else (end_of now context tool arguments answer, g2)

  abbrev pub noted : String → Option String → Gateway → Gateway
  noted status error g = record g { audit = (status, error) ∷ g.audit }

  abbrev pub succeeded : String → Gateway → Gateway
  succeeded key g = record g { breaker = success key g.breaker }

  abbrev pub failed : ℕ → RunContext → ResolvedTool → Gateway → Gateway
  failed now context tool g = record g {
    breaker =
        failure (server_key context tool) tool.circuit_breaker_threshold
          tool.circuit_breaker_recovery now g.breaker;
  }

  -- The `except` clauses, and what follows the body when nothing was raised.
  unfoldable pub conclude : ℕ → RunContext → ResolvedTool → Ending → Gateway → Outcome × Gateway
  conclude now context tool (completes result) g =
      (gives result, noted "succeeded" none (succeeded (server_key context tool) g))
  conclude now context tool (denies result) g = (
    fails authorization,
    noted "rejected" (some "permission") (succeeded (server_key context tool) g),
  )
  conclude now context tool (breaks gateway_timeout) g =
      (fails gateway_timeout, noted "timeout" (some "timeout") (failed now context tool g))
  conclude now context tool (breaks protocol_validation) g =
      (fails protocol_validation, noted "rejected" (some "policy") g)
  conclude now context tool (breaks rate_limit_exceeded) g =
      (fails rate_limit_exceeded, noted "rejected" (some "policy") g)
  conclude now context tool (breaks circuit_open) g =
      (fails circuit_open, noted "rejected" (some "policy") g)
  conclude now context tool (breaks authorization) g = (fails authorization, g)
  conclude now context tool (breaks mcp_connection) g =
      (fails mcp_connection, noted "failed" (some "connection") (failed now context tool g))
  conclude now context tool (breaks other_error) g =
      (fails mcp_connection, noted "failed" (some "connection") (failed now context tool g))

  unfoldable pub call : ℕ → RunContext → String → Fields → Answer → Gateway → Outcome × Gateway
  call now context name arguments answer g =
      if has_expired now context
      then (fails gateway_timeout, g)
      else elim (c.resolve_tool context name) [
        | inr error ↦ (fails error, g)
        | inl tool ↦
            let tried = try_call now context tool arguments answer g in
            conclude now context tool tried.0 tried.1
      ]

  -- From the failures in a row of the server and the audit records before: how a call ended, and the
  -- gateway after it.
  abbrev pub Accounted : String → ℕ → List (String × Option String) → Outcome → Gateway → Type 0
  Accounted key count audit (gives result) g' =
      (g'.breaker.failures key ≡ 0) × (g'.audit ≡ ("succeeded", none) ∷ audit)
  Accounted key count audit (fails gateway_timeout) g' =
      (g'.breaker.failures key ≡ count + 1) × (g'.audit ≡ ("timeout", some "timeout") ∷ audit)
  Accounted key count audit (fails mcp_connection) g' =
      (g'.breaker.failures key ≡ count + 1) × (g'.audit ≡ ("failed", some "connection") ∷ audit)
  Accounted key count audit (fails authorization) g' =
      ((g'.breaker.failures key ≡ 0) × (g'.audit ≡ ("rejected", some "permission") ∷ audit))
      ⊎ ((g'.breaker.failures key ≡ count) × (g'.audit ≡ audit))
  Accounted key count audit (fails _) g' =
      (g'.breaker.failures key ≡ count) × (g'.audit ≡ ("rejected", some "policy") ∷ audit)

  before-failures :
      (key : String) (now : ℕ) (b : Breaker) → (before key now b).1.failures ≡ b.failures
  unfolding before
  before-failures key now b = ground arith

  try_call-kept :
      (now : ℕ) (context : RunContext) (tool : ResolvedTool) (arguments : Fields) (answer : Answer)
      (g : Gateway)
      → let g' = (try_call now context tool arguments answer g).1 in
        (g'.breaker.failures ≡ g.breaker.failures) × (g'.audit ≡ g.audit)
  unfolding try_call
  try_call-kept now context tool arguments answer g =
      let kept = before-failures (server_key context tool) now g.breaker in ground (arith, kept)

  conclude-Accounted :
      (now : ℕ) (context : RunContext) (tool : ResolvedTool) (end : Ending) (g : Gateway)
      → let r = conclude now context tool end g in
        Accounted
          (server_key context tool)
          (g.breaker.failures (server_key context tool))
          g.audit
          r.0
          r.1
  unfolding conclude success failure
  conclude-Accounted now context tool (completes result) g =
      (ground (arith, eq_refl (server_key context tool)), refl)
  conclude-Accounted now context tool (denies result) g =
      inl (ground (arith, eq_refl (server_key context tool)), refl)
  conclude-Accounted now context tool (breaks gateway_timeout) g =
      (ground (arith, eq_refl (server_key context tool)), refl)
  conclude-Accounted now context tool (breaks protocol_validation) g = (refl, refl)
  conclude-Accounted now context tool (breaks rate_limit_exceeded) g = (refl, refl)
  conclude-Accounted now context tool (breaks circuit_open) g = (refl, refl)
  conclude-Accounted now context tool (breaks authorization) g = inr (refl, refl)
  conclude-Accounted now context tool (breaks mcp_connection) g =
      (ground (arith, eq_refl (server_key context tool)), refl)
  conclude-Accounted now context tool (breaks other_error) g =
      (ground (arith, eq_refl (server_key context tool)), refl)

  -- Where the deadline is not over and the catalog resolves the tool, every call ends in one of these
  -- ways. A result: the server's failures in a row are cleared and a success is recorded. A timeout, or
  -- another failure of the connection: one failure more, recorded as such. A call that the policy rejects
  -- (bad arguments or results, the rate limit, an open breaker): the failures stay, and a rejection is
  -- recorded. A refused authorization: the permission system's denial clears the failures and is recorded
  -- as a rejection, any other leaves the failures and the records as they are.
  pub call-Accounted :
      (now : ℕ) (context : RunContext) (name : String) (arguments : Fields) (answer : Answer)
      (g : Gateway) {tool : ResolvedTool}
      → has_expired now context ≡ false
      → c.resolve_tool context name ≡ inl tool
      → let r = call now context name arguments answer g in
        Accounted
          (server_key context tool)
          (g.breaker.failures (server_key context tool))
          g.audit
          r.0
          r.1
  unfolding call
  call-Accounted now context name arguments answer g {tool} live resolved =
      let tried = try_call now context tool arguments answer g in
      let kept = try_call-kept now context tool arguments answer g in
      let key = server_key context tool in
      let r = conclude now context tool tried.0 tried.1 in
      rw (live, resolved, call)
        (subst (λ n. Accounted key n g.audit r.0 r.1) (ap (λ f. f key) kept.0)
          (subst (λ l. Accounted key (tried.1.breaker.failures key) l r.0 r.1) kept.1
            (conclude-Accounted now context tool tried.0 tried.1)))
