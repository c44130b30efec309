-- ===== src/Agents/Rounds/Results.antt =====
-- What the result of a run says (agents/single_agent.py).
use aiagent.Agents.Rounds.{call_count, stream_model-trace, some, inl, inr}
use aiagent.Agents.Rounds.Calls.{and_then-returns}
use aiagent.Agents.Rounds.Bounds.{definitions, answer_calls-Counted}
use aiagent.Agents.Model.{
  ModelMessage, Trace, Traced, ToolDefinition, ToolGateway, Provider, AgentResult, and_then,
  stream_model, ModelToolCall,
}
use aiagent.Agents.Single.{
  run, first_loop, RunOptions, Loop, rounds, answer_calls, output_limit, checked, is_empty,
  finished,
}
use aiagent.Agents.Budget.{
  ModelUsageResult, AgentUsageBudget, add_usage, check_actual_usage, usage_cost,
}
use aiagent.Errors.{returns, returns_injective, require-returns}
use aiagent.Prelude.{
  Option, ◌≡◌, length, List, some, Option-cases, ℕ, ◌≤◌, subst, arith, none, suc, String,
  if◌then◌else◌, Bool-cases, sym, ◌∙◌, zero, true, [], refl, false,
}

-- The usage keeps to the budget of the run.
abbrev pub InBudget : Option AgentUsageBudget → ModelUsageResult → Type 0
InBudget none usage = Unit
InBudget (some budget) usage =
    (usage.input_tokens ≤ budget.max_input_tokens)
    × (usage.output_tokens ≤ budget.max_output_tokens)
    × (budget.floats.gt (usage_cost usage budget) budget.max_cost_usd ≡ false)

check_actual_usage-InBudget :
    (usage : ModelUsageResult) (budget : AgentUsageBudget) {u : ModelUsageResult}
    → check_actual_usage usage budget ≡ returns u
    → InBudget (some budget) u
unfolding check_actual_usage
check_actual_usage-InBudget usage budget {u} e =
    let (input, e1) = require-returns _ _ _ e in
    let (output, e2) = require-returns _ _ _ e1 in
    let (cost, e3) = require-returns _ _ _ e2 in
    subst (InBudget (some budget)) (returns_injective e3)
      (ground (arith, input), ground (arith, output), ground (arith, cost))

module _ (p : Provider) (o : RunOptions) where
  checked-InBudget :
      (usage : ModelUsageResult) {u : ModelUsageResult}
      → checked p o usage ≡ returns u
      → InBudget o.usage_budget u
  checked-InBudget usage {u} e = elim (Option-cases o.usage_budget) [
    | inl none_given ↦ rw none_given tt
    | inr (budget, h) ↦
        let e1 : check_actual_usage usage budget ≡ returns u = rw h at e in
        rw h (check_actual_usage-InBudget usage budget e1)
  ]

  abbrev Reported : AgentResult → Trace → Type 0
  Reported result trace =
      InBudget o.usage_budget result.usage × (length result.tool_invocations ≡ call_count trace)

  module _ (gateway : ToolGateway) (listed : List ToolDefinition) where
    rounds-Reported :
        (n : ℕ) (loop : Loop) (trace : Trace) {result : AgentResult}
        → length loop.invocations ≡ call_count trace
        → (rounds p o gateway (definitions p o gateway listed) n loop trace).0 ≡ returns result
        → Reported result (rounds p o gateway (definitions p o gateway listed) n loop trace).1
    unfolding rounds
    rounds-Reported zero loop trace {result} h e = ground arith
    rounds-Reported (suc n) loop trace {result} h e =
        let (limit, _, e1, t1) = and_then-returns (output_limit p o loop, trace) _ e in
        let streamed_one = stream_model p loop.messages limit trace in
        let q = stream_model-trace o.tool_allowlist p loop.messages limit trace in
        let (reply, _, e2, t2) = and_then-returns streamed_one _ e1 in
        let (usage, u, e3, t3) =
          and_then-returns (checked p o (add_usage loop.usage reply.1), streamed_one.1) _ e2 in
        subst (Reported result) (sym (t1 ∙ (t2 ∙ t3))) (
          step n reply usage (record loop { usage = usage }) streamed_one.1
            (checked-InBudget (add_usage loop.usage reply.1) u) (h ∙ sym q.0)
            (λ loop' trace' k e4. rounds-Reported n loop' trace' k e4) e3)
      where
        last :
            (n : ℕ) (reply : String × ModelUsageResult × List ModelToolCall) (loop : Loop)
            (trace : Trace)
            → Traced AgentResult
        last n reply loop trace =
            if is_empty reply.2
            then (returns (finished p o reply.0 loop), trace)
            else and_then
                (answer_calls p o gateway (definitions p o gateway listed) reply.0 reply.2 loop
                  trace)
                λ loop' trace'. rounds p o gateway (definitions p o gateway listed) n loop' trace'

        step :
            (n : ℕ) (reply : String × ModelUsageResult × List ModelToolCall)
            (usage : ModelUsageResult) (loop : Loop) (trace : Trace)
            → InBudget o.usage_budget loop.usage
            → length loop.invocations ≡ call_count trace
            → ((loop' : Loop) (trace' : Trace)
                → length loop'.invocations ≡ call_count trace'
                → (rounds p o gateway (definitions p o gateway listed) n loop' trace').0
                  ≡ returns result
                → Reported result
                    (rounds p o gateway (definitions p o gateway listed) n loop' trace').1)
            → (last n reply loop trace).0 ≡ returns result
            → Reported result (last n reply loop trace).1
        step n reply usage loop trace b h again e = elim (Bool-cases (is_empty reply.2)) [
          | inl done ↦
              let same : finished p o reply.0 loop ≡ result = returns_injective (rw done at e) in
              rw done (subst (λ (r : AgentResult). Reported r trace) same (b, h))
          | inr more ↦
              let answered =
                answer_calls p o gateway (definitions p o gateway listed) reply.0 reply.2 loop
                  trace in
              let (loop', a, e4, t4) = and_then-returns answered _ (rw more at e) in
              let (_, c) = answer_calls-Counted p o gateway listed reply.0 reply.2 loop trace a in
              rw more (
                subst (Reported result) (sym t4)
                  (again loop' answered.1 (omega (arith, c.0, c.2, h)) e4))
        ]

-- A run with tools that returns: the usage that it reports keeps to the budget, in tokens both ways and
-- in cost, if there is a budget; and it reports one invocation for every tool that it called.
pub run-Reported :
    (p : Provider) (o : RunOptions) (messages : List ModelMessage) {gateway : ToolGateway}
    {result : AgentResult}
    → p.supports_tools ≡ true
    → o.gateway ≡ some gateway
    → (run p o messages []).0 ≡ returns result
    → InBudget o.usage_budget result.usage
      × (length result.tool_invocations ≡ call_count (run p o messages []).1)
unfolding run
run-Reported p o messages {gateway} {result} s g e =
    let given : (if p.supports_tools then o.gateway else none) ≡ some gateway = rw s g in
    let next : List ToolDefinition → Trace → Traced AgentResult = λ listed trace.
      rounds p o gateway (definitions p o gateway listed) o.max_model_rounds (first_loop messages)
        trace in
    let e1 : (and_then (gateway.list_tools, []) next).0 ≡ returns result = rw (given, run) at e in
    let (listed, _, e2, left) = and_then-returns (gateway.list_tools, []) next e1 in
    rw (given, run)
      (subst (Reported p o result) (sym left)
        (rounds-Reported p o gateway listed o.max_model_rounds (first_loop messages) [] refl e2))
