-- ===== src/Agents/Rounds/Bounds.antt =====
-- The bounds on a run of agents/single_agent.py.
use aiagent.Agents.Rounds.{
  call_count, round_count, Listed, and_then-trace, stream_model-trace, inl, inr,
}
use aiagent.Agents.Rounds.Calls.{Within, call_tools-Within, Counted, call_tools-Counted}
use aiagent.Agents.Model.{
  Trace, ToolDefinition, ToolGateway, ModelToolCall, Provider, stream_model, ModelMessage,
}
use aiagent.Agents.Single.{
  run, RunOptions, Loop, allowed, rounds, answer_calls, call_tools, output_limit, checked, is_empty,
  assistant_message, first_loop,
}
use aiagent.Agents.Budget.{add_usage}
use aiagent.Errors.{returns}
use aiagent.Prelude.{
  [], List, String, ℕ, ◌++◌, ◌≡◌, ◌∷◌, Bool-cases, ◌+◌, ◌≤◌, leb, length, All, arith, suc, zero,
  max, Option-cases, if◌then◌else◌, none, refl,
}

module _ (p : Provider) (o : RunOptions) (gateway : ToolGateway)
    (listed : List ToolDefinition) where
  abbrev pub definitions : List ToolDefinition
  definitions = allowed o.tool_allowlist listed

  -- The message of the assistant goes before those of the tools.
  abbrev asked : String → List ModelToolCall → Loop → Loop
  asked answer calls loop = record loop {
    messages = loop.messages ++ (assistant_message p o answer calls ∷ []);
  }

  answer_calls-Within :
      (most : ℕ) (answer : String) (calls : List ModelToolCall) (loop : Loop) (trace : Trace)
      → loop.calls_used ≡ call_count trace
      → Within o.max_tool_calls most o.tool_allowlist trace
      → Within o.max_tool_calls most o.tool_allowlist
          (answer_calls p o gateway definitions answer calls loop trace).1
  answer_calls-Within most answer calls loop trace used w =
      elim (Bool-cases (leb (loop.calls_used + length calls) o.max_tool_calls)) [
        | inl fits ↦ rw fits (
            call_tools-Within p o gateway listed most calls (asked answer calls loop) trace
              (ground (arith, fits, used)) w.1 w.2)
        | inr over ↦ rw over w
      ]

  pub answer_calls-Counted :
      (answer : String) (calls : List ModelToolCall) (loop : Loop) (trace : Trace) {loop' : Loop}
      → (answer_calls p o gateway definitions answer calls loop trace).0 ≡ returns loop'
      → (loop.calls_used + length calls ≤ o.max_tool_calls)
        × Counted p o gateway listed calls loop trace loop'
            (answer_calls p o gateway definitions answer calls loop trace).1
  answer_calls-Counted answer calls loop trace {loop'} e =
      elim (Bool-cases (leb (loop.calls_used + length calls) o.max_tool_calls)) [
        | inl fits ↦
            let e1 : (call_tools p o gateway definitions calls (asked answer calls loop) trace).0
                ≡ returns loop' =
              rw fits at e in
            (
              ground (arith, fits),
              rw fits
                  (call_tools-Counted p o gateway listed calls (asked answer calls loop) trace e1),
            )
        | inr over ↦ ground (arith, (rw over at e))
      ]

  rounds-Within :
      (n : ℕ) (loop : Loop) (trace : Trace)
      → loop.calls_used ≡ call_count trace
      → call_count trace ≤ o.max_tool_calls
      → All (Listed o.tool_allowlist) trace
      → Within o.max_tool_calls
          (round_count trace + n)
          o.tool_allowlist
          (rounds p o gateway definitions n loop trace).1
  unfolding rounds
  rounds-Within zero loop trace used few good = (few, omega arith, good)
  rounds-Within (suc n) loop trace used few good =
      let P : Trace → Type 0 =
        Within o.max_tool_calls (round_count trace + suc n) o.tool_allowlist in
      and_then-trace P (output_limit p o loop, trace) _ (few, omega arith, good)
        λ limit _.
          let streamed_one = stream_model p loop.messages limit trace in
          let q = stream_model-trace o.tool_allowlist p loop.messages limit trace in
          let here : P streamed_one.1 =
            (omega (arith, q.0, few), omega (arith, q.1), q.2 (tt, good)) in
          and_then-trace P streamed_one _ here λ reply _.
            and_then-trace P (checked p o (add_usage loop.usage reply.1), streamed_one.1) _ here
              λ usage _.
                let loop' : Loop = record loop { usage = usage } in
                elim (Bool-cases (is_empty reply.2)) [
                  | inl done ↦ rw done here
                  | inr more ↦
                      let used' : loop'.calls_used ≡ call_count streamed_one.1 =
                        omega (arith, used, q.0) in
                      let answered =
                        answer_calls p o gateway definitions reply.0 reply.2 loop' streamed_one.1 in
                      rw more (
                        and_then-trace P answered _
                          (answer_calls-Within _ reply.0 reply.2 loop' streamed_one.1 used' here)
                          (λ loop'' e.
                            let c = answer_calls-Counted reply.0 reply.2 loop' streamed_one.1 e in
                            let w =
                              answer_calls-Within _ reply.0 reply.2 loop' streamed_one.1 used'
                                here in
                            let rest =
                              rounds-Within n loop'' answered.1 (omega (arith, c.1.0, c.1.1, used'))
                                w.0 w.2 in
                            (rest.0, omega (arith, rest.1, c.1.3, q.1), rest.2)))
                ]

-- However a run ends, with a result or an error: it calls no more tools than `max_tool_calls`, asks the
-- model no more often than the greater of `max_model_rounds` and one, and calls only tools on the
-- allowlist, where there is one.
pub run-Within :
    (p : Provider) (o : RunOptions) (messages : List ModelMessage)
    → Within o.max_tool_calls (max 1 o.max_model_rounds) o.tool_allowlist (run p o messages []).1
unfolding run
run-Within p o messages = elim (Option-cases (if p.supports_tools then o.gateway else none)) [
  | inl absent ↦
      let q = stream_model-trace o.tool_allowlist p messages o.max_output_tokens [] in
      let w : P (stream_model p messages o.max_output_tokens []).1 =
        (omega (arith, q.0), omega (arith, q.1), q.2 (tt, tt)) in
      rw (absent, run)
        (and_then-trace P (stream_model p messages o.max_output_tokens []) _ w (λ _ _. w))
  | inr (gateway, given) ↦
      rw (given, run)
        (and_then-trace P (gateway.list_tools, []) _ (omega arith, omega arith, tt)
          (λ listed _.
            let w =
              rounds-Within p o gateway listed o.max_model_rounds (first_loop messages) [] refl
                (omega arith) tt in
            (w.0, omega (arith, w.1), w.2)))
]
  where
    P : Trace → Type 0
    P = Within o.max_tool_calls (max 1 o.max_model_rounds) o.tool_allowlist
