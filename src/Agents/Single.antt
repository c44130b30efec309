-- ===== src/Agents/Single.antt =====
-- `SingleAgent.run` (agents/single_agent.py): rounds of a model that may ask for tools.
use aiagent.Agents.Model.{
  Trace, Traced, and_then, Provider, ToolGateway, ToolDefinition, ToolResult, Citation,
  ModelMessage, ModelToolCall, ToolInvocationRecord, AgentResult, stream_model, result_message,
  called,
}
use aiagent.Agents.Budget.{
  ModelUsageResult, AgentUsageBudget, add_usage, check_actual_usage, round_output_limit,
}
use aiagent.Errors.{Attempt, returns, raises, model_provider_error}
use aiagent.Prelude.{
  String, Option, Bool, ℕ, List, [], none, some, ◌++◌, if◌then◌else◌, ◌∷◌, true, keep, suc, str_eq,
  false, any, ◌+◌, leb, zero, length,
}

-- The keyword arguments.
pub record RunOptions : Type 0 where
  pub max_output_tokens : ℕ
  pub trace_id : String
  pub gateway : Option ToolGateway
  pub max_model_rounds : ℕ
  pub max_tool_calls : ℕ
  pub tool_allowlist : Option (List String)
  pub usage_budget : Option AgentUsageBudget

-- The citations of a result, and the one that its record names.
abbrev pub is_empty : {A : Type 0} → List A → Bool
is_empty [] = true
is_empty (_ ∷ _) = false

abbrev pub citations_of : ToolResult → List Citation
citations_of result = elim result.citation [
  | none ↦ result.citations
  | some citation ↦ if is_empty result.citations then citation ∷ [] else result.citations
]

abbrev pub first_of : {A : Type 0} → List A → Option A
first_of [] = none
first_of (x ∷ _) = some x

abbrev pub citation_of : ToolResult → Option Citation
citation_of result = elim result.citation [
  | none ↦ first_of result.citations
  | some citation ↦ some citation
]

-- `definitions_by_name.get`: of two definitions with one name the later one counts.
abbrev pub definition_named : List ToolDefinition → String → Option ToolDefinition
definition_named [] name = none
definition_named (d ∷ definitions) name = elim (definition_named definitions name) [
  | some later ↦ some later
  | none ↦ if str_eq d.name name then some d else none
]

-- `tool_allowlist`.
abbrev pub allowed : Option (List String) → List ToolDefinition → List ToolDefinition
allowed none definitions = definitions
allowed (some names) definitions = keep (λ d. any (λ name. str_eq name d.name) names) definitions

-- The variables of the loop over the rounds.
pub record Loop : Type 0 where
  pub messages : List ModelMessage
  pub citations : List Citation
  pub invocations : List ToolInvocationRecord
  pub usage : ModelUsageResult
  pub calls_used : ℕ

abbrev pub no_usage : ModelUsageResult
no_usage = record { input_tokens = 0; output_tokens = 0 }

abbrev pub first_loop : List ModelMessage → Loop
first_loop messages = record {
  messages = messages;
  citations = [];
  invocations = [];
  usage = no_usage;
  calls_used = 0;
}

module _ (p : Provider) (o : RunOptions) where
  abbrev pub invocation : ModelToolCall → ToolDefinition → ToolResult → ToolInvocationRecord
  invocation call definition result = record {
    tool_name = call.name;
    server_code = elim (citation_of result) [
      | none ↦ definition.server_code
      | some citation ↦ citation.server_code
    ];
    status = if result.is_error then "failed" else "succeeded";
    arguments_digest = p.sha256 (p.dumps_sorted call.arguments);
    trace_id = o.trace_id;
    duration_ms = result.duration_ms;
  }

  abbrev pub after_call : ModelToolCall → ToolDefinition → ToolResult → Loop → Loop
  after_call call definition result loop = record {
    messages = loop.messages ++ (result_message p call result ∷ []);
    citations = loop.citations ++ citations_of result;
    invocations = loop.invocations ++ (invocation call definition result ∷ []);
    usage = loop.usage;
    calls_used = loop.calls_used + 1;
  }

  -- The loop over the calls of one round.
  unfoldable pub call_tools :
      ToolGateway → List ToolDefinition → List ModelToolCall → Loop → Trace → Traced Loop
  call_tools gateway definitions [] loop trace = (returns loop, trace)
  call_tools gateway definitions (call ∷ calls) loop trace =
      elim (definition_named definitions call.name) [
        | none ↦ (
          raises (
              model_provider_error
                "Agent requested a Tool outside the configured allowlist or catalog."),
          trace,
        )
        | some definition ↦
            and_then (gateway.call trace call.name call.arguments, called call.name ∷ trace)
              λ result trace'.
                call_tools gateway definitions calls (after_call call definition result loop) trace'
      ]

  abbrev pub output_limit : Loop → Attempt ℕ
  output_limit loop = elim o.usage_budget [
    | none ↦ returns o.max_output_tokens
    | some budget ↦ round_output_limit (p.conservative_input_tokens loop.messages) loop.usage budget
  ]

  abbrev pub checked : ModelUsageResult → Attempt ModelUsageResult
  checked usage = elim o.usage_budget [
    | none ↦ returns usage
    | some budget ↦ check_actual_usage usage budget
  ]

  abbrev pub assistant_message : String → List ModelToolCall → ModelMessage
  assistant_message answer calls = record {
    role = "assistant";
    content = answer;
    tool_call_id = none;
    tool_calls = calls;
  }

  abbrev pub finished : String → Loop → AgentResult
  finished answer loop = record {
    answer = answer;
    usage = loop.usage;
    citations = loop.citations;
    tool_invocations = loop.invocations;
  }

  -- The calls that a reply asks for, if they are not too many.
  abbrev pub answer_calls :
      ToolGateway → List ToolDefinition → String → List ModelToolCall → Loop → Trace → Traced Loop
  answer_calls gateway definitions answer calls loop trace =
      if leb (loop.calls_used + length calls) o.max_tool_calls
      then call_tools gateway definitions calls
          (record loop { messages = loop.messages ++ (assistant_message answer calls ∷ []) }) trace
      else (
        raises (model_provider_error "Agent exceeded the configured MCP Tool call limit."),
        trace,
      )

  unfoldable pub rounds : ToolGateway → List ToolDefinition → ℕ → Loop → Trace → Traced AgentResult
  rounds gateway definitions zero loop trace =
      (raises (model_provider_error "Agent exceeded the configured model round limit."), trace)
  rounds gateway definitions (suc n) loop trace =
      and_then (output_limit loop, trace)
        λ limit trace1. and_then (stream_model p loop.messages limit trace1) λ reply trace2.
          and_then (checked (add_usage loop.usage reply.1), trace2)
            λ usage trace3.
              let loop' : Loop = record loop { usage = usage } in
              if is_empty reply.2
              then (returns (finished reply.0 loop'), trace3)
              else and_then (answer_calls gateway definitions reply.0 reply.2 loop' trace3)
                  λ loop'' trace4. rounds gateway definitions n loop'' trace4

  -- The graph with the one node `_model_node`: calls of tools are not looked at.
  abbrev pub plain : List ModelMessage → Trace → Traced AgentResult
  plain messages trace =
      and_then (stream_model p messages o.max_output_tokens trace) λ reply trace'.
        (returns (finished reply.0 (record (first_loop messages) { usage = reply.1 })), trace')

  unfoldable pub run : List ModelMessage → Trace → Traced AgentResult
  run messages trace = elim (if p.supports_tools then o.gateway else none) [
    | none ↦ plain messages trace
    | some gateway ↦
        and_then (gateway.list_tools, trace)
          λ definitions trace'.
            rounds gateway (allowed o.tool_allowlist definitions) o.max_model_rounds
              (first_loop messages) trace'
  ]
