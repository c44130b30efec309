-- ===== src/Runs/Answers.antt =====
-- What the end of a Run writes to the tables of messages, tool invocations, citations and model usage
-- (conversations/service.py). A cost in dollars is a number here on which nothing is computed.
use aiagent.Prelude.{
  ℕ, Bool, true, false, ◌&&◌, not, Option, none, some, List, [], ◌∷◌, ◌++◌, String, str_eq, any,
  map, length, if◌then◌else◌,
}
use aiagent.Json.{Fields, num, end, field}
use aiagent.Runs.Rows.{Run, RunStatus}

pub record CitationValue : Type 0 where
  pub source_system : String
  pub server_code : String
  pub tool_name : String
  pub resource_id : Option String
  pub queried_at : ℕ
  pub trace_id : String
  pub partial : Bool

pub record InvocationValue : Type 0 where
  pub server_code : String
  pub tool_name : String
  pub status : String
  pub arguments_digest : String
  pub duration_ms : Option ℕ
  pub error : Option String

-- An assistant's message.
pub record Message : Type 0 where
  pub id : ℕ
  pub organization_id : ℕ
  pub conversation_id : ℕ
  pub content : String

-- The columns of a row of `citations` or `tool_invocations` that come from the Run.
pub record Owner : Type 0 where
  pub run_id : ℕ
  pub organization_id : ℕ
  pub user_id : ℕ
  pub trace_id : ℕ

pub record ModelUsage : Type 0 where
  pub run_id : ℕ
  pub provider : String
  pub model : String
  pub input_tokens : ℕ
  pub output_tokens : ℕ
  pub cost_usd : ℕ

-- The tables that are only added to here.
pub record Answers : Type 0 where
  pub messages : List Message
  pub tool_invocations : List (Owner × InvocationValue)
  pub citations : List (Owner × CitationValue)
  pub usages : List ModelUsage

abbrev pub same_flag : Bool → Bool → Bool
same_flag true b = b
same_flag false b = not b

abbrev pub same_citation : CitationValue → CitationValue → Bool
same_citation a b =
    str_eq a.source_system b.source_system
    && (str_eq a.server_code b.server_code
        && (str_eq a.tool_name b.tool_name
            && (str_eq a.trace_id b.trace_id && same_flag a.partial b.partial)))

-- The loop of `_deduplicate_citations`.
abbrev pub deduplicated : List CitationValue → List CitationValue → List CitationValue
deduplicated seen [] = []
deduplicated seen (item ∷ items) =
    let without = deduplicated seen items in
    let with_item = item ∷ deduplicated (item ∷ seen) items in
    if any (same_citation item) seen then without else with_item

abbrev pub deduplicate_citations : List CitationValue → List CitationValue
deduplicate_citations items = deduplicated [] items

-- The keyword arguments of `complete_run`.
pub record Completion : Type 0 where
  pub answer : String
  pub provider : String
  pub model : String
  pub input_tokens : ℕ
  pub output_tokens : ℕ
  pub cost_usd : ℕ
  pub citations : List CitationValue
  pub tool_invocations : List InvocationValue

abbrev pub owner : Run → Owner
owner run = record {
  run_id = run.id;
  organization_id = run.organization_id;
  user_id = run.user_id;
  trace_id = run.trace_id;
}

abbrev pub completed_answers : ℕ → Completion → Run → Answers → Answers
completed_answers fresh c run a = record {
  messages =
      record {
        id = fresh;
        organization_id = run.organization_id;
        conversation_id = run.conversation_id;
        content = c.answer;
      }
      ∷ a.messages;
  tool_invocations = map (λ i. (owner run, i)) c.tool_invocations ++ a.tool_invocations;
  citations = map (λ i. (owner run, i)) (deduplicate_citations c.citations) ++ a.citations;
  usages =
      record {
        run_id = run.id;
        provider = c.provider;
        model = c.model;
        input_tokens = c.input_tokens;
        output_tokens = c.output_tokens;
        cost_usd = c.cost_usd;
      }
      ∷ a.usages;
}

abbrev pub completion_details : Completion → Fields
completion_details c = field "input_tokens" (num c.input_tokens) (
    field "output_tokens" (num c.output_tokens) (
      field "cost_usd" (num c.cost_usd) (
        field "tool_calls" (num (length c.tool_invocations))
          (field "citations" (num (length (deduplicate_citations c.citations))) end))))

-- The arguments of `finish_run_with_error`. The usage is recorded when all five of its parts are
-- given.
pub record Failure : Type 0 where
  pub status : RunStatus
  pub error_code : String
  pub public_message : String
  pub provider : Option String
  pub model : Option String
  pub input_tokens : Option ℕ
  pub output_tokens : Option ℕ
  pub cost_usd : Option ℕ

abbrev pub failure_usage : Failure → Run → Option ModelUsage
failure_usage f run = elim f.provider [
  | none ↦ none
  | some provider ↦ elim f.model [
    | none ↦ none
    | some model ↦ elim f.input_tokens [
      | none ↦ none
      | some input ↦ elim f.output_tokens [
        | none ↦ none
        | some output ↦ elim f.cost_usd [
          | none ↦ none
          | some cost ↦ some (record {
            run_id = run.id;
            provider = provider;
            model = model;
            input_tokens = input;
            output_tokens = output;
            cost_usd = cost;
          })
        ]
      ]
    ]
  ]
]

abbrev pub usage_details : Option ModelUsage → Fields
usage_details none = end
usage_details (some u) =
    field "input_tokens" (num u.input_tokens)
      (field "output_tokens" (num u.output_tokens) (field "cost_usd" (num u.cost_usd) end))

abbrev pub add_model_usage : Option ModelUsage → Answers → Answers
add_model_usage none a = a
add_model_usage (some u) a = record a { usages = u ∷ a.usages }
