-- ===== src/Tests/Cases.antt =====
-- A model that asks for one tool and then answers, in runs of agents/single_agent.py and
-- evaluations/executor.py.
use aiagent.Tests.Evaluations.{config, service, start, waiting_run}
use aiagent.Evaluations.Replay.{create_run-create_run}
use aiagent.Evaluations.Policies.{RunRequest, create_run, queue_run, insert_run}
use aiagent.Evaluations.Datasets.{verified_version}
use aiagent.Tests.Evaluations.{tables, result_of}
use aiagent.Identity.Access.{access}
use aiagent.Agents.Model.{
  Provider, ToolGateway, Citation, ModelStreamEvent, ModelMessage, AgentResult, Trace,
}
use aiagent.Agents.Single.{RunOptions, run, rounds, call_tools}
use aiagent.Agents.Model.{stream_model, consume}
use aiagent.Agents.Budget.{
  AgentUsageBudget, ModelUsageResult, round_output_limit, check_actual_usage, add_usage,
  check_actual_usage-round_output_limit, Floats, usage_cost,
}
use aiagent.Agents.Rounds.{call_count}
use aiagent.Agents.Rounds.Calls.{Within}
use aiagent.Agents.Rounds.Bounds.{run-Within}
use aiagent.Agents.Rounds.Results.{InBudget, run-Reported}
use aiagent.Agents.Config.{AgentVersionConfig}
use aiagent.Evaluations.Rows.{Db, EvaluationDatasetVersion, EvaluationRun}
use aiagent.Evaluations.Suite.{
  validate_suite, model_validate, new_suite, validate_cases, validate_case, validate_key,
  normalize_question, validate_tools, digest, EvaluationCaseSpec, SuiteToolkit, EvaluationService,
  Severity,
}
use aiagent.Evaluations.Cases.{EvaluationExecutor, execute_case, answer_case, verdict}
use aiagent.Evaluations.Executor.{Surroundings, execute}
use aiagent.Evaluations.Execution.{open_run, started_run, claim_run}
use aiagent.Evaluations.Ending.{execute-closed}
use aiagent.Evaluations.Verdicts.{Shown, execute_case-Shown}
use aiagent.Agents.Rows.{Environment}
use aiagent.Errors.{after, found, returns, require, raises, run_limit_error}
use aiagent.Json.{Json}
use aiagent.Prelude.{
  [], Option, none, List, false, ◌∷◌, some, ◌≡◌, ◌≤◌, true, String, refl, arith, Bool, ◌⊎◌, ◌+◌,
  ◌-◌, ◌*◌, ◌/◌, ltb,
}

abbrev usage : ModelUsageResult
usage = record { input_tokens = 10; output_tokens = 5 }

abbrev event : Option String → ModelStreamEvent
event delta = record { delta = delta; usage = some usage; tool_calls = [] }

abbrev asking : ModelStreamEvent
asking = record {
  delta = none;
  usage = some usage;
  tool_calls = record { id = "c1"; name = "find"; arguments = Json.null } ∷ [];
}

abbrev answers : Trace → List ModelStreamEvent
answers [] = asking ∷ []
answers _ = event (some "done") ∷ []

abbrev provider : Provider
provider = record {
  stream = λ trace _ _. (answers trace, none);
  conservative_input_tokens = λ _. 20;
  supports_tools = true;
  on_delta = λ _ _. returns true;
  join = λ _. "text";
  dumps = λ _. "json";
  dumps_sorted = λ _. "json";
  sha256 = λ text. text;
}

abbrev citation : Citation
citation = record { server_code = "erp"; partial = false; json = Json.null }

abbrev gateway : ToolGateway
gateway = record {
  list_tools =
      returns (record { name = "find"; server_code = "erp"; input_schema = Json.null } ∷ []);
  call = λ _ _ _. returns (record {
    is_error = false;
    structured_content = none;
    content = Json.null;
    truncated = false;
    citation = some citation;
    citations = [];
    duration_ms = none;
  });
}

-- Whole numbers in place of floats.
abbrev whole_floats : Floats
whole_floats = record {
  of_int = λ n. n;
  to_int = λ n. n;
  add = λ a b. a + b;
  sub = λ a b. a - b;
  mul = λ a b. a * b;
  div = λ a b. a / b;
  gt = λ a b. ltb b a;
}

abbrev budget : AgentUsageBudget
budget = record {
  floats = whole_floats;
  max_input_tokens = 100;
  max_output_tokens = 50;
  max_cost_usd = 1;
  input_price_per_million_tokens = 100;
  output_price_per_million_tokens = 200;
}

abbrev options : RunOptions
options = record {
  max_output_tokens = 50;
  trace_id = "t";
  gateway = some gateway;
  max_model_rounds = 3;
  max_tool_calls = 2;
  tool_allowlist = some ("find" ∷ []);
  usage_budget = some budget;
}

abbrev question : List ModelMessage
question = record { role = "user"; content = "?"; tool_call_id = none; tool_calls = [] } ∷ []

run-Within_example : Within 2 3 (some ("find" ∷ [])) (run provider options question []).1
run-Within_example = run-Within provider options question

abbrev result : AgentResult
result = record {
  answer = "text";
  usage = record { input_tokens = 20; output_tokens = 10 };
  citations = citation ∷ [];
  tool_invocations =
      record {
        tool_name = "find";
        server_code = "erp";
        status = "succeeded";
        arguments_digest = "json";
        trace_id = "t";
        duration_ms = none;
      }
      ∷ [];
}

answered : (run provider options question []).0 ≡ returns result
unfolding run rounds call_tools stream_model consume round_output_limit check_actual_usage require
answered = refl

run-Reported_example :
    InBudget (some budget) result.usage × (1 ≡ call_count (run provider options question []).1)
run-Reported_example = run-Reported provider options question refl refl answered

allowed_round :
    round_output_limit 20 (record { input_tokens = 0; output_tokens = 0 }) budget ≡ returns 50
unfolding round_output_limit require
allowed_round = refl

check_actual_usage-round_output_limit_example :
    let after = add_usage (record { input_tokens = 0; output_tokens = 0 }) usage in
    (1 ≤ 50)
    × ((check_actual_usage after budget ≡ returns after)
        ⊎ ((whole_floats.gt (usage_cost after budget) budget.max_cost_usd ≡ true)
            × (check_actual_usage after budget
                ≡ raises (run_limit_error "Agent exceeded the cumulative cost limit."))))
check_actual_usage-round_output_limit_example =
    check_actual_usage-round_output_limit 20 (record { input_tokens = 0; output_tokens = 0 }) usage
      budget allowed_round (omega arith) (omega arith)

abbrev case : EvaluationCaseSpec
case = record {
  key = "a";
  question = "?";
  expected_tools = "find" ∷ [];
  requires_citation = true;
  expects_denial = false;
  severity = Severity.critical;
}

abbrev suite_tools : SuiteToolkit
suite_tools = record {
  len = λ _. 5;
  lower = λ text. text;
  strip = λ text. text;
  fullmatch = λ _ _. true;
  model_dump = λ _. Json.null;
  parse = λ _. some (record { cases = case ∷ [] });
  dumps = λ _. "d";
  sha256 = λ text. text;
}

abbrev evaluations : EvaluationService
evaluations = record {
  tools = suite_tools;
  environment = Environment.test;
  max_cases_per_dataset = 5;
}

abbrev executor : EvaluationExecutor
executor = record {
  floats = whole_floats;
  of_micros = λ n. n;
  evaluations = evaluations;
  agent_control = service;
  provider = provider;
  gateway = some gateway;
  tool_allowlist = none;
  input_price_per_million_tokens = 100;
  output_price_per_million_tokens = 200;
}

abbrev tool_config : AgentVersionConfig
tool_config = record (config "help") { allowed_tools = "find" ∷ [] }

case_passed : (execute_case executor 3 "t" tool_config case).passed ≡ true
unfolding execute_case answer_case verdict run rounds call_tools stream_model consume
    round_output_limit check_actual_usage require
case_passed = refl

execute_case-Shown_example :
    Shown executor case 3 tool_config
      (answer_case executor "t" tool_config case)
      (execute_case executor 3 "t" tool_config case)
execute_case-Shown_example = execute_case-Shown executor case 3 "t" tool_config case_passed

abbrev quiet : Surroundings
quiet = record {
  now = λ k. k;
  between = λ _ db. db;
  free = λ _. true;
  shut_down = λ _. false;
  handler_cut = false;
  duration = λ _. 3;
  trace_text = λ _. "t";
}

abbrev dataset_version : EvaluationDatasetVersion
dataset_version = record {
  id = 3;
  dataset_id = 2;
  organization_id = 1;
  version_number = 1;
  cases_snapshot = Json.null;
  cases_digest = "d";
  created_by = 2;
}

abbrev ready : Db
ready = record start { dataset_versions = dataset_version ∷ [] }

run_claimed : (execute executor quiet 7 ready).0 ≡ some (started_run 0 waiting_run)
unfolding execute claim_run
run_claimed = refl

execute-closed_example : open_run 7 (execute executor quiet 7 ready).1 ≡ none
execute-closed_example = execute-closed executor quiet refl 7 ready run_claimed

abbrev run_request : RunRequest
run_request = record {
  actor_id = 2;
  organization_id = 1;
  agent_id = 10;
  agent_version_id = 5;
  idempotency_key = some "k";
  trace_id = 71;
}

unfoldable created : EvaluationRun × Bool × Db
unfolding create_run queue_run insert_run access after found require verified_version validate_suite
    model_validate new_suite validate_cases validate_case validate_key normalize_question
    validate_tools digest
created =
    result_of (waiting_run, false, start)
      (create_run evaluations tables 8 5 run_request ready ready)

creates_run : create_run evaluations tables 8 5 run_request ready ready ≡ returns created
unfolding created create_run queue_run insert_run access after found require verified_version
    validate_suite model_validate new_suite validate_cases validate_case validate_key
    normalize_question validate_tools digest
creates_run = refl

create_run-create_run_example :
    create_run evaluations tables 9 6 run_request created.2 created.2
    ≡ returns (created.0, false, created.2)
create_run-create_run_example =
    create_run-create_run run_request "k" refl evaluations tables 8 9 5 6 ready creates_run
