-- ===== src/Tests/Evaluations.antt =====
-- Evaluation runs of evaluations/service.py, in a small organization with one managed agent.
use aiagent.Evaluations.Lifecycle.Reachable.{
  Reach, here, next, completes, claims, recovers, Reach-RunOk, Reach-closed,
}
use aiagent.Evaluations.Lifecycle.Recovering.{recovered_run, recover_incomplete_runs-map}
use aiagent.Evaluations.Lifecycle.Rows.{AreDistinct}
use aiagent.Agents.Rows.{AgentDefinition, AgentVersion, AgentStatus, Environment}
use aiagent.Agents.Config.{
  Toolkit, AgentVersionConfig, AgentControlService, AgentControlMode, EvaluationGateMode,
  CitationPolicy, RunLimitSettings,
}
use aiagent.Evaluations.Rows.{Db, EvaluationRun, AgentEvaluationPolicy, EvaluationRunStatus}
use aiagent.Evaluations.Execution.{claim_run, find_run, is_queued}
use aiagent.Evaluations.Completion.{
  complete_run, EvaluationCaseOutcome, recover_incomplete_runs, is_earlier,
}
use aiagent.Identity.Rows.{Tables}
use aiagent.Errors.{Attempt, returns, raises, found}
use aiagent.Json.{Json}
use aiagent.Prelude.{
  none, String, Option, true, ℕ, List, ◌∷◌, [], some, Bool, false, ◌≡◌, All, refl, map, arith,
  order_by, keep,
}
use aiagent.Evaluations.Lifecycle.Reachable.{Reach, Reach-closed, next, Reach-RunOk, here}
use aiagent.Evaluations.Lifecycle.{RunOk}

-- The user 2 may release agents and run evaluations.
abbrev pub tables : Tables
tables = record {
  users =
      record {
        id = 2;
        issuer = "local";
        subject = "s";
        display_name = "n";
        email = none;
        is_active = true;
      }
      ∷ [];
  organizations = record { id = 1; name = "acme" } ∷ [];
  members = record { id = 20; organization_id = 1; user_id = 2 } ∷ [];
  permissions = [];
  roles = record { id = 5; organization_id = 1; code = "owner"; display_name = "owner" } ∷ [];
  role_permissions =
      record { role_id = 5; permission_code = "agent:release" }
      ∷ record { role_id = 5; permission_code = "eval:run:create" }
      ∷ record { role_id = 5; permission_code = "eval:dataset:write" }
      ∷ [];
  member_roles = record { member_id = 20; role_id = 5 } ∷ [];
  audit = [];
}

abbrev pub limits : RunLimitSettings
limits = record {
  max_question_characters = 100;
  max_model_rounds = 4;
  max_tool_calls = 4;
  max_run_seconds = 60;
  max_input_tokens = 1000;
  max_output_tokens = 1000;
  max_cost_usd = 5;
}

abbrev pub config : String → AgentVersionConfig
config prompt = record {
  system_prompt = prompt;
  allowed_tools = [];
  limits = limits;
  citation_policy = CitationPolicy.optional;
}

-- A configuration is dumped as its prompt.
abbrev pub parsed : Json → Option AgentVersionConfig
parsed (Json.str prompt) = some (config prompt)
parsed _ = none

abbrev pub printed : Json → String
printed (Json.str text) = text
printed _ = ""

abbrev pub tools : Toolkit
tools = record {
  lower = λ text. text;
  strip = λ text. text;
  fullmatch = λ _ _. true;
  model_dump = λ c. Json.str c.system_prompt;
  model_validate = parsed;
  dumps = printed;
  sha256 = λ text. text;
}

abbrev pub service : AgentControlService
service = record {
  tools = tools;
  platform_limits = limits;
  default_config = config "help";
  mode = AgentControlMode.managed_optional;
  environment = Environment.test;
  evaluation_gate_mode = EvaluationGateMode.required;
  evaluations = true;
}

abbrev pub agent : ℕ → Bool → AgentDefinition
agent id is_default = record {
  id = id;
  organization_id = 1;
  code = "helper";
  display_name = "Helper";
  description = "";
  status = AgentStatus.active;
  is_default = is_default;
  created_by = 2;
}

abbrev pub version : AgentVersion
version = record {
  id = 5;
  agent_id = 10;
  organization_id = 1;
  version_number = 1;
  config_snapshot = Json.str "help";
  config_digest = "help";
  created_by = 2;
}

abbrev pub policy : AgentEvaluationPolicy
policy = record {
  id = 4;
  organization_id = 1;
  agent_id = 10;
  environment = Environment.test;
  dataset_version_id = 3;
  revision = 1;
  min_pass_rate = 500000;
  max_critical_failures = 0;
  is_enabled = true;
  policy_digest = "p1";
  updated_by = 2;
}

abbrev pub waiting_run : EvaluationRun
waiting_run = record {
  id = 7;
  organization_id = 1;
  agent_id = 10;
  agent_version_id = 5;
  agent_config_digest = "help";
  dataset_version_id = 3;
  policy_id = 4;
  policy_digest = "p1";
  min_pass_rate = 500000;
  max_critical_failures = 0;
  requested_by = 2;
  trace_id = 70;
  idempotency_key = none;
  status = EvaluationRunStatus.queued;
  total_cases = 2;
  passed_cases = 0;
  critical_failures = 0;
  pass_rate = none;
  gate_passed = none;
  error_code = none;
  cancellation_requested_at = none;
  started_at = none;
  completed_at = none;
  created_at = 1;
}

abbrev pub start : Db
start = record {
  agents = agent 10 true ∷ agent 11 false ∷ [];
  drafts = [];
  versions = version ∷ [];
  deployments = [];
  releases = [];
  datasets = [];
  dataset_drafts = [];
  dataset_versions = [];
  policies = policy ∷ [];
  evaluation_runs = waiting_run ∷ [];
  case_results = [];
  audit = [];
}

abbrev pub result_of : {A : Type 0} → A → Attempt A → A
result_of default (returns a) = a
result_of default (raises _) = default

abbrev pub outcome : String → Bool → EvaluationCaseOutcome
outcome key passed = record {
  case_key = key;
  severity = "quality";
  passed = passed;
  reason = "";
  used_tools = [];
  citations_count = 0;
  answer_digest = none;
  input_tokens = 1;
  output_tokens = 1;
  duration_ms = 3;
}

-- The run is claimed, and one of its two cases passes.
abbrev pub outcomes : List EvaluationCaseOutcome
outcomes = outcome "a" true ∷ outcome "b" false ∷ []

unfoldable pub claimed : Db
unfolding claim_run
claimed = (claim_run (λ _. true) 2 7 start).1

unfoldable pub evaluated : Db
unfolding claimed claim_run complete_run found
evaluated = (result_of (waiting_run, start) (complete_run 3 7 outcomes claimed)).1

abbrev pub evaluated_run : EvaluationRun
evaluated_run = record waiting_run {
  status = EvaluationRunStatus.completed;
  started_at = some 2;
  completed_at = some 3;
  passed_cases = 1;
  pass_rate = some (1, 2);
  gate_passed = some true;
}

completed : complete_run 3 7 outcomes claimed ≡ returns (evaluated_run, evaluated)
unfolding claim_run claimed evaluated complete_run found
completed = refl

pub start-RunOk : All RunOk start.evaluation_runs
start-RunOk = (
  record {
    closed = refl;
    judged = refl;
    gate = λ e. ground arith;
    counts = omega arith;
    asked = λ e. ground arith;
    unasked = λ e. ground arith;
    error = refl;
  },
  tt,
)

claiming : Reach start claimed
unfolding claimed
claiming = next here (claims (λ _. true) 2 7)

pub evaluating : Reach start evaluated
evaluating = next claiming (completes 3 7 outcomes completed)

Reach-RunOk_example : AreDistinct evaluated.evaluation_runs × All RunOk evaluated.evaluation_runs
Reach-RunOk_example = Reach-RunOk (tt, tt) start-RunOk evaluating

-- The restart after the completion leaves the run alone.
unfoldable restarted : Db
unfolding recover_incomplete_runs
restarted = (recover_incomplete_runs (λ _. true) 9 evaluated).1

restarting : Reach evaluated restarted
unfolding restarted
restarting = next here (recovers (λ _. true) 9)

Reach-closed_example : find_run 7 restarted ≡ some evaluated_run
unfolding claimed claim_run evaluated complete_run found
Reach-closed_example = Reach-closed 7 (tt, tt) refl refl restarting

-- A run that was interrupted.
recover_incomplete_runs-map_example :
    ((recover_incomplete_runs (λ _. true) 3 claimed).1.evaluation_runs
      ≡ map (recovered_run (λ _. true) 3) claimed.evaluation_runs)
    × ((recover_incomplete_runs (λ _. true) 3 claimed).0
        ≡ order_by is_earlier (keep (λ run. is_queued run.status) claimed.evaluation_runs))
unfolding claimed claim_run
recover_incomplete_runs-map_example = recover_incomplete_runs-map (λ _. true) 3 claimed (tt, tt)
