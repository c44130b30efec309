-- ===== src/Evaluations/Rows.antt =====
-- The tables of evaluations/service.py (persistence/models.py), and the store that it shares with
-- agents/control.py. Rates are in millionths; `pass_rate` is the fraction that it is computed from.
use aiagent.Prelude.{Bool, ℕ, List, true, String, Option, ◌∷◌, false, find, ◌==◌, some, ◌&&◌}
use aiagent.Errors.{ServiceError, resource_not_found}
use aiagent.Audit.{AuditRequest}
use aiagent.Json.{Json, Fields}
use aiagent.Agents.Rows.{
  Environment, AgentDefinition, AgentDraft, AgentVersion, AgentDeployment, AgentRelease,
  is_active_status,
}

pub data EvaluationDatasetStatus : Type 0 where
  active archived : EvaluationDatasetStatus

abbrev pub is_active_dataset : EvaluationDatasetStatus → Bool
is_active_dataset active = true
is_active_dataset archived = false

pub data EvaluationRunStatus : Type 0 where
  queued running completed failed cancelled : EvaluationRunStatus

pub record EvaluationDataset : Type 0 where
  pub id : ℕ
  pub organization_id : ℕ
  pub code : String
  pub display_name : String
  pub description : String
  pub status : EvaluationDatasetStatus
  pub created_by : ℕ

pub record EvaluationDatasetDraft : Type 0 where
  pub dataset_id : ℕ
  pub organization_id : ℕ
  pub revision : ℕ
  pub cases : Json
  pub updated_by : ℕ

pub record EvaluationDatasetVersion : Type 0 where
  pub id : ℕ
  pub dataset_id : ℕ
  pub organization_id : ℕ
  pub version_number : ℕ
  pub cases_snapshot : Json
  pub cases_digest : String
  pub created_by : ℕ

pub record AgentEvaluationPolicy : Type 0 where
  pub id : ℕ
  pub organization_id : ℕ
  pub agent_id : ℕ
  pub environment : Environment
  pub dataset_version_id : ℕ
  pub revision : ℕ
  pub min_pass_rate : ℕ
  pub max_critical_failures : ℕ
  pub is_enabled : Bool
  pub policy_digest : String
  pub updated_by : ℕ

pub record EvaluationRun : Type 0 where
  pub id : ℕ
  pub organization_id : ℕ
  pub agent_id : ℕ
  pub agent_version_id : ℕ
  pub agent_config_digest : String
  pub dataset_version_id : ℕ
  pub policy_id : ℕ
  pub policy_digest : String
  pub min_pass_rate : ℕ
  pub max_critical_failures : ℕ
  pub requested_by : ℕ
  pub trace_id : ℕ
  pub idempotency_key : Option String
  pub status : EvaluationRunStatus
  pub total_cases : ℕ
  pub passed_cases : ℕ
  pub critical_failures : ℕ
  pub pass_rate : Option (ℕ × ℕ)
  pub gate_passed : Option Bool
  pub error_code : Option String
  pub cancellation_requested_at : Option ℕ
  pub started_at : Option ℕ
  pub completed_at : Option ℕ
  pub created_at : ℕ

pub record EvaluationCaseResult : Type 0 where
  pub evaluation_run_id : ℕ
  pub organization_id : ℕ
  pub case_key : String
  pub severity : String
  pub passed : Bool
  pub reason : String
  pub used_tools : List String
  pub citations_count : ℕ
  pub answer_digest : Option String
  pub input_tokens : ℕ
  pub output_tokens : ℕ
  pub duration_ms : ℕ

pub record Db : Type 0 where
  pub agents : List AgentDefinition
  pub drafts : List AgentDraft
  pub versions : List AgentVersion
  pub deployments : List AgentDeployment
  pub releases : List AgentRelease
  pub datasets : List EvaluationDataset
  pub dataset_drafts : List EvaluationDatasetDraft
  pub dataset_versions : List EvaluationDatasetVersion
  pub policies : List AgentEvaluationPolicy
  pub evaluation_runs : List EvaluationRun
  pub case_results : List EvaluationCaseResult
  pub audit : List AuditRequest

-- `_active_agent`.
abbrev pub active_agent : ℕ → ℕ → Db → Option AgentDefinition
active_agent organization_id agent_id db =
    find
      (λ a.
        (a.id == agent_id) && ((a.organization_id == organization_id) && is_active_status a.status))
      db.agents

abbrev pub agent_missing : ServiceError
agent_missing = resource_not_found "Agent not found."

-- A version of an agent of the organization.
abbrev pub find_version : ℕ → ℕ → ℕ → Db → Option AgentVersion
find_version organization_id agent_id version_id db =
    find
      (λ v.
        (v.id == version_id)
        && ((v.agent_id == agent_id) && (v.organization_id == organization_id)))
      db.versions

abbrev pub add_entry : AuditRequest → Db → Db
add_entry request db = record db { audit = request ∷ db.audit }

-- An audit record of a service for a user of the organization.
abbrev pub user_audit : ℕ → ℕ → String → String → Option ℕ → Option ℕ → Fields → AuditRequest
user_audit organization_id actor_id action resource_type resource_id trace_id details = record {
  organization_id = some organization_id;
  actor_user_id = some actor_id;
  action = action;
  resource_type = resource_type;
  resource_id = resource_id;
  trace_id = trace_id;
  details = details;
}
