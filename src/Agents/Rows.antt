-- ===== src/Agents/Rows.antt =====
-- The tables of agents/control.py (persistence/models.py). A UUID is a natural number, a row has the
-- columns that the services use.
use aiagent.Prelude.{Bool, String, ℕ, true, Option, false}
use aiagent.Json.{Json}

-- `Environment` of config.py.
pub data Environment : Type 0 where
  development test production : Environment

abbrev pub env_eq : Environment → Environment → Bool
env_eq development development = true
env_eq test test = true
env_eq production production = true
env_eq _ _ = false

-- `Environment.value`.
abbrev pub env_value : Environment → String
env_value development = "development"
env_value test = "test"
env_value production = "production"

pub data AgentStatus : Type 0 where
  active archived : AgentStatus

abbrev pub is_active_status : AgentStatus → Bool
is_active_status active = true
is_active_status archived = false

pub data AgentReleaseAction : Type 0 where
  deploy rollback : AgentReleaseAction

abbrev pub action_eq : AgentReleaseAction → AgentReleaseAction → Bool
action_eq deploy deploy = true
action_eq rollback rollback = true
action_eq _ _ = false

pub record AgentDefinition : Type 0 where
  pub id : ℕ
  pub organization_id : ℕ
  pub code : String
  pub display_name : String
  pub description : String
  pub status : AgentStatus
  pub is_default : Bool
  pub created_by : ℕ

pub record AgentDraft : Type 0 where
  pub agent_id : ℕ
  pub organization_id : ℕ
  pub revision : ℕ
  pub config : Json
  pub updated_by : ℕ

pub record AgentVersion : Type 0 where
  pub id : ℕ
  pub agent_id : ℕ
  pub organization_id : ℕ
  pub version_number : ℕ
  pub config_snapshot : Json
  pub config_digest : String
  pub created_by : ℕ

pub record AgentDeployment : Type 0 where
  pub organization_id : ℕ
  pub agent_id : ℕ
  pub environment : Environment
  pub version_id : ℕ
  pub generation : ℕ
  pub deployed_by : ℕ

-- Its status has one value, DEPLOYED.
pub record AgentRelease : Type 0 where
  pub id : ℕ
  pub organization_id : ℕ
  pub agent_id : ℕ
  pub version_id : ℕ
  pub previous_version_id : Option ℕ
  pub environment : Environment
  pub action : AgentReleaseAction
  pub reason : String
  pub bypassed_gate : Bool
  pub evaluation_run_id : Option ℕ
  pub gate_decision : String
  pub gate_policy_digest : Option String
  pub idempotency_key : Option String
  pub requested_by : ℕ
