-- ===== src/Agents/Resolve.antt =====
-- The version that a Run uses: `resolve_for_run` and `load_run_config` of agents/control.py.
use aiagent.Prelude.{
  ℕ, Option, String, Bool, some, ◌==◌, find, true, none, ◌&&◌, false, if◌then◌else◌, str_eq,
  is_some, not, ◌||◌,
}
use aiagent.Agents.Config.{
  AgentControlService, AgentControlMode, AgentVersionConfig, legacy, managed_required,
  config_digest, within_limits, limits_error,
}
use aiagent.Agents.Rows.{AgentVersion, AgentDefinition, is_active_status}
use aiagent.Evaluations.Rows.{Db, find_version}
use aiagent.Errors.{
  Attempt, found, validation_error, require, configuration_error, conflict, returns, after,
}
use aiagent.Agents.Release.{find_deployment}

pub record ResolvedAgent : Type 0 where
  pub agent_id : ℕ
  pub version_id : ℕ
  pub config_digest : String
  pub config : AgentVersionConfig

-- `_resolved`.
unfoldable pub resolved : AgentControlService → ℕ → AgentVersion → Attempt ResolvedAgent
resolved s agent_id version =
    found (s.tools.model_validate version.config_snapshot)
      (validation_error "Agent version is invalid.")
      λ config.
        require (str_eq (config_digest s.tools (s.tools.model_dump config)) version.config_digest)
          (configuration_error "Stored Agent version integrity check failed.")
          (require (within_limits s.platform_limits config.limits) limits_error (
            returns (record {
              agent_id = agent_id;
              version_id = version.id;
              config_digest = version.config_digest;
              config = config;
            })))

-- The agent of a row of the join, with the version that is deployed for it.
abbrev pub deployed_version : AgentControlService → ℕ → Db → AgentDefinition → Option AgentVersion
deployed_version s organization_id db agent =
    elim (find_deployment organization_id agent.id s.environment db) [
      | none ↦ none
      | some deployment ↦ find_version organization_id agent.id deployment.version_id db
    ]

abbrev pub is_requested : Option ℕ → AgentDefinition → Bool
is_requested none agent = agent.is_default
is_requested (some id) agent = agent.id == id

-- The rows of the join; there is one at most, since one agent is the default and ids are unique.
abbrev pub is_candidate : AgentControlService → ℕ → Option ℕ → Db → AgentDefinition → Bool
is_candidate s organization_id requested db agent =
    (agent.organization_id == organization_id)
    && (is_active_status agent.status
        && (is_requested requested agent && is_some (deployed_version s organization_id db agent)))

abbrev pub run_version : AgentControlService → ℕ → Option ℕ → Db → Option (ℕ × AgentVersion)
run_version s organization_id requested db =
    elim (find (is_candidate s organization_id requested db) db.agents) [
      | none ↦ none
      | some agent ↦ elim (deployed_version s organization_id db agent) [
        | none ↦ none
        | some version ↦ some (agent.id, version)
      ]
    ]

abbrev pub is_legacy : AgentControlMode → Bool
is_legacy legacy = true
is_legacy _ = false

abbrev pub is_managed_required : AgentControlMode → Bool
is_managed_required managed_required = true
is_managed_required _ = false

unfoldable pub resolve_for_run :
    AgentControlService → ℕ → Option ℕ → Db → Attempt (Option ResolvedAgent)
resolve_for_run s organization_id requested db =
    if is_legacy s.mode
    then require (not (is_some requested)) (conflict "Managed Agent selection is disabled.")
        (returns none)
    else elim (run_version s organization_id requested db) [
      | none ↦
          require (not (is_some requested || is_managed_required s.mode))
            (conflict "No deployed managed Agent is available.") (returns none)
      | some row ↦ after (resolved s (row.0) (row.1)) λ agent. returns (some agent)
    ]

unfoldable pub load_run_config :
    AgentControlService → ℕ → ℕ → ℕ → String → Db → Attempt AgentVersionConfig
load_run_config s organization_id agent_id version_id expected_digest db =
    found (find_version organization_id agent_id version_id db)
      (configuration_error "Run Agent version is unavailable.")
      λ version.
        require (str_eq version.config_digest expected_digest)
          (configuration_error "Run Agent version digest does not match.")
          (found (s.tools.model_validate version.config_snapshot)
            (validation_error "Agent version is invalid.")
            λ config.
              require
                (str_eq version.config_digest (config_digest s.tools (s.tools.model_dump config)))
                (configuration_error "Stored Agent version integrity check failed.")
                (require (within_limits s.platform_limits config.limits) limits_error
                  (returns config)))
