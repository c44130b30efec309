-- ===== src/Agents/Drafts.antt =====
-- `create_agent`, `update_draft`, `create_version` and `set_default` of agents/control.py. `who` has the
-- tables that the check of access reads, `fresh` is the id of a new row.
use aiagent.Agents.Config.{
  AgentControlService, AgentVersionConfig, agent_code, within_limits, limits_error, config_digest,
}
use aiagent.Agents.Rows.{AgentDefinition, AgentDraft, AgentVersion, AgentStatus}
use aiagent.Prelude.{
  ℕ, Option, String, Bool, if◌then◌else◌, some, ◌==◌, find, first_by, false, none, ◌&&◌, ltb, ◌+◌,
  str_eq, true, ◌||◌, keep, not, any, map, update, ◌∷◌,
}
use aiagent.Errors.{
  ServiceError, resource_not_found, Attempt, after, require, found, conflict, returns,
  validation_error,
}
use aiagent.Identity.Rows.{Tables}
use aiagent.Evaluations.Rows.{Db, active_agent, agent_missing, add_entry, user_audit}
use aiagent.Identity.Access.{access}
use aiagent.Json.{field, end, str, num, bool}

abbrev pub config_or_default : AgentControlService → Option AgentVersionConfig → AgentVersionConfig
config_or_default s none = s.default_config
config_or_default s (some config) = config

abbrev pub new_agent :
    AgentControlService → ℕ → ℕ → ℕ → String → String → String → Bool → AgentDefinition
new_agent s fresh actor_id organization_id code display_name description is_default = record {
  id = fresh;
  organization_id = organization_id;
  code = code;
  display_name = s.tools.strip display_name;
  description = s.tools.strip description;
  status = AgentStatus.active;
  is_default = is_default;
  created_by = actor_id;
}

-- The two constraints whose violation is an `IntegrityError`: one agent of an organization has the
-- code, and one is the default.
abbrev pub is_duplicate : AgentDefinition → AgentDefinition → Bool
is_duplicate agent other =
    (other.organization_id == agent.organization_id)
    && (str_eq other.code agent.code || (agent.is_default && other.is_default))

unfoldable pub create_agent :
    AgentControlService
    → Tables
    → ℕ
    → ℕ
    → ℕ
    → String
    → String
    → String
    → Option AgentVersionConfig
    → Db
    → Attempt (AgentDefinition × AgentDraft × Db)
create_agent s who fresh actor_id organization_id code display_name description config db =
    after (access actor_id organization_id (some "agent:draft:write") who) λ _.
      let normalized_code = s.tools.lower (s.tools.strip code) in
      require (s.tools.fullmatch agent_code normalized_code)
        (conflict "Agent code must use lowercase letters, digits, and hyphens.")
        (let resolved_config = config_or_default s config in
          require (within_limits s.platform_limits resolved_config.limits) limits_error (
            let is_default = not (any (λ a. a.organization_id == organization_id) db.agents) in
            let agent =
              new_agent s fresh actor_id organization_id normalized_code display_name description
                is_default in
            let draft : AgentDraft = record {
              agent_id = fresh;
              organization_id = organization_id;
              revision = 1;
              config = s.tools.model_dump resolved_config;
              updated_by = actor_id;
            } in
            require (not (any (is_duplicate agent) db.agents))
              (conflict "Agent code or default Agent conflicts with an existing Agent.")
              (returns (
                agent,
                draft,
                add_entry
                    (user_audit organization_id actor_id "agent.created" "agent" (some fresh) none
                      (field "code" (str normalized_code) (field "default" (bool is_default) end)))
                    (record db { agents = agent ∷ db.agents; drafts = draft ∷ db.drafts }),
              ))))

abbrev pub is_draft_of : ℕ → ℕ → AgentDraft → Bool
is_draft_of organization_id agent_id draft =
    (draft.agent_id == agent_id) && (draft.organization_id == organization_id)

abbrev pub find_draft : ℕ → ℕ → Db → Option AgentDraft
find_draft organization_id agent_id db = find (is_draft_of organization_id agent_id) db.drafts

-- `get_draft` and the query of the other methods.
abbrev pub draft_missing : ServiceError
draft_missing = resource_not_found "Agent draft not found."

unfoldable pub update_draft :
    AgentControlService
    → Tables
    → ℕ
    → ℕ
    → ℕ
    → ℕ
    → AgentVersionConfig
    → Db
    → Attempt (AgentDraft × Db)
update_draft s who actor_id organization_id agent_id expected_revision config db =
    after (access actor_id organization_id (some "agent:draft:write") who) λ _.
      require (within_limits s.platform_limits config.limits) limits_error (
        found (find_draft organization_id agent_id db) draft_missing λ draft.
          require (draft.revision == expected_revision) (conflict "Agent draft revision is stale.")
            (let draft' : AgentDraft = record draft {
              config = s.tools.model_dump config;
              revision = draft.revision + 1;
              updated_by = actor_id;
            } in
              returns (
                draft',
                add_entry
                    (user_audit organization_id actor_id "agent.draft_updated" "agent"
                      (some agent_id) none (field "revision" (num draft'.revision) end))
                    (record db {
                      drafts =
                          update (is_draft_of organization_id agent_id) (λ _. draft') db.drafts;
                    }),
              )))

-- The version of an agent with the greatest number.
abbrev pub latest_version : ℕ → Db → Option AgentVersion
latest_version agent_id db =
    first_by (λ a b. ltb b.version_number a.version_number)
      (keep (λ v. v.agent_id == agent_id) db.versions)

abbrev pub next_number : Option AgentVersion → ℕ
next_number none = 1
next_number (some latest) = latest.version_number + 1

abbrev pub is_unchanged : Option AgentVersion → String → Bool
is_unchanged none digest = false
is_unchanged (some latest) digest = str_eq latest.config_digest digest

unfoldable pub create_version :
    AgentControlService → Tables → ℕ → ℕ → ℕ → ℕ → ℕ → Db → Attempt (AgentVersion × Db)
create_version s who fresh actor_id organization_id agent_id expected_revision db =
    after (access actor_id organization_id (some "agent:version:create") who) λ _.
      found (active_agent organization_id agent_id db) agent_missing λ agent.
        found (find_draft organization_id agent.id db) draft_missing λ draft.
          require (draft.revision == expected_revision) (conflict "Agent draft revision is stale.")
            (found (s.tools.model_validate draft.config)
              (validation_error "Agent draft is invalid.")
              λ config. require (within_limits s.platform_limits config.limits) limits_error (
                let snapshot = s.tools.model_dump config in
                let digest = config_digest s.tools snapshot in
                let latest = latest_version agent_id db in
                require (not (is_unchanged latest digest))
                  (conflict "Agent draft is unchanged from the latest version.")
                  (let version : AgentVersion = record {
                    id = fresh;
                    agent_id = agent_id;
                    organization_id = organization_id;
                    version_number = next_number latest;
                    config_snapshot = snapshot;
                    config_digest = digest;
                    created_by = actor_id;
                  } in
                    returns (
                      version,
                      add_entry
                          (user_audit organization_id actor_id "agent.version_created"
                            "agent_version" (some fresh) none
                            (field "agent_id" (num agent_id) (
                              field "version" (num version.version_number)
                                (field "config_digest" (str digest) end))))
                          (record db { versions = version ∷ db.versions }),
                    ))))

-- The first loop takes the mark from the other agents, the assignment after it gives it to one.
abbrev pub cleared : ℕ → ℕ → AgentDefinition → AgentDefinition
cleared organization_id agent_id agent =
    if (agent.organization_id == organization_id) && not (agent.id == agent_id)
    then record agent { is_default = false }
    else agent

abbrev pub chosen : ℕ → ℕ → AgentDefinition → AgentDefinition
chosen organization_id agent_id agent =
    if (agent.organization_id == organization_id) && (agent.id == agent_id)
    then record agent { is_default = true }
    else agent

unfoldable pub set_default : Tables → ℕ → ℕ → ℕ → Db → Attempt Db
set_default who actor_id organization_id agent_id db =
    after (access actor_id organization_id (some "agent:release") who) λ _.
      found (active_agent organization_id agent_id db) agent_missing λ selected. returns (
        add_entry
          (user_audit organization_id actor_id "agent.default_changed" "agent" (some agent_id) none
            end)
          (record db {
            agents =
                map (chosen organization_id agent_id)
                  (map (cleared organization_id agent_id) db.agents);
          }))
