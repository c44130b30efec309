-- ===== src/Agents/Release.antt =====
-- `AgentControlService.release` (agents/control.py).
use aiagent.Prelude.{
  ℕ, Option, String, Bool, some, none, true, if◌then◌else◌, ◌==◌, find, false, str_eq, ◌&&◌, List,
  opt_is, ◌||◌, not, is_some, bool_eq, any, ◌∷◌, ◌+◌, update,
}
use aiagent.Agents.Rows.{
  Environment, AgentReleaseAction, AgentRelease, AgentDeployment, deploy, rollback, production,
  env_eq, action_eq,
}
use aiagent.Agents.Config.{EvaluationGateMode, AgentControlService, off, required}
use aiagent.Evaluations.Rows.{Db, user_audit, find_version, active_agent, agent_missing, add_entry}
use aiagent.Identity.Rows.{Tables}
use aiagent.Json.{Json, null, num, str, field, bool, end}
use aiagent.Audit.{AuditRequest}
use aiagent.Errors.{Attempt, after, returns, found, require, conflict, resource_not_found}
use aiagent.Evaluations.Gate.{assess_release}
use aiagent.Identity.Access.{access}

-- The keyword arguments.
pub record ReleaseRequest : Type 0 where
  pub actor_id : ℕ
  pub organization_id : ℕ
  pub agent_id : ℕ
  pub version_id : ℕ
  pub action : AgentReleaseAction
  pub reason : String
  pub idempotency_key : Option String
  pub expected_generation : Option ℕ
  pub bypass_gate : Bool
  pub evaluation_run_id : Option ℕ

abbrev pub is_production : Environment → Bool
is_production production = true
is_production _ = false

abbrev pub is_off : EvaluationGateMode → Bool
is_off off = true
is_off _ = false

abbrev pub is_required : EvaluationGateMode → Bool
is_required required = true
is_required _ = false

abbrev pub is_rollback : AgentReleaseAction → Bool
is_rollback rollback = true
is_rollback deploy = false

abbrev pub opt_eq : Option ℕ → Option ℕ → Bool
opt_eq none none = true
opt_eq (some a) (some b) = a == b
opt_eq _ _ = false

-- `if idempotency_key`.
abbrev pub real_key : Option String → Option String
real_key none = none
real_key (some key) = if str_eq key "" then none else some key

-- `_deployment`.
abbrev pub is_deployment : ℕ → ℕ → Environment → AgentDeployment → Bool
is_deployment organization_id agent_id environment d =
    (d.organization_id == organization_id)
    && ((d.agent_id == agent_id) && env_eq d.environment environment)

abbrev pub find_deployment : ℕ → ℕ → Environment → Db → Option AgentDeployment
find_deployment organization_id agent_id environment db =
    find (is_deployment organization_id agent_id environment) db.deployments

-- The guards before the transaction; what they let through is the reason, without blanks around it.
unfoldable pub release_guards : AgentControlService → Tables → ReleaseRequest → Attempt String
release_guards s who r =
    after (access r.actor_id r.organization_id (some "agent:release") who) λ granted.
      after
        (if r.bypass_gate
          then access r.actor_id r.organization_id (some "agent:release:bypass") who
          else returns granted)
        λ _.
          require (not (is_production s.environment && not r.bypass_gate))
            (conflict "Production release requires an evaluation gate or audited bypass.")
            (require (not (r.bypass_gate && is_some r.evaluation_run_id))
              (conflict "A bypassed release must not attach an evaluation run.")
              (require
                (not (
                  not (is_production s.environment)
                  && (is_off s.evaluation_gate_mode && is_some r.evaluation_run_id)))
                (conflict "Evaluation release evidence is disabled.")
                (let reason = s.tools.strip r.reason in
                  require (not (str_eq reason ""))
                    (conflict "Agent release reason must not be blank.") (returns reason))))

-- The release of an earlier call was of the same kind.
abbrev pub is_same_release : AgentControlService → ReleaseRequest → String → AgentRelease → Bool
is_same_release s r reason existing =
    (existing.agent_id == r.agent_id)
    && ((existing.version_id == r.version_id)
        && (env_eq existing.environment s.environment
            && (action_eq existing.action r.action
                && (str_eq existing.reason reason
                    && (bool_eq existing.bypassed_gate r.bypass_gate
                        && opt_eq existing.evaluation_run_id r.evaluation_run_id)))))

abbrev pub has_key : ℕ → String → AgentRelease → Bool
has_key organization_id key release =
    (release.organization_id == organization_id) && opt_is str_eq release.idempotency_key key

-- `_idempotent_release`, where there is a key.
unfoldable pub idempotent_release :
    AgentControlService
    → ReleaseRequest
    → String
    → Db
    → Attempt (Option (AgentRelease × AgentDeployment))
idempotent_release s r reason db = elim (real_key r.idempotency_key) [
  | none ↦ returns none
  | some key ↦ elim (find (has_key r.organization_id key) db.releases) [
    | none ↦ returns none
    | some existing ↦
        require (is_same_release s r reason existing)
          (conflict "Idempotency key was used for another release.")
          (found (find_deployment r.organization_id r.agent_id s.environment db)
            (conflict "Idempotent release has no matching deployment.")
            λ deployment. returns (some (existing, deployment)))
  ]
]

pub record GateResult : Type 0 where
  pub evaluation_run_id : Option ℕ
  pub decision : String
  pub policy_digest : Option String

abbrev ungated : String → GateResult
ungated decision = record { evaluation_run_id = none; decision = decision; policy_digest = none }

-- The part that asks the evaluations.
unfoldable pub assessed_gate : AgentControlService → ReleaseRequest → Db → Attempt GateResult
assessed_gate s r db =
    let a =
      assess_release s.environment db r.organization_id r.agent_id r.version_id
        r.evaluation_run_id in
    require (not (is_some r.evaluation_run_id && not (is_some a.evaluation_run_id)))
      (conflict "Evaluation run does not match this Agent release.")
      (require (not (is_required s.evaluation_gate_mode && not a.passed))
        (conflict "Agent version has not passed the current evaluation gate.")
        (returns (record {
          evaluation_run_id = a.evaluation_run_id;
          decision = a.decision;
          policy_digest = a.policy_digest;
        })))

unfoldable pub release_gate : AgentControlService → ReleaseRequest → Db → Attempt GateResult
release_gate s r db =
    if r.bypass_gate
    then returns (ungated "bypassed")
    else if is_production s.environment || is_off s.evaluation_gate_mode
    then returns (ungated "not_required")
    else if not s.evaluations
    then require (not (is_required s.evaluation_gate_mode))
        (conflict "Evaluation release gate is unavailable.") (returns (ungated "unavailable"))
    else assessed_gate s r db

-- The deployment after the release, and the tables with it; the constraint on agent and environment
-- is checked where a row is inserted.
unfoldable pub deployed :
    AgentControlService
    → ReleaseRequest
    → Option AgentDeployment
    → Db
    → Attempt (AgentDeployment × List AgentDeployment)
deployed s r none db =
    let deployment : AgentDeployment = record {
      organization_id = r.organization_id;
      agent_id = r.agent_id;
      environment = s.environment;
      version_id = r.version_id;
      generation = 1;
      deployed_by = r.actor_id;
    } in
    require
      (not (
        any (λ d. (d.agent_id == r.agent_id) && env_eq d.environment s.environment) db.deployments))
      (conflict "Agent release conflicts with an existing release.")
      (returns (deployment, deployment ∷ db.deployments))
deployed s r (some d) db =
    let deployment : AgentDeployment = record d {
      version_id = r.version_id;
      generation = d.generation + 1;
      deployed_by = r.actor_id;
    } in
    returns (
      deployment,
      update (is_deployment r.organization_id r.agent_id s.environment) (λ _. deployment)
          db.deployments,
    )

abbrev pub generation_of : Option AgentDeployment → ℕ
generation_of none = 0
generation_of (some d) = d.generation

abbrev pub version_of : Option AgentDeployment → Option ℕ
version_of none = none
version_of (some d) = some d.version_id

abbrev pub new_release :
    AgentControlService → ℕ → ReleaseRequest → String → GateResult → Option ℕ → AgentRelease
new_release s fresh r reason gate previous = record {
  id = fresh;
  organization_id = r.organization_id;
  agent_id = r.agent_id;
  version_id = r.version_id;
  previous_version_id = previous;
  environment = s.environment;
  action = r.action;
  reason = reason;
  bypassed_gate = r.bypass_gate;
  evaluation_run_id = gate.evaluation_run_id;
  gate_decision = gate.decision;
  gate_policy_digest = gate.policy_digest;
  idempotency_key = r.idempotency_key;
  requested_by = r.actor_id;
}

abbrev opt_num : Option ℕ → Json
opt_num none = null
opt_num (some n) = num n

abbrev opt_str : Option String → Json
opt_str none = null
opt_str (some text) = str text

-- `f"agent.{action.value}"`.
abbrev action_text : AgentReleaseAction → String
action_text deploy = "agent.deploy"
action_text rollback = "agent.rollback"

abbrev pub release_audit : AgentRelease → ℕ → AuditRequest
release_audit release generation =
    user_audit release.organization_id release.requested_by (action_text release.action)
      "agent_release" (some release.id) none
      (field "agent_id" (num release.agent_id) (
        field "version_id" (num release.version_id) (
          field "previous_version_id" (opt_num release.previous_version_id) (
            field "generation" (num generation) (
              field "bypassed_gate" (bool release.bypassed_gate) (
                field "evaluation_run_id" (opt_num release.evaluation_run_id) (
                  field "gate_decision" (str release.gate_decision) (
                    field "gate_policy_digest" (opt_str release.gate_policy_digest)
                      (field "reason" (str release.reason) end)))))))))

-- The earlier release that a rollback goes back to.
abbrev pub was_deployed : AgentControlService → ReleaseRequest → AgentRelease → Bool
was_deployed s r release =
    (release.organization_id == r.organization_id)
    && ((release.agent_id == r.agent_id)
        && ((release.version_id == r.version_id) && env_eq release.environment s.environment))

abbrev pub key_taken : ReleaseRequest → AgentRelease → Bool
key_taken r release = elim r.idempotency_key [
  | none ↦ false
  | some key ↦ has_key r.organization_id key release
]

-- From the lock of the agent to the end of the transaction, with no earlier release of the key.
unfoldable pub new_deployment :
    AgentControlService
    → ℕ
    → ReleaseRequest
    → String
    → Db
    → Attempt (AgentRelease × AgentDeployment × Db)
new_deployment s fresh r reason db =
    found (find_version r.organization_id r.agent_id r.version_id db)
      (resource_not_found "Agent version not found.")
      λ version. after (release_gate s r db) λ gate.
        require (not (is_rollback r.action && not (any (was_deployed s r) db.releases)))
          (conflict "Agent rollback target was not previously deployed.")
          (let deployment = find_deployment r.organization_id r.agent_id s.environment db in
            require
              (not (
                is_some r.expected_generation
                && not (opt_eq r.expected_generation (some (generation_of deployment)))))
              (conflict "Agent deployment generation is stale.")
              (require (not (opt_eq (version_of deployment) (some r.version_id)))
                (conflict "Agent version is already deployed.")
                (after (deployed s r deployment db) λ result.
                  let release = new_release s fresh r reason gate (version_of deployment) in
                  require (not (any (key_taken r) db.releases))
                    (conflict "Agent release conflicts with an existing release.")
                    (returns (
                      release,
                      result.0,
                      add_entry (release_audit release result.0.generation)
                          (record db { deployments = result.1; releases = release ∷ db.releases }),
                    )))))

abbrev pub or_existing :
    Option (AgentRelease × AgentDeployment)
    → Db
    → Attempt (AgentRelease × AgentDeployment × Db)
    → Attempt (AgentRelease × AgentDeployment × Db)
or_existing none db next = next
or_existing (some existing) db next = returns (existing.0, existing.1, db)

-- `before` are the tables that the first test of the key reads; until the lock on the agent is there,
-- other transactions can commit, and the rest reads `db`.
unfoldable pub release :
    AgentControlService
    → Tables
    → ℕ
    → ReleaseRequest
    → Db
    → Db
    → Attempt (AgentRelease × AgentDeployment × Db)
release s who fresh r before db = after (release_guards s who r) λ reason.
    after (idempotent_release s r reason before) λ early. or_existing early db (
      found (active_agent r.organization_id r.agent_id db) agent_missing λ agent.
        after (idempotent_release s r reason db)
          λ existing. or_existing existing db (new_deployment s fresh r reason db))
