-- ===== src/Evaluations/Gate.antt =====
-- `EvaluationService.assess_release` (evaluations/service.py).
use aiagent.Prelude.{
  Bool, Option, ℕ, String, true, false, find, some, ◌==◌, ◌&&◌, if◌then◌else◌, not, ◌||◌, str_eq,
  none,
}
use aiagent.Agents.Rows.{Environment, env_eq}
use aiagent.Evaluations.Rows.{
  EvaluationRunStatus, AgentEvaluationPolicy, Db, EvaluationRun, completed,
}

pub record GateAssessment : Type 0 where
  pub passed : Bool
  pub decision : String
  pub evaluation_run_id : Option ℕ
  pub policy_digest : Option String

abbrev pub find_policy : Environment → ℕ → ℕ → Bool → Db → Option AgentEvaluationPolicy
find_policy environment organization_id agent_id enabled_only db =
    find
      (λ p.
        (p.organization_id == organization_id)
        && ((p.agent_id == agent_id)
            && (env_eq p.environment environment && (not enabled_only || p.is_enabled))))
      db.policies

abbrev pub is_completed : EvaluationRunStatus → Bool
is_completed completed = true
is_completed _ = false

-- `value is True` of a column that may be NULL.
abbrev pub is_true : Option Bool → Bool
is_true none = false
is_true (some b) = b

-- The run that is evidence for a version under a policy.
abbrev pub is_evidence : ℕ → ℕ → ℕ → AgentEvaluationPolicy → ℕ → EvaluationRun → Bool
is_evidence organization_id agent_id agent_version_id policy evaluation_run_id run =
    (run.id == evaluation_run_id)
    && ((run.organization_id == organization_id)
        && ((run.agent_id == agent_id)
            && ((run.agent_version_id == agent_version_id)
                && ((run.policy_id == policy.id)
                    && (run.dataset_version_id == policy.dataset_version_id)))))

abbrev pub assessment : Bool → String → Option ℕ → Option String → GateAssessment
assessment passed decision evaluation_run_id policy_digest = record {
  passed = passed;
  decision = decision;
  evaluation_run_id = evaluation_run_id;
  policy_digest = policy_digest;
}

abbrev pub assess_run : AgentEvaluationPolicy → EvaluationRun → GateAssessment
assess_run policy run =
    let digest = some policy.policy_digest in
    if not (str_eq run.policy_digest policy.policy_digest)
    then assessment false "stale" (some run.id) digest
    else if not (is_completed run.status)
    then assessment false "incomplete" (some run.id) digest
    else if not (is_true run.gate_passed)
    then assessment false "failed" (some run.id) digest
    else assessment true "passed" (some run.id) digest

unfoldable pub assess_release : Environment → Db → ℕ → ℕ → ℕ → Option ℕ → GateAssessment
assess_release environment db organization_id agent_id agent_version_id evaluation_run_id =
    elim (find_policy environment organization_id agent_id true db) [
      | none ↦ assessment false "not_configured" none none
      | some policy ↦ elim evaluation_run_id [
        | none ↦ assessment false "missing" none (some policy.policy_digest)
        | some id ↦
            elim (find (is_evidence organization_id agent_id agent_version_id policy id)
              db.evaluation_runs) [
                | none ↦ assessment false "invalid" none (some policy.policy_digest)
                | some run ↦ assess_run policy run
              ]
      ]
    ]
