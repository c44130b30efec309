-- ===== src/Tests/Agents.antt =====
-- Agents of agents/control.py, in the organization of the evaluation runs.
use aiagent.Tests.Evaluations.{
  tables, config, service, start, result_of, claimed, evaluated, evaluating, start-RunOk,
}
use aiagent.Agents.Resolve.{resolve_for_run, resolved}
use aiagent.Agents.Config.{config_digest, within_limits}
use aiagent.Agents.History.Deployments.{logged}
use aiagent.Agents.Rows.{AgentReleaseAction, Environment, AgentRelease, AgentDeployment}
use aiagent.Agents.Release.{
  ReleaseRequest, release, release_guards, idempotent_release, new_deployment, release_gate,
  assessed_gate, deployed,
}
use aiagent.Agents.History.{Reach, here, next, releases, defaults}
use aiagent.Evaluations.Rows.{Db, EvaluationRun}
use aiagent.Evaluations.Gate.{assess_release, is_completed}
use aiagent.Evaluations.Execution.{claim_run}
use aiagent.Evaluations.Completion.{complete_run}
use aiagent.Identity.Access.{access}
use aiagent.Errors.{returns, after, found, require}
use aiagent.Prelude.{none, ◌≡◌, false, refl, ◌⊎◌, arith, some, true, ◌*◌, ◌≤◌, find}
use aiagent.Agents.History.Deployments.{Refines, Reach-Refines}
use aiagent.Agents.Drafts.{set_default}
use aiagent.Agents.History.Defaults.{DefaultsOk, Reach-DefaultsOk}
use aiagent.Agents.Resolve.{ResolvedAgent, resolve_for_run, load_run_config}
use aiagent.Agents.History.Versions.{load_run_config-resolve_for_run}
use aiagent.Agents.Evidence.{release-meets_policy}
use aiagent.Evaluations.Lifecycle.Rows.{has_id}

abbrev request : ReleaseRequest
request = record {
  actor_id = 2;
  organization_id = 1;
  agent_id = 10;
  version_id = 5;
  action = AgentReleaseAction.deploy;
  reason = "ready";
  idempotency_key = none;
  expected_generation = none;
  bypass_gate = false;
  evaluation_run_id = some 7;
}

abbrev no_release : AgentRelease × AgentDeployment × Db
no_release = (
  record {
    id = 0;
    organization_id = 0;
    agent_id = 0;
    version_id = 0;
    previous_version_id = none;
    environment = Environment.test;
    action = AgentReleaseAction.deploy;
    reason = "";
    bypassed_gate = false;
    evaluation_run_id = none;
    gate_decision = "";
    gate_policy_digest = none;
    idempotency_key = none;
    requested_by = 0;
  },
  record {
    organization_id = 0;
    agent_id = 0;
    environment = Environment.test;
    version_id = 0;
    generation = 0;
    deployed_by = 0;
  },
  start,
)

unfoldable made : AgentRelease × AgentDeployment × Db
unfolding release claimed evaluated claim_run complete_run found release_guards access after require
    idempotent_release new_deployment release_gate assessed_gate assess_release deployed
made = result_of no_release (release service tables 50 request evaluated evaluated)

released : release service tables 50 request evaluated evaluated ≡ returns made
unfolding release made claimed evaluated claim_run complete_run found release_guards access after
    require idempotent_release new_deployment release_gate assessed_gate assess_release deployed
released = refl

release-meets_policy_example :
    (made.2 ≡ evaluated)
    ⊎ ((run : EvaluationRun) × (some 7 ≡ some run.id)
        × (find (has_id run.id) evaluated.evaluation_runs ≡ some run)
        × (run.agent_version_id ≡ 5)
        × (is_completed run.status ≡ true)
        × (run.cancellation_requested_at ≡ none)
        × (run.min_pass_rate * run.total_cases ≤ run.passed_cases * 1000000)
        × (run.critical_failures ≤ run.max_critical_failures))
release-meets_policy_example =
    release-meets_policy service tables request 50 evaluated evaluated (tt, tt) start-RunOk
      evaluating released refl refl refl

releasing : Reach evaluated made.2
releasing = next here (releases service tables 50 request evaluated released)

Reach-Refines_example : Refines made.2
unfolding logged claimed evaluated claim_run complete_run found
Reach-Refines_example = Reach-Refines start_refines releasing
  where
    start_refines : Refines evaluated
    start_refines o a e = refl

unfoldable moved : Db
unfolding set_default access after found require
moved = result_of start (set_default tables 2 1 11 start)

defaulting : Reach start moved
unfolding moved set_default access after found require
defaulting = next here (defaults tables 2 1 11 refl)

Reach-DefaultsOk_example : DefaultsOk moved
Reach-DefaultsOk_example = Reach-DefaultsOk start-DefaultsOk defaulting
  where
    start-DefaultsOk : DefaultsOk start
    start-DefaultsOk = record {
      distinct = ((ground arith, tt), (tt, tt));
      single = λ o. ground arith;
    }

abbrev chosen_agent : ResolvedAgent
chosen_agent = record {
  agent_id = 10;
  version_id = 5;
  config_digest = "help";
  config = config "help";
}

-- The default agent of a Run that comes after the release, and its configuration after another one.
chosen_for_run : resolve_for_run service 1 none made.2 ≡ returns (some chosen_agent)
unfolding resolve_for_run resolved config_digest within_limits release made claimed evaluated
    claim_run complete_run found release_guards access after require idempotent_release
    new_deployment release_gate assessed_gate assess_release deployed
chosen_for_run = refl

load_run_config-resolve_for_run_example :
    load_run_config service 1 10 5 "help" made.2 ≡ returns (config "help")
load_run_config-resolve_for_run_example =
    load_run_config-resolve_for_run service 1 none chosen_for_run here
