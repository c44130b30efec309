-- ===== src/Agents/Evidence.antt =====
-- What a release of agents/control.py rests on: the evaluation gate, and the key of the request.
use aiagent.Agents.Rows.{Environment, AgentRelease, AgentDeployment}
use aiagent.Evaluations.Rows.{AgentEvaluationPolicy, Db, EvaluationRun}
use aiagent.Evaluations.Gate.{assess_release, assess_run, find_policy, is_evidence, is_completed}
use aiagent.Agents.Release.{
  ReleaseRequest, assessed_gate, release_gate, new_deployment, GateResult, release, is_required,
  new_release, is_production, version_of, find_deployment,
}
use aiagent.Prelude.{
  ℕ, ◌≡◌, Option, true, some, none, str_eq, arith, ◌⊎◌, Option-cases, inl, true-false, inr, sym,
  find, String, find-All, All-unit, ◌∙◌, ap, false, subst, refl, Bool-cases, not, All, ◌*◌, ◌≤◌,
}
use aiagent.Agents.Config.{AgentControlService}
use aiagent.Identity.Rows.{Tables}
use aiagent.Evaluations.Lifecycle.{RunOk, meets_policy}
use aiagent.Evaluations.Lifecycle.Rows.{AreDistinct, has_id, find-id}
use aiagent.Evaluations.Lifecycle.Reachable.{Reach, Reach-RunOk}
use aiagent.Errors.{
  returns, require-returns, found-returns, require, after-returns, returns_injective, conflict,
  some_injective,
}
use aiagent.Agents.History.{release-cases}

-- The requested evidence is the evidence that is recorded.
pub record Passed (environment : Environment) (db : Db) (r : ReleaseRequest) : Type 0 where
  pub policy : AgentEvaluationPolicy
  pub run : EvaluationRun
  pub enabled : find_policy environment r.organization_id r.agent_id true db ≡ some policy
  pub listed : r.evaluation_run_id ≡ some run.id
  pub evidence : is_evidence r.organization_id r.agent_id r.version_id policy run.id run ≡ true
  pub recorded :
      find (is_evidence r.organization_id r.agent_id r.version_id policy run.id) db.evaluation_runs
      ≡ some run
  pub current : str_eq run.policy_digest policy.policy_digest ≡ true
  pub finished : is_completed run.status ≡ true
  pub succeeded : run.gate_passed ≡ some true

assess_run-passed :
    (policy : AgentEvaluationPolicy) (run : EvaluationRun)
    → (assess_run policy run).passed ≡ true
    → (str_eq run.policy_digest policy.policy_digest ≡ true)
      × (is_completed run.status ≡ true)
      × (run.gate_passed ≡ some true)
assess_run-passed policy run h = ground arith

assess_run-id :
    (policy : AgentEvaluationPolicy) (run : EvaluationRun)
    → (assess_run policy run).evaluation_run_id ≡ some run.id
assess_run-id policy run = ground arith

assess_release-Passed :
    (environment : Environment) (db : Db) (r : ReleaseRequest)
    → (assess_release environment db r.organization_id r.agent_id r.version_id
        r.evaluation_run_id).passed
      ≡ true
    → Passed environment db r
unfolding assess_release
assess_release-Passed environment db r h =
    elim (Option-cases (find_policy environment r.organization_id r.agent_id true db)) [
      | inl missing ↦ absurd (true-false (sym (rw (missing, assess_release) at h)))
      | inr (policy, p) ↦ elim (Option-cases r.evaluation_run_id) [
        | inl missing ↦ absurd (true-false (sym (rw (p, assess_release, missing) at h)))
        | inr (id, i) ↦
            let test = is_evidence r.organization_id r.agent_id r.version_id policy id in
            elim (Option-cases (find test db.evaluation_runs)) [
              | inl missing ↦ absurd (true-false (sym (rw (p, assess_release, i, missing) at h)))
              | inr (run, found_run) ↦
                  let good : (assess_run policy run).passed ≡ true =
                    rw (p, assess_release, i, found_run) at h in
                  let (current, finished, succeeded) = assess_run-passed policy run good in
                  let held =
                    (find-All (λ _. Unit {0}) test db.evaluation_runs {a = run}
                      (All-unit db.evaluation_runs) found_run).1 in
                  let same : run.id ≡ id = ground (arith, held) in
                  record {
                    policy = policy;
                    run = run;
                    enabled = p;
                    listed = i ∙ ap some (sym same);
                    evidence =
                        subst
                          (λ j.
                            is_evidence r.organization_id r.agent_id r.version_id policy j run
                            ≡ true)
                          (sym same) held;
                    recorded =
                        subst
                          (λ j.
                            find (is_evidence r.organization_id r.agent_id r.version_id policy j)
                              db.evaluation_runs
                            ≡ some run)
                          (sym same) found_run;
                    current = current;
                    finished = finished;
                    succeeded = succeeded;
                  }
            ]
      ]
    ]

-- The evidence that an assessment names is the one asked for.
assess_release-id :
    (environment : Environment) (db : Db) (o a v : ℕ) (id : Option ℕ)
    → ((assess_release environment db o a v id).evaluation_run_id ≡ none)
      ⊎ ((assess_release environment db o a v id).evaluation_run_id ≡ id)
unfolding assess_release
assess_release-id environment db o a v none =
    elim (Option-cases (find_policy environment o a true db)) [
      | inl missing ↦ rw (missing, assess_release) (inl refl)
      | inr (policy, p) ↦ rw (p, assess_release) (inl refl)
    ]
assess_release-id environment db o a v (some id) =
    elim (Option-cases (find_policy environment o a true db)) [
      | inl missing ↦ rw (missing, assess_release) (inl refl)
      | inr (policy, p) ↦
          elim (Option-cases (find (is_evidence o a v policy id) db.evaluation_runs)) [
            | inl missing ↦ rw (p, assess_release, missing) (inl refl)
            | inr (run, found_run) ↦
                let held =
                  (find-All (λ _. Unit {0}) (is_evidence o a v policy id) db.evaluation_runs
                    {a = run} (All-unit db.evaluation_runs) found_run).1 in
                let same : run.id ≡ id = ground (arith, held) in
                rw (p, assess_release, found_run) (inr (assess_run-id policy run ∙ ap some same))
          ]
    ]

module _ (s : AgentControlService) (who : Tables) (r : ReleaseRequest) where
  assessed_gate-Passed :
      (db : Db) {gate : GateResult}
      → assessed_gate s r db ≡ returns gate
      → is_required s.evaluation_gate_mode ≡ true
      → Passed s.environment db r
  unfolding assessed_gate
  assessed_gate-Passed db {gate} e must =
      let (_, e1) = require-returns _ _ _ e in
      let (passed, _) = require-returns _ _ _ e1 in
      assess_release-Passed s.environment db r (ground (arith, passed))

  release_gate-Passed :
      (db : Db) {gate : GateResult}
      → release_gate s r db ≡ returns gate
      → is_required s.evaluation_gate_mode ≡ true
      → is_production s.environment ≡ false
      → r.bypass_gate ≡ false
      → Passed s.environment db r
  unfolding release_gate
  release_gate-Passed db {gate} e must env bypass = elim (Bool-cases s.evaluations) [
    | inl given ↦
        let e1 : assessed_gate s r db ≡ returns gate = ground arith in
        assessed_gate-Passed db e1 must
    | inr absent ↦
        let e1 : require (not (is_required s.evaluation_gate_mode))
              (conflict "Evaluation release gate is unavailable.")
              (returns (record {
                evaluation_run_id = none;
                decision = "unavailable";
                policy_digest = none;
              }))
            ≡ returns gate =
          ground arith in
        absurd (true-false (sym (ground (arith, (require-returns _ _ _ e1).0))))
  ]

  -- What a release that returns has passed, when it did not find an earlier one.
  new_deployment-gate :
      (fresh : ℕ) (reason : String) (db : Db) {made : AgentRelease} {d : AgentDeployment} {db' : Db}
      → new_deployment s fresh r reason db ≡ returns (made, d, db')
      → (gate : GateResult) × (release_gate s r db ≡ returns gate)
        × (made
            ≡ new_release s fresh r reason gate
                (version_of (find_deployment r.organization_id r.agent_id s.environment db)))
  unfolding new_deployment
  new_deployment-gate fresh reason db {made} {d} {db'} e =
      let (_, _, e1) = found-returns _ _ _ e in
      let (gate, gated, e2) = after-returns _ _ e1 in
      let (_, e3) = require-returns _ _ _ e2 in
      let (_, e4) = require-returns _ _ _ e3 in
      let (_, e5) = require-returns _ _ _ e4 in
      let (_, _, e6) = after-returns _ _ e5 in
      let (_, e7) = require-returns _ _ _ e6 in
      (
        gate,
        gated,
        sym (ap (λ (x : AgentRelease × AgentDeployment × Db). x.0) (returns_injective e7)),
      )

  -- Where the gate is required, outside of production and without a bypass: a release that returns had
  -- been made before, and wrote nothing, or the request names an evaluation run of that version, under
  -- the enabled policy of the agent as it is now, that is completed and has passed.
  pub release-Passed :
      (fresh : ℕ) (before db : Db) {made : AgentRelease} {d : AgentDeployment} {db' : Db}
      → release s who fresh r before db ≡ returns (made, d, db')
      → is_required s.evaluation_gate_mode ≡ true
      → is_production s.environment ≡ false
      → r.bypass_gate ≡ false
      → (db' ≡ db) ⊎ Passed s.environment db r
  release-Passed fresh before db {made} {d} {db'} e must env bypass =
      elim (release-cases s who fresh r before db e) [
        | inl same ↦ inl same
        | inr (reason, _, _, new) ↦
            let (gate, gated, _) = new_deployment-gate fresh reason db new in
            inr (release_gate-Passed db gated must env bypass)
      ]

  -- Take any history of the evaluation runs from a table without a repeated id, whose columns agree with
  -- the status of each run. Where the gate is required, outside of production and without a bypass, a
  -- release that returns had been made before, and wrote nothing, or it names a run that the table holds
  -- under that id, of the version to release, that is completed and was not asked to cancel, whose share of passed cases is at least the one it was queued
  -- with, and of whose critical cases no more failed than it was queued with.
  pub release-meets_policy :
      {start : Db} (fresh : ℕ) (before db : Db) {made : AgentRelease} {d : AgentDeployment}
      {db' : Db}
      → AreDistinct start.evaluation_runs
      → All RunOk start.evaluation_runs
      → Reach start db
      → release s who fresh r before db ≡ returns (made, d, db')
      → is_required s.evaluation_gate_mode ≡ true
      → is_production s.environment ≡ false
      → r.bypass_gate ≡ false
      → (db' ≡ db)
        ⊎ ((run : EvaluationRun) × (r.evaluation_run_id ≡ some run.id)
            × (find (has_id run.id) db.evaluation_runs ≡ some run)
            × (run.agent_version_id ≡ r.version_id)
            × (is_completed run.status ≡ true)
            × (run.cancellation_requested_at ≡ none)
            × (run.min_pass_rate * run.total_cases ≤ run.passed_cases * 1000000)
            × (run.critical_failures ≤ run.max_critical_failures))
  release-meets_policy fresh before db distinct ok history e must env bypass =
      elim (release-Passed fresh before db e must env bypass) [
        | inl same ↦ inl same
        | inr p ↦
            let (unique, all) = Reach-RunOk distinct ok history in
            let evidence = p.evidence in
            let good = (find-All RunOk _ db.evaluation_runs all p.recorded).0 in
            let gate = good.gate p.finished in
            let meets : meets_policy p.run ≡ true = some_injective (sym gate ∙ p.succeeded) in
            let unasked = good.unasked p.finished in
            inr (
              p.run,
              p.listed,
              find-id _ db.evaluation_runs {run = p.run} unique p.recorded,
              ground (arith, evidence),
              p.finished,
              ground (arith, unasked),
              ground (arith, meets),
              ground (arith, meets),
            )
      ]
