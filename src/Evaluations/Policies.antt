-- ===== src/Evaluations/Policies.antt =====
-- `EvaluationService.upsert_policy` and `create_run` (evaluations/service.py). Rates are in millionths.
use aiagent.Evaluations.Suite.{EvaluationService, policy_digest, validate_suite}
use aiagent.Evaluations.Datasets.{verified_version}
use aiagent.Evaluations.Gate.{find_policy}
use aiagent.Evaluations.Rows.{
  AgentEvaluationPolicy, EvaluationRun, Db, active_agent, agent_missing, find_version, add_entry,
  user_audit, EvaluationDatasetVersion, EvaluationRunStatus,
}
use aiagent.Agents.Rows.{env_eq, AgentVersion}
use aiagent.Identity.Rows.{Tables}
use aiagent.Identity.Access.{access}
use aiagent.Errors.{
  Attempt, after, require, found, conflict, returns, ServiceError, resource_not_found, raises,
}
use aiagent.Prelude.{
  ℕ, Bool, Option, ℤ, pos_part, ◌==◌, List, some, String, none, ◌&&◌, ◌∷◌, leb_ℤ, find, ◌||◌, true,
  false, ◌+◌, pos, opt_is, length, update, not, str_eq, if◌then◌else◌, ltb_ℤ, any,
}
use aiagent.Audit.{AuditRequest}
use aiagent.Agents.Release.{real_key}
use aiagent.Json.{field, num, bool, str, end}

-- The arguments of the policy.
pub record PolicyRequest : Type 0 where
  pub actor_id : ℕ
  pub organization_id : ℕ
  pub agent_id : ℕ
  pub expected_revision : ℕ
  pub dataset_version_id : ℕ
  pub min_pass_rate : ℤ
  pub max_critical_failures : ℤ
  pub is_enabled : Bool

-- The columns that both branches write, for a row of an id and a revision.
abbrev pub new_policy : EvaluationService → ℕ → ℕ → PolicyRequest → AgentEvaluationPolicy
new_policy s id revision r = record {
  id = id;
  organization_id = r.organization_id;
  agent_id = r.agent_id;
  environment = s.environment;
  dataset_version_id = r.dataset_version_id;
  revision = revision;
  min_pass_rate = pos_part r.min_pass_rate;
  max_critical_failures = pos_part r.max_critical_failures;
  is_enabled = r.is_enabled;
  policy_digest =
      policy_digest s.tools r.agent_id s.environment r.dataset_version_id revision
        (pos_part r.min_pass_rate) (pos_part r.max_critical_failures) r.is_enabled;
  updated_by = r.actor_id;
}

abbrev pub is_policy_of : EvaluationService → PolicyRequest → AgentEvaluationPolicy → Bool
is_policy_of s r p =
    (p.organization_id == r.organization_id)
    && ((p.agent_id == r.agent_id) && env_eq p.environment s.environment)

-- The row that is inserted or changed, and the table with it.
unfoldable pub upserted :
    EvaluationService
    → ℕ
    → PolicyRequest
    → Option AgentEvaluationPolicy
    → List AgentEvaluationPolicy
    → Attempt (AgentEvaluationPolicy × List AgentEvaluationPolicy)
upserted s fresh r none policies =
    require (r.expected_revision == 0)
      (conflict "Evaluation policy does not exist at that revision.")
      (returns (new_policy s fresh 1 r, new_policy s fresh 1 r ∷ policies))
upserted s fresh r (some policy) policies =
    require (policy.revision == r.expected_revision)
      (conflict "Evaluation policy revision is stale.")
      (let policy' = new_policy s policy.id (policy.revision + 1) r in
        returns (policy', update (is_policy_of s r) (λ _. policy') policies))

abbrev pub policy_audit : PolicyRequest → AgentEvaluationPolicy → AuditRequest
policy_audit r policy =
    user_audit r.organization_id r.actor_id "evaluation.policy_updated" "agent_evaluation_policy"
      (some policy.id) none
      (field "agent_id" (num r.agent_id) (
        field "revision" (num policy.revision) (
          field "dataset_version_id" (num r.dataset_version_id) (
            field "min_pass_rate" (num policy.min_pass_rate) (
              field "max_critical_failures" (num policy.max_critical_failures) (
                field "enabled" (bool r.is_enabled)
                  (field "policy_digest" (str policy.policy_digest) end)))))))

unfoldable pub upsert_policy :
    EvaluationService → Tables → ℕ → PolicyRequest → Db → Attempt (AgentEvaluationPolicy × Db)
upsert_policy s who fresh r db =
    after (access r.actor_id r.organization_id (some "eval:policy:manage") who) λ _.
      require (leb_ℤ (pos 0) r.min_pass_rate && leb_ℤ r.min_pass_rate (pos 1000000))
        (conflict "Evaluation policy pass rate must be between zero and one.")
        (require (not (ltb_ℤ r.max_critical_failures (pos 0)))
          (conflict "Evaluation policy critical failure limit cannot be negative.")
          (found (active_agent r.organization_id r.agent_id db) agent_missing λ agent.
            after (verified_version s r.organization_id r.dataset_version_id db) λ _.
              after
                (upserted s fresh r
                  (find_policy s.environment r.organization_id r.agent_id false db) db.policies)
                λ result. returns (
                  result.0,
                  add_entry (policy_audit r result.0) (record db { policies = result.1 }),
                )))

-- The arguments of a run.
pub record RunRequest : Type 0 where
  pub actor_id : ℕ
  pub organization_id : ℕ
  pub agent_id : ℕ
  pub agent_version_id : ℕ
  pub idempotency_key : Option String
  pub trace_id : ℕ

abbrev pub has_run_key : ℕ → String → EvaluationRun → Bool
has_run_key organization_id key run =
    (run.organization_id == organization_id) && opt_is str_eq run.idempotency_key key

-- The run of an earlier call with the key, if the request has one.
abbrev pub existing_run : RunRequest → Db → Option EvaluationRun
existing_run r db = elim (real_key r.idempotency_key) [
  | none ↦ none
  | some key ↦ find (has_run_key r.organization_id key) db.evaluation_runs
]

abbrev pub is_same_run : RunRequest → EvaluationRun → Bool
is_same_run r run = (run.agent_id == r.agent_id) && (run.agent_version_id == r.agent_version_id)

abbrev pub new_run :
    ℕ
    → ℕ
    → RunRequest
    → AgentVersion
    → AgentEvaluationPolicy
    → EvaluationDatasetVersion
    → ℕ
    → EvaluationRun
new_run fresh now r version policy dataset_version total = record {
  id = fresh;
  organization_id = r.organization_id;
  agent_id = r.agent_id;
  agent_version_id = r.agent_version_id;
  agent_config_digest = version.config_digest;
  dataset_version_id = dataset_version.id;
  policy_id = policy.id;
  policy_digest = policy.policy_digest;
  min_pass_rate = policy.min_pass_rate;
  max_critical_failures = policy.max_critical_failures;
  requested_by = r.actor_id;
  trace_id = r.trace_id;
  idempotency_key = r.idempotency_key;
  status = EvaluationRunStatus.queued;
  total_cases = total;
  passed_cases = 0;
  critical_failures = 0;
  pass_rate = none;
  gate_passed = none;
  error_code = none;
  cancellation_requested_at = none;
  started_at = none;
  completed_at = none;
  created_at = now;
}

-- The two constraints whose violation is an `IntegrityError`: the key of the organization, also where
-- it is empty, and the trace.
abbrev pub is_taken : RunRequest → EvaluationRun → Bool
is_taken r run =
    (run.trace_id == r.trace_id)
    || elim r.idempotency_key [ none ↦ false | some key ↦ has_run_key r.organization_id key run ]

abbrev pub run_conflict : ServiceError
run_conflict = conflict "Evaluation run conflicts with an existing run."

-- What follows a failed insertion.
abbrev pub after_conflict : RunRequest → Db → Attempt (EvaluationRun × Bool × Db)
after_conflict r db = elim (existing_run r db) [
  | none ↦ raises run_conflict
  | some run ↦ require (is_same_run r run) run_conflict (returns (run, false, db))
]

unfoldable pub insert_run : RunRequest → EvaluationRun → Db → Attempt (EvaluationRun × Bool × Db)
insert_run r run db =
    if any (is_taken r) db.evaluation_runs
    then after_conflict r db
    else returns (
      run,
      true,
      add_entry
          (user_audit r.organization_id r.actor_id "evaluation.run_queued" "evaluation_run"
            (some run.id) (some run.trace_id)
            (field "agent_id" (num r.agent_id) (
              field "agent_version_id" (num r.agent_version_id) (
                field "dataset_version_id" (num run.dataset_version_id)
                  (field "policy_digest" (str run.policy_digest) end)))))
          (record db { evaluation_runs = run ∷ db.evaluation_runs }),
    )

-- The part that inserts a run.
unfoldable pub queue_run :
    EvaluationService → ℕ → ℕ → RunRequest → Db → Attempt (EvaluationRun × Bool × Db)
queue_run s fresh now r db =
    found (active_agent r.organization_id r.agent_id db) agent_missing λ agent.
      found (find_version r.organization_id r.agent_id r.agent_version_id db)
        (resource_not_found "Agent version not found.")
        λ version.
          found (find_policy s.environment r.organization_id r.agent_id true db)
            (conflict "Agent has no enabled evaluation policy.")
            λ policy.
              after (verified_version s r.organization_id policy.dataset_version_id db) λ verified.
                validate_suite s verified.1 (
                  insert_run r
                    (new_run fresh now r version policy verified.0 (length verified.1.cases)) db)

-- `before` are the tables that the test of the key reads; other transactions can commit between it and
-- the rest.
unfoldable pub create_run :
    EvaluationService → Tables → ℕ → ℕ → RunRequest → Db → Db → Attempt (EvaluationRun × Bool × Db)
create_run s who fresh now r before db =
    after (access r.actor_id r.organization_id (some "eval:run:create") who) λ _.
      elim (existing_run r before) [
        | none ↦ queue_run s fresh now r db
        | some run ↦
            require (is_same_run r run)
              (conflict "Idempotency key was used for another evaluation run.")
              (returns (run, false, db))
      ]
