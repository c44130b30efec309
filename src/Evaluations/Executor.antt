-- ===== src/Evaluations/Executor.antt =====
-- `EvaluationExecutor._execute` of evaluations/executor.py: a run over all cases of its dataset.
use aiagent.Evaluations.Cases.{EvaluationExecutor, execute_case}
use aiagent.Agents.Single.{run}
use aiagent.Agents.Config.{AgentVersionConfig}
use aiagent.Agents.Resolve.{load_run_config}
use aiagent.Evaluations.Rows.{Db, EvaluationRun}
use aiagent.Evaluations.Suite.{EvaluationCaseSpec, EvaluationSuite}
use aiagent.Evaluations.Execution.{claim_run, mark_cancelled, load_suite, is_cancel_requested}
use aiagent.Evaluations.Completion.{EvaluationCaseOutcome, complete_run, fail_run}
use aiagent.Errors.{Attempt, returns, raises, after}
use aiagent.Prelude.{Option, List, String, ℕ, ◌∷◌, Bool, ◌++◌, none, if◌then◌else◌, some, [], ◌+◌}

-- What a run meets: the time of each transaction, what others commit before it, the rows they have
-- locked then, whether the task is cancelled (the service shuts down) while it awaits the step with a
-- number, whether it is cancelled again while an `except` clause writes, and the duration of each case.
pub record Surroundings : Type 0 where
  pub now : ℕ → ℕ
  pub between : ℕ → Db → Db
  pub free : EvaluationRun → Bool
  pub shut_down : ℕ → Bool
  pub handler_cut : Bool
  pub duration : ℕ → ℕ
  pub trace_text : ℕ → String

-- What an `except` clause writes, and what there is if it is cancelled before it commits.
abbrev pub handled : Surroundings → Db → Db → Db
handled w written seen = if w.handler_cut then seen else written

-- How the loop over the cases ends.
pub data CasesEnd : Type 0 where
  all_done : List EvaluationCaseOutcome → CasesEnd
  cancelled_case shut_down_case : CasesEnd

module _ (x : EvaluationExecutor) (w : Surroundings) where
  -- The loop over the cases, from the transaction with a number; other transactions come between two of
  -- them, so the tables and the next number come back.
  unfoldable pub execute_cases :
      EvaluationRun
      → AgentVersionConfig
      → List EvaluationCaseSpec
      → List EvaluationCaseOutcome
      → ℕ
      → Db
      → CasesEnd × ℕ × Db
  execute_cases run config [] outcomes k db = (all_done outcomes, k, db)
  execute_cases run config (case ∷ cases) outcomes k db =
      let seen = w.between k db in
      let one = execute_case x (w.duration k) (w.trace_text run.trace_id) config case in
      let rest = execute_cases run config cases (outcomes ++ (one ∷ [])) (k + 1) seen in
      if w.shut_down k
      then (shut_down_case, k, seen)
      else if is_cancel_requested run.id seen
      then (cancelled_case, k, seen)
      else rest

  -- The end of the `try` and its `except` clauses. A cancellation comes before `complete_run` commits or
  -- after that.
  unfoldable pub finish_cases : ℕ → CasesEnd × ℕ × Db → Db
  finish_cases run_id (end, k, db) =
      let seen = w.between (k + 1) db in
      let later = w.between (k + 2) seen in
      let shut = handled w (fail_run (w.now k) run_id "service_shutdown" seen) seen in
      elim end [
        | cancelled_case ↦ handled w (mark_cancelled (w.now k) run_id seen) seen
        | shut_down_case ↦ shut
        | all_done outcomes ↦
            if w.shut_down k then shut else elim (complete_run (w.now k) run_id outcomes seen) [
              | returns done ↦
                  let after_it = w.between (k + 2) done.1 in
                  if w.shut_down (k + 1)
                  then handled w (fail_run (w.now (k + 1)) run_id "service_shutdown" after_it)
                      after_it
                  else done.1
              | raises _ ↦
                  handled w (fail_run (w.now (k + 1)) run_id "evaluation_execution_failed" later)
                    later
            ]
      ]

  -- What a run needs before its cases.
  abbrev pub prepare : EvaluationRun → Db → Attempt (AgentVersionConfig × EvaluationSuite)
  prepare run db =
      after
        (load_run_config x.agent_control run.organization_id run.agent_id run.agent_version_id
          run.agent_config_digest db)
        λ config. after (load_suite x.evaluations run db) λ suite. returns (config, suite)

  -- `_execute`; the run that was claimed, and the tables.
  unfoldable pub execute : ℕ → Db → Option EvaluationRun × Db
  execute run_id db =
      let claimed = claim_run w.free (w.now 0) run_id (w.between 0 db) in
      elim claimed.0 [
        | none ↦ claimed
        | some run ↦
            let seen = w.between 1 claimed.1 in
            let later = w.between 2 seen in
            (
              some run,
              if w.shut_down 1
                  then handled w (fail_run (w.now 2) run_id "service_shutdown" later) later
                  else elim (prepare run seen) [
                    | raises _ ↦
                        handled w (fail_run (w.now 2) run_id "evaluation_execution_failed" later)
                          later
                    | returns ready ↦
                        finish_cases run_id (execute_cases run ready.0 ready.1.cases [] 2 seen)
                  ],
            )
      ]
