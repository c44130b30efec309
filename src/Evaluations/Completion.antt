-- ===== src/Evaluations/Completion.antt =====
-- The methods of evaluations/service.py that end runs: `complete_run`, `fail_run` and
-- `recover_incomplete_runs`. `now` is the time of the call; `free` admits the rows that no other
-- transaction has locked.
use aiagent.Evaluations.Rows.{
  EvaluationRun, EvaluationRunStatus, EvaluationCaseResult, Db, add_entry,
}
use aiagent.Evaluations.Execution.{
  is_running, is_queued, find_run, save_run, run_audit, cancelled_run, open_run,
}
use aiagent.Errors.{Attempt, found, conflict, returns}
use aiagent.Prelude.{
  String, Bool, ℕ, List, Option, not, if◌then◌else◌, leb, length, some, none, ◌∷◌, ltb, keep, ◌&&◌,
  ◌==◌, ◌*◌, is_some, ◌||◌, str_eq, map, order_by, ◌++◌, [],
}
use aiagent.Audit.{AuditRequest}
use aiagent.Json.{field, num, str, arr, end, cons, nil, bool}

pub record EvaluationCaseOutcome : Type 0 where
  pub case_key : String
  pub severity : String
  pub passed : Bool
  pub reason : String
  pub used_tools : List String
  pub citations_count : ℕ
  pub answer_digest : Option String
  pub input_tokens : ℕ
  pub output_tokens : ℕ
  pub duration_ms : ℕ

abbrev pub is_critical_failure : EvaluationCaseOutcome → Bool
is_critical_failure item = not item.passed && str_eq item.severity "critical"

-- `passed_cases / total_cases if total_cases else 0.0`, as a fraction.
abbrev pub rate_of : ℕ → ℕ → ℕ × ℕ
rate_of passed_cases total_cases = if total_cases == 0 then (0, 1) else (passed_cases, total_cases)

-- The fraction is at least so many millionths.
abbrev pub rate_reaches : ℕ × ℕ → ℕ → Bool
rate_reaches rate min_pass_rate = leb (min_pass_rate * rate.1) (rate.0 * 1000000)

abbrev pub case_result : EvaluationRun → EvaluationCaseOutcome → EvaluationCaseResult
case_result run item = record {
  evaluation_run_id = run.id;
  organization_id = run.organization_id;
  case_key = item.case_key;
  severity = item.severity;
  passed = item.passed;
  reason = item.reason;
  used_tools = item.used_tools;
  citations_count = item.citations_count;
  answer_digest = item.answer_digest;
  input_tokens = item.input_tokens;
  output_tokens = item.output_tokens;
  duration_ms = item.duration_ms;
}

abbrev pub passed_count : List EvaluationCaseOutcome → ℕ
passed_count outcomes = length (keep (λ item. item.passed) outcomes)

abbrev pub critical_count : List EvaluationCaseOutcome → ℕ
critical_count outcomes = length (keep is_critical_failure outcomes)

abbrev pub gate_of : EvaluationRun → List EvaluationCaseOutcome → Bool
gate_of run outcomes =
    rate_reaches (rate_of (passed_count outcomes) (length outcomes)) run.min_pass_rate
    && leb (critical_count outcomes) run.max_critical_failures

abbrev pub completed_run : ℕ → List EvaluationCaseOutcome → EvaluationRun → EvaluationRun
completed_run now outcomes run = record run {
  total_cases = length outcomes;
  passed_cases = passed_count outcomes;
  critical_failures = critical_count outcomes;
  pass_rate = some (rate_of (passed_count outcomes) (length outcomes));
  gate_passed = some (gate_of run outcomes);
  status = EvaluationRunStatus.completed;
  completed_at = some now;
}

-- The rate is written as its two numbers.
abbrev pub completed_audit : EvaluationRun → List EvaluationCaseOutcome → AuditRequest
completed_audit run outcomes =
    let rate = rate_of (passed_count outcomes) (length outcomes) in
    run_audit run run.requested_by "evaluation.run_completed" (
      field "total_cases" (num (length outcomes)) (
        field "passed_cases" (num (passed_count outcomes)) (
          field "critical_failures" (num (critical_count outcomes)) (
            field "pass_rate" (arr (cons (num rate.0) (cons (num rate.1) nil)))
              (field "gate_passed" (bool (gate_of run outcomes)) end)))))

abbrev pub running_run : ℕ → Db → Option EvaluationRun
running_run run_id db = elim (find_run run_id db) [
  | none ↦ none
  | some run ↦ if is_running run.status then some run else none
]

unfoldable pub complete_run : ℕ → ℕ → List EvaluationCaseOutcome → Db → Attempt (EvaluationRun × Db)
complete_run now run_id outcomes db =
    found (running_run run_id db) (conflict "Evaluation run is no longer active.") λ run.
      if is_some run.cancellation_requested_at
      then returns (cancelled_run now run, save_run (cancelled_run now run) db)
      else (let run' = completed_run now outcomes run in
          let saved = save_run run' db in
          returns (
            run',
            add_entry (completed_audit run outcomes) (record saved {
              case_results = map (case_result run) outcomes ++ saved.case_results;
            }),
          ))

abbrev pub failed_run : ℕ → String → EvaluationRun → EvaluationRun
failed_run now error_code run = record run {
  status = EvaluationRunStatus.failed;
  error_code = some error_code;
  completed_at = some now;
}

unfoldable pub fail_run : ℕ → ℕ → String → Db → Db
fail_run now run_id error_code db = elim (open_run run_id db) [
  | none ↦ db
  | some run ↦
      add_entry
        (run_audit run run.requested_by "evaluation.run_failed"
          (field "error_code" (str error_code) end))
        (save_run (failed_run now error_code run) db)
]

abbrev pub interrupted : String
interrupted = "evaluation_interrupted"

-- The loop over the runs that were found running.
abbrev pub fail_runs : ℕ → List EvaluationRun → Db → Db
fail_runs now [] db = db
fail_runs now (run ∷ runs) db = fail_runs now runs (
    add_entry
      (run_audit run run.requested_by "evaluation.run_recovered_as_failed"
        (field "error_code" (str interrupted) end))
      (save_run (failed_run now interrupted run) db))

abbrev pub is_earlier : EvaluationRun → EvaluationRun → Bool
is_earlier a b = ltb a.created_at b.created_at || ((a.created_at == b.created_at) && ltb a.id b.id)

unfoldable pub recover_incomplete_runs : (EvaluationRun → Bool) → ℕ → Db → List EvaluationRun × Db
recover_incomplete_runs free now db =
    let running = keep (λ run. is_running run.status && free run) db.evaluation_runs in
    let recovered = fail_runs now running db in
    (order_by is_earlier (keep (λ run. is_queued run.status) recovered.evaluation_runs), recovered)
