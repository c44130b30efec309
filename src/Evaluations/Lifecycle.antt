-- ===== src/Evaluations/Lifecycle.antt =====
-- The life of a row of evaluation runs (evaluations/service.py) as a step relation, and of the table;
-- the children are about the methods as steps of it and about every history.
pub mod Rows
pub mod Methods
pub mod Recovering
pub mod Reachable
use aiagent.Evaluations.Rows.{EvaluationRun, EvaluationRunStatus}
use aiagent.Evaluations.Execution.{is_open, is_queued, is_running, cancelled_run, started_run}
use aiagent.Evaluations.Completion.{
  EvaluationCaseOutcome, completed_run, failed_run, rate_of, rate_reaches, passed_count,
  critical_count,
}
use aiagent.Evaluations.Gate.{is_completed}
use aiagent.Prelude.{
  ℕ, Bool, is_some, List, ◌≡◌, arith, true, ◌&&◌, not, ◌+◌, false, leb, some, ◌≤◌, Option, length,
  String, ◌∷◌, [], refl,
}

pub data RunStep : EvaluationRun → EvaluationRun → Type 0 where
  start :
      (run : EvaluationRun) (now : ℕ)
      → is_queued run.status ≡ true
      → is_some run.cancellation_requested_at ≡ false
      → RunStep run (started_run now run)
  ask :
      (run : EvaluationRun) (now : ℕ)
      → is_running run.status ≡ true
      → RunStep run (record run { cancellation_requested_at = some now })
  cancel :
      (run : EvaluationRun) (now : ℕ) (asked : Option ℕ)
      → is_open run.status ≡ true
      → is_some asked ≡ true
      → RunStep run (record (cancelled_run now run) { cancellation_requested_at = asked })
  complete :
      (run : EvaluationRun) (now : ℕ) (outcomes : List EvaluationCaseOutcome)
      → is_running run.status ≡ true
      → is_some run.cancellation_requested_at ≡ false
      → RunStep run (completed_run now outcomes run)
  fail :
      (run : EvaluationRun) (now : ℕ) (code : String)
      → is_open run.status ≡ true
      → RunStep run (failed_run now code run)

abbrev pub is_cancelled : EvaluationRunStatus → Bool
is_cancelled EvaluationRunStatus.cancelled = true
is_cancelled _ = false

abbrev pub is_failed : EvaluationRunStatus → Bool
is_failed EvaluationRunStatus.failed = true
is_failed _ = false

-- What the counts of a run say about its gate.
abbrev pub meets_policy : EvaluationRun → Bool
meets_policy run =
    rate_reaches (rate_of run.passed_cases run.total_cases) run.min_pass_rate
    && leb run.critical_failures run.max_critical_failures

-- The columns of a row agree with its status.
pub record RunOk (run : EvaluationRun) : Type 0 where
  pub closed : is_some run.completed_at ≡ not (is_open run.status)
  pub judged : is_some run.gate_passed ≡ is_completed run.status
  pub gate : is_completed run.status ≡ true → run.gate_passed ≡ some (meets_policy run)
  pub counts : run.passed_cases + run.critical_failures ≤ run.total_cases
  pub asked : is_cancelled run.status ≡ true → is_some run.cancellation_requested_at ≡ true
  pub unasked : is_completed run.status ≡ true → is_some run.cancellation_requested_at ≡ false
  pub error : is_some run.error_code ≡ is_failed run.status

passed-critical :
    (outcomes : List EvaluationCaseOutcome)
    → passed_count outcomes + critical_count outcomes ≤ length outcomes
passed-critical [] = omega arith
passed-critical (item ∷ outcomes) = ground (arith, passed-critical outcomes)

pub RunStep-id : {run run' : EvaluationRun} → RunStep run run' → run'.id ≡ run.id
RunStep-id (start run now h k) = refl
RunStep-id (ask run now h) = refl
RunStep-id (cancel run now asked h k) = refl
RunStep-id (complete run now outcomes h k) = refl
RunStep-id (fail run now code h) = refl

-- Only rows that are open change.
pub RunStep-is_open : {run run' : EvaluationRun} → RunStep run run' → is_open run.status ≡ true
RunStep-is_open (start run now h k) = ground arith
RunStep-is_open (ask run now h) = ground arith
RunStep-is_open (cancel run now asked h k) = h
RunStep-is_open (complete run now outcomes h k) = ground arith
RunStep-is_open (fail run now code h) = h

pub RunStep-RunOk : {run run' : EvaluationRun} → RunStep run run' → RunOk run → RunOk run'
RunStep-RunOk (start run now h k) ok = record {
  closed = ground (arith, ok.closed);
  judged = ground (arith, ok.judged);
  gate = λ e. ground arith;
  counts = ok.counts;
  asked = λ e. ground arith;
  unasked = λ e. ground arith;
  error = ground (arith, ok.error);
}
RunStep-RunOk (ask run now h) ok = record {
  closed = ok.closed;
  judged = ok.judged;
  gate = ok.gate;
  counts = ok.counts;
  asked = λ e. refl;
  unasked = λ e. ground arith;
  error = ok.error;
}
RunStep-RunOk (cancel run now asked h k) ok = record {
  closed = refl;
  judged = ground (arith, ok.judged);
  gate = λ e. ground arith;
  counts = ok.counts;
  asked = λ e. k;
  unasked = λ e. ground arith;
  error = ground (arith, ok.error);
}
RunStep-RunOk (complete run now outcomes h k) ok = record {
  closed = refl;
  judged = refl;
  gate = λ e. refl;
  counts = passed-critical outcomes;
  asked = λ e. ground arith;
  unasked = λ e. k;
  error = ground (arith, ok.error);
}
RunStep-RunOk (fail run now code h) ok = record {
  closed = refl;
  judged = ground (arith, ok.judged);
  gate = λ e. ground arith;
  counts = ok.counts;
  asked = λ e. ground arith;
  unasked = λ e. ground arith;
  error = refl;
}
