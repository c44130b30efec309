-- ===== src/Runs/Durable.antt =====
-- How an executor ends a Run, and its job with it: `complete_run` and `finish_run_with_error` of
-- conversations/service.py. Each is one transaction; the clock and the id of the new message are
-- arguments.
use aiagent.Prelude.{
  ℕ, Bool, true, false, ◌&&◌, not, Option, none, some, String, ◌==◌, find, update, is_some,
  if◌then◌else◌,
}
use aiagent.Json.{str, field}
use aiagent.Runs.Rows.{
  RunStatus, RunJobStatus, Run, RunJob, RunStep, Db, is_terminal, is_running, job_status_value,
  find_run, save_job, save_run, add_audit, count_metric,
}
use aiagent.Runs.Leases.{JobLease, clear_lease, holds, finish_attempt, job_audit, run_audit}
use aiagent.Runs.Jobs.{job_action}
use aiagent.Runs.Answers.{
  Completion, Failure, completion_details, Answers, usage_details, completed_answers, failure_usage,
  add_model_usage,
}

-- `_lock_durable_job`.
abbrev pub durable_test : ℕ → ℕ → JobLease → RunJob → Bool
durable_test run_id now lease job = holds lease now job && (job.run_id == run_id)

unfoldable pub lock_durable_job : ℕ → Option JobLease → ℕ → Db → Option RunJob
lock_durable_job run_id none now db = none
lock_durable_job run_id (some lease) now db = find (durable_test run_id now lease) db.jobs

-- `_finalize_durable_job`.
unfoldable pub finalize_durable_job : Run → RunJob → JobLease → RunJobStatus → ℕ → Db → Db
finalize_durable_job run job lease status now db =
    let job' : RunJob =
      clear_lease (record job { status = status; last_error_code = run.error_code }) in
    let value = job_status_value status in
    count_metric value (
      add_audit (job_audit job' run (job_action status) lease.attempt_number)
        (finish_attempt lease value run.error_code now (save_job job' db)))

-- `if job is not None and job_lease is not None`.
abbrev pub finalized : Run → Option RunJob → Option JobLease → RunJobStatus → ℕ → Db → Db
finalized run (some job) (some lease) status now db =
    finalize_durable_job run job lease status now db
finalized run none lease status now db = db
finalized run (some job) none status now db = db

-- `job_lease is not None and (job is None or job.execution_started_at is None)`.
abbrev pub is_unstarted : Option JobLease → Option RunJob → Bool
is_unstarted none job = false
is_unstarted (some lease) none = true
is_unstarted (some lease) (some job) = not (is_some job.execution_started_at)

-- `job_lease is not None and job is None`.
abbrev pub is_lost : Option JobLease → Option RunJob → Bool
is_lost none job = false
is_lost (some lease) job = not (is_some job)

-- The first step of a Run ends with a status.
abbrev end_step : Run → String → ℕ → Db → Db
end_step run status now db = record db {
  steps =
      update (λ s. (s.run_id == run.id) && (s.sequence == 1))
        (λ (s : RunStep). record s { status = status; completed_at = some now }) db.steps;
}

abbrev pub completed_durable : ℕ → Completion → Run → Option RunJob → Option JobLease → ℕ → Db → Db
completed_durable fresh c run job lease now db =
    let run' : Run = record run {
      assistant_message_id = some fresh;
      status = RunStatus.completed;
      completed_at = some now;
    } in
    finalized run' job lease RunJobStatus.succeeded now (
      add_audit (run_audit run' "run.completed" (completion_details c))
        (end_step run' "completed" now (save_run run' db)))

-- Nothing is written for a Run that is missing or not running.
abbrev pub complete_found :
    ℕ
    → Completion
    → Option Run
    → Option RunJob
    → Option JobLease
    → ℕ
    → Answers
    → Db
    → Bool × Answers × Db
complete_found fresh c none job lease now answers db = (false, answers, db)
complete_found fresh c (some run) job lease now answers db =
    if is_running run.status
    then (
      true,
      completed_answers fresh c run answers,
      completed_durable fresh c run job lease now db,
    )
    else (false, answers, db)

unfoldable pub complete_run :
    ℕ → ℕ → Completion → Option JobLease → ℕ → Answers × Db → Bool × Answers × Db
complete_run fresh run_id c lease now (answers, db) =
    let job = lock_durable_job run_id lease now db in
    if is_unstarted lease job
    then (false, answers, db)
    else complete_found fresh c (find_run run_id db) job lease now answers db

-- `RunStatus.value`, and f"run.{status.value}".
abbrev run_status_value : RunStatus → String
run_status_value RunStatus.queued = "queued"
run_status_value RunStatus.running = "running"
run_status_value RunStatus.completed = "completed"
run_status_value RunStatus.failed = "failed"
run_status_value RunStatus.cancelled = "cancelled"
run_status_value RunStatus.timed_out = "timed_out"

abbrev run_action : RunStatus → String
run_action RunStatus.queued = "run.queued"
run_action RunStatus.running = "run.running"
run_action RunStatus.completed = "run.completed"
run_action RunStatus.failed = "run.failed"
run_action RunStatus.cancelled = "run.cancelled"
run_action RunStatus.timed_out = "run.timed_out"

-- CANCELLED if the Run was cancelled, FAILED otherwise.
abbrev pub error_job_status : RunStatus → RunJobStatus
error_job_status RunStatus.cancelled = RunJobStatus.cancelled
error_job_status _ = RunJobStatus.failed

abbrev failed_durable : Failure → Run → Option RunJob → Option JobLease → ℕ → Db → Db
failed_durable f run job lease now db =
    let run' : Run = record run {
      status = f.status;
      error_code = some f.error_code;
      error_message = some f.public_message;
      completed_at = some now;
    } in
    finalized run' job lease (error_job_status f.status) now (
      add_audit
        (run_audit run' (run_action f.status)
          (field "error_code" (str f.error_code) (usage_details (failure_usage f run))))
        (end_step run' (run_status_value f.status) now (save_run run' db)))

-- Nothing is written for a Run that is missing or over.
abbrev pub fail_found :
    Failure → Option Run → Option RunJob → Option JobLease → ℕ → Answers → Db → Bool × Answers × Db
fail_found f none job lease now answers db = (false, answers, db)
fail_found f (some run) job lease now answers db =
    if is_terminal run.status then (false, answers, db) else (
      true,
      add_model_usage (failure_usage f run) answers,
      failed_durable f run job lease now db,
    )

unfoldable pub finish_run_with_error :
    ℕ → Failure → Option JobLease → ℕ → Answers × Db → Bool × Answers × Db
finish_run_with_error run_id f lease now (answers, db) =
    let job = lock_durable_job run_id lease now db in
    if is_lost lease job
    then (false, answers, db)
    else fail_found f (find_run run_id db) job lease now answers db
