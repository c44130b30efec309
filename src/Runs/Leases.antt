-- ===== src/Runs/Leases.antt =====
-- The parts that the methods of `RunJobService` share (runs/jobs.py).
use aiagent.Prelude.{
  ℕ, ◌*◌, ◌/◌, Bool, ◌&&◌, ◌||◌, not, Option, none, some, String, leb, ◌==◌, str_eq, if◌then◌else◌,
  is_some, opt_is, keep, find, update,
}
use aiagent.Json.{Fields, num, str, end, field}
use aiagent.Audit.{AuditRequest}
use aiagent.Runs.Rows.{
  RunStatus, RunJobStatus, Run, RunJob, RunJobAttempt, RunStep, Db, is_terminal, is_running,
  is_leased, find_run, save_run, add_audit,
}
use aiagent.Runs.Retry.{micro}

pub record JobLease : Type 0 where
  pub job_id : ℕ
  pub run_id : ℕ
  pub organization_id : ℕ
  pub user_id : ℕ
  pub trace_id : ℕ
  pub budget_day : ℕ
  pub worker_id : String
  pub lease_token : String
  pub attempt_number : ℕ

-- `datetime.date()`, as the number of the day.
abbrev pub day_of : ℕ → ℕ
day_of t = t / (86_400 * micro)

unfoldable pub job_status_for_run : RunStatus → RunJobStatus
job_status_for_run RunStatus.completed = RunJobStatus.succeeded
job_status_for_run RunStatus.cancelled = RunJobStatus.cancelled
job_status_for_run _ = RunJobStatus.failed

unfoldable pub clear_lease : RunJob → RunJob
clear_lease job = record job {
  lease_owner = none;
  lease_token = none;
  lease_expires_at = none;
  heartbeat_at = none;
}

-- `not value` of an optional text.
abbrev pub is_blank : Option String → Bool
is_blank text = not (is_some text) || opt_is str_eq text ""

abbrev text_or_empty : Option String → String
text_or_empty none = ""
text_or_empty (some text) = text

abbrev trace_of : Option Run → ℕ
trace_of none = 0
trace_of (some run) = run.trace_id

abbrev created_of : RunJob → Option Run → ℕ
created_of job none = job.created_at
created_of job (some run) = run.created_at

unfoldable pub lease_from_job : RunJob → Option Run → Option JobLease
lease_from_job job run =
    if is_blank job.lease_owner || is_blank job.lease_token
    then none
    else some (record {
      job_id = job.id;
      run_id = job.run_id;
      organization_id = job.organization_id;
      user_id = job.user_id;
      trace_id = trace_of run;
      budget_day = day_of (created_of job run);
      worker_id = text_or_empty job.lease_owner;
      lease_token = text_or_empty job.lease_token;
      attempt_number = job.attempt_count;
    })

-- The row that `_locked_lease` selects.
abbrev pub holds : JobLease → ℕ → RunJob → Bool
holds lease now job =
    (job.id == lease.job_id)
    && (is_leased job.status
        && (opt_is str_eq job.lease_owner lease.worker_id
            && (opt_is str_eq job.lease_token lease.lease_token
                && opt_is (λ expires t. leb t expires) job.lease_expires_at now)))

unfoldable pub locked_lease : JobLease → ℕ → Db → Option RunJob
locked_lease lease now db = find (holds lease now) db.jobs

abbrev attempt_of : JobLease → RunJobAttempt → Bool
attempt_of lease attempt =
    (attempt.job_id == lease.job_id)
    && ((attempt.attempt_number == lease.attempt_number)
        && (str_eq attempt.lease_token lease.lease_token && not (is_some attempt.completed_at)))

unfoldable pub finish_attempt : JobLease → String → Option String → ℕ → Db → Db
finish_attempt lease outcome error_code now db = record db {
  attempts = update (attempt_of lease) complete db.attempts;
}
  where
    complete : RunJobAttempt → RunJobAttempt
    complete attempt = record attempt {
      completed_at = some now;
      outcome = some outcome;
      error_code = error_code;
    }

abbrev pub job_audit : RunJob → Run → String → ℕ → AuditRequest
job_audit job run action attempt = record {
  organization_id = some job.organization_id;
  actor_user_id = none;
  action = action;
  resource_type = "run_job";
  resource_id = some job.id;
  trace_id = some run.trace_id;
  details = field "attempt" (num attempt) end;
}

-- The audit record of a Run that ends.
abbrev pub run_audit : Run → String → Fields → AuditRequest
run_audit run action details = record {
  organization_id = some run.organization_id;
  actor_user_id = some run.user_id;
  action = action;
  resource_type = "run";
  resource_id = some run.id;
  trace_id = some run.trace_id;
  details = details;
}

fail_found_run : Run → String → String → ℕ → Db → Db
fail_found_run run error_code message now db =
    if is_terminal run.status
    then db
    else add_audit (run_audit run "run.failed" (field "error_code" (str error_code) end))
        (record (save_run failed_run db) { steps = update is_first fail_step db.steps })
  where
    failed_run : Run
    failed_run = record run {
      status = RunStatus.failed;
      error_code = some error_code;
      error_message = some message;
      completed_at = some now;
    }

    is_first : RunStep → Bool
    is_first step = (step.run_id == run.id) && (step.sequence == 1)

    fail_step : RunStep → RunStep
    fail_step step = record step { status = "failed"; completed_at = some now }

unfoldable pub fail_run : ℕ → String → String → ℕ → Db → Db
unfolding fail_found_run
fail_run run_id error_code message now db = elim (find_run run_id db) [
  | none ↦ db
  | some run ↦ fail_found_run run error_code message now db
]

reset_found_run : Run → Db → Db
reset_found_run run db =
    if is_running run.status
    then record (save_run (record run { status = RunStatus.queued; started_at = none }) db) {
      steps = keep (λ step. not (step.run_id == run.id)) db.steps;
    }
    else db

unfoldable pub reset_run_for_retry : ℕ → Db → Db
unfolding reset_found_run
reset_run_for_retry run_id db = elim (find_run run_id db) [
  | none ↦ db
  | some run ↦ reset_found_run run db
]
