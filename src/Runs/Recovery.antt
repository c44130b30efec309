-- ===== src/Runs/Recovery.antt =====
-- `RunJobService.recover_expired` and `cancel_queued` (runs/jobs.py). The clock, the random draws
-- and the rows that other transactions have locked are arguments.
use aiagent.Prelude.{
  ℕ, ◌+◌, Bool, true, false, not, ◌&&◌, ◌||◌, Option, none, some, List, [], ◌∷◌, ltb, ◌==◌,
  if◌then◌else◌, is_some, opt_is, keep, take, find, order_by,
}
use aiagent.Json.{str, end, field}
use aiagent.Runs.Rows.{
  RunStatus, RunJobStatus, Run, RunJob, Db, is_terminal, is_waiting, is_leased, job_status_value,
  find_run, save_job, save_run, add_audit, count_metric,
}
use aiagent.Runs.Retry.{RetryPolicy, policy_delay}
use aiagent.Runs.Leases.{
  JobLease, job_status_for_run, clear_lease, lease_from_job, finish_attempt, run_audit, fail_run,
  reset_run_for_retry,
}

abbrev pub expired : ℕ → (ℕ → Bool) → RunJob → Bool
expired now locked job =
    is_leased job.status
    && (opt_is (λ expires t. ltb expires t) job.lease_expires_at now && not (locked job.id))

abbrev pub expiry : Option ℕ → ℕ
expiry none = 0
expiry (some t) = t

abbrev pub expires_before : RunJob → RunJob → Bool
expires_before a b =
    let x = expiry a.lease_expires_at in
    let y = expiry b.lease_expires_at in ltb x y || ((x == y) && ltb a.id b.id)

abbrev pub run_ended : Option Run → Bool
run_ended none = false
run_ended (some run) = is_terminal run.status

-- The row takes over how its Run ended.
abbrev pub ended_job : RunJob → Option Run → RunJob
ended_job job none = job
ended_job job (some run) = record job {
  status = job_status_for_run run.status;
  last_error_code = run.error_code;
}

-- The branches of the loop of `recover_expired`; the row is not saved yet.
unfoldable pub recovered_job : RetryPolicy → ℕ → ℕ → RunJob → Option Run → Db → RunJob × Db
recovered_job policy draw now job run db =
    if run_ended run
    then (ended_job job run, db)
    else if not (is_some job.execution_started_at) && ltb (job.failure_count + 1) job.max_attempts
    then (
      record job {
        failure_count = job.failure_count + 1;
        status = RunJobStatus.retry_wait;
        available_at = now + policy_delay policy (job.failure_count + 1) draw;
        last_error_code = some "lease_expired_before_execution";
      },
      reset_run_for_retry job.run_id db,
    )
    else (
      record job {
        failure_count = job.failure_count + 1;
        status = RunJobStatus.dead_letter;
        last_error_code = some "worker_lost_during_execution";
      },
      fail_run job.run_id "worker_lost_during_execution"
          "Run stopped because its Worker lease expired during execution." now db,
    )

abbrev pub finish_recovered : Option JobLease → RunJob → ℕ → Db → Db
finish_recovered none job now db = db
finish_recovered (some lease) job now db =
    finish_attempt lease (job_status_value job.status) job.last_error_code now db

unfoldable pub recover_job : RetryPolicy → (ℕ → ℕ) → ℕ → RunJob → Db → Db
unfolding recovered_job
recover_job policy draws now job db =
    let run = find_run job.run_id db in
    let (job', db') = recovered_job policy (draws job.id) now job run db in
    count_metric (job_status_value job'.status)
      (finish_recovered (lease_from_job job run) job' now (save_job (clear_lease job') db'))

unfoldable pub recover_jobs : RetryPolicy → (ℕ → ℕ) → ℕ → List RunJob → Db → ℕ × Db
recover_jobs policy draws now [] db = (0, db)
recover_jobs policy draws now (job ∷ jobs) db =
    let (count, db') = recover_jobs policy draws now jobs (recover_job policy draws now job db) in
    (count + 1, db')

-- `draws id` is the random draw for the job `id`.
unfoldable pub recover_expired : RetryPolicy → (ℕ → ℕ) → ℕ → (ℕ → Bool) → ℕ → Db → ℕ × Db
unfolding recover_jobs recover_job
recover_expired policy draws limit locked now db =
    recover_jobs policy draws now
      (take limit (order_by expires_before (keep (expired now locked) db.jobs))) db

cancel_job : RunJob → Run → ℕ → Db → Bool × Db
cancel_job job run now db = if is_terminal run.status then (false, db) else (
  true,
  count_metric "cancelled" (
      add_audit (run_audit run "run.cancelled" (field "source" (str "durable_queue") end))
        (save_run cancelled_run (save_job cancelled_job db))),
)
  where
    cancelled_job : RunJob
    cancelled_job = record job {
      status = RunJobStatus.cancelled;
      last_error_code = some "cancelled";
    }

    cancelled_run : Run
    cancelled_run = record run {
      status = RunStatus.cancelled;
      error_code = some "cancelled";
      error_message = some "Run was cancelled.";
      completed_at = some now;
    }

unfoldable pub cancel_queued : ℕ → ℕ → Db → Bool × Db
unfolding cancel_job
cancel_queued run_id now db = elim (find (λ j. j.run_id == run_id) db.jobs) [
  | none ↦ (false, db)
  | some job ↦
      if is_waiting job.status
      then elim (find_run run_id db) [ none ↦ (false, db) | some run ↦ cancel_job job run now db ]
      else (false, db)
]
