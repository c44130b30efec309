-- ===== src/Runs/Jobs.antt =====
-- The methods of `RunJobService` that act under a lease (runs/jobs.py). Each is one transaction on
-- the tables; the clock and the random draw are arguments.
use aiagent.Prelude.{ℕ, ◌+◌, Bool, true, false, none, some, String, leb, if◌then◌else◌, is_some}
use aiagent.Runs.Rows.{
  RunJobStatus, Run, RunJob, Db, is_terminal, job_status_value, find_run, save_job, add_audit,
  count_metric,
}
use aiagent.Runs.Retry.{RetryPolicy, retry_delay, policy_delay}
use aiagent.Runs.Leases.{
  JobLease, job_status_for_run, clear_lease, locked_lease, finish_attempt, job_audit, fail_run,
  reset_run_for_retry,
}

unfoldable pub mark_execution_started : JobLease → ℕ → Db → Bool × Db
mark_execution_started lease now db = elim (locked_lease lease now db) [
  | none ↦ (false, db)
  | some job ↦ (true, save_job (record job { execution_started_at = some now }) db)
]

unfoldable pub heartbeat : JobLease → ℕ → ℕ → Db → Bool × Db
heartbeat lease lease_time now db = elim (locked_lease lease now db) [
  | none ↦ (false, db)
  | some job ↦ (
    true,
    save_job (record job { heartbeat_at = some now; lease_expires_at = some (now + lease_time) })
        db,
  )
]

-- f"run_job.{job.status.value}".
abbrev pub job_action : RunJobStatus → String
job_action RunJobStatus.succeeded = "run_job.succeeded"
job_action RunJobStatus.cancelled = "run_job.cancelled"
job_action RunJobStatus.failed = "run_job.failed"
job_action RunJobStatus.dead_letter = "run_job.dead_letter"
job_action RunJobStatus.queued = "run_job.queued"
job_action RunJobStatus.leased = "run_job.leased"
job_action RunJobStatus.retry_wait = "run_job.retry_wait"

abbrev pub finished_job : RunJob → Run → RunJob
finished_job job run =
    clear_lease
      (record job { status = job_status_for_run run.status; last_error_code = run.error_code })

finish_job : JobLease → ℕ → RunJob → Run → Db → Bool × Db
finish_job lease now job run db =
    let status = job_status_for_run run.status in
    let value = job_status_value status in
    let job' = finished_job job run in
    if is_terminal run.status
    then (
      true,
      count_metric value (
          add_audit (job_audit job' run (job_action status) lease.attempt_number)
            (finish_attempt lease value run.error_code now (save_job job' db))),
    )
    else (false, db)

unfoldable pub finish_from_run : JobLease → ℕ → Db → Bool × Db
unfolding finish_job
finish_from_run lease now db = elim (locked_lease lease now db) [
  | none ↦ (false, db)
  | some job ↦ elim (find_run lease.run_id db) [
    | none ↦ (false, db)
    | some run ↦ finish_job lease now job run db
  ]
]

-- The row and the tables when a lease is given back before execution; the row is not saved yet.
abbrev pub released_job : RetryPolicy → ℕ → ℕ → RunJob → Db → RunJob × Db
released_job policy draw now job db =
    if leb job.max_attempts job.failure_count
    then (
      record job { status = RunJobStatus.dead_letter },
      fail_run job.run_id "job_attempts_exhausted"
          "Run could not be started after the configured attempts." now db,
    )
    else (
      record job {
        status = RunJobStatus.retry_wait;
        available_at = now + policy_delay policy job.failure_count draw;
      },
      reset_run_for_retry job.run_id db,
    )

release_job : JobLease → String → RetryPolicy → ℕ → ℕ → RunJob → Db → Bool × Db
release_job lease error_code policy draw now job db =
    if is_some job.execution_started_at
    then (false, db)
    else let (job', db') =
        released_job policy draw now (record job { failure_count = job.failure_count + 1 }) db in
      let value = job_status_value job'.status in
      (
        true,
        count_metric value (
            finish_attempt lease value (some error_code) now
              (save_job (clear_lease (record job' { last_error_code = some error_code })) db')),
      )

unfoldable pub release_before_execution : JobLease → String → RetryPolicy → ℕ → ℕ → Db → Bool × Db
unfolding release_job
release_before_execution lease error_code policy draw now db = elim (locked_lease lease now db) [
  | none ↦ (false, db)
  | some job ↦ release_job lease error_code policy draw now job db
]

abbrev pub capacity_job : RetryPolicy → ℕ → ℕ → RunJob → RunJob
capacity_job policy draw now job = clear_lease (record job {
  status = RunJobStatus.retry_wait;
  available_at = now + retry_delay policy.delay 1 policy.delay policy.jitter_ratio draw;
  last_error_code = some "concurrency_capacity";
})

unfoldable pub release_for_capacity : JobLease → RetryPolicy → ℕ → ℕ → Db → Bool × Db
release_for_capacity lease policy draw now db = elim (locked_lease lease now db) [
  | none ↦ (false, db)
  | some job ↦ if is_some job.execution_started_at then (false, db) else (
    true,
    finish_attempt lease "capacity_wait" (some "concurrency_capacity") now
        (save_job (capacity_job policy draw now job) db),
  )
]
