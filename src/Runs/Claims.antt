-- ===== src/Runs/Claims.antt =====
-- `RunJobService.claim` (runs/jobs.py), one transaction on the tables. The clock, the fresh token
-- and the rows that other transactions have locked are arguments.
use aiagent.Prelude.{
  ℕ, ◌+◌, Bool, not, ◌&&◌, ◌||◌, Option, none, some, ◌∷◌, String, ltb, leb, ◌==◌, if◌then◌else◌,
  keep, first_by,
}
use aiagent.Runs.Rows.{
  RunJobStatus, Run, RunJob, Db, is_terminal, is_waiting, find_run, save_job, add_audit,
  count_metric,
}
use aiagent.Runs.Leases.{JobLease, day_of, job_status_for_run, job_audit}

-- The order of the queue: `available_at`, then `created_at`, then `id`.
abbrev pub queued_before : RunJob → RunJob → Bool
queued_before a b =
    ltb a.available_at b.available_at
    || ((a.available_at == b.available_at)
        && (ltb a.created_at b.created_at || ((a.created_at == b.created_at) && ltb a.id b.id)))

-- Due rows of the queue that no other transaction has locked.
abbrev pub claimable : ℕ → (ℕ → Bool) → RunJob → Bool
claimable now locked job =
    is_waiting job.status && (leb job.available_at now && not (locked job.id))

-- The row after a claim.
abbrev pub leased_job : ℕ → String → String → ℕ → RunJob → RunJob
leased_job now worker_id token lease_time job = record job {
  status = RunJobStatus.leased;
  attempt_count = job.attempt_count + 1;
  lease_owner = some worker_id;
  lease_token = some token;
  lease_expires_at = some (now + lease_time);
  heartbeat_at = some now;
}

abbrev new_attempt : RunJob → String → String → Db → Db
new_attempt job worker_id token db = record db {
  attempts =
      record {
        job_id = job.id;
        attempt_number = job.attempt_count;
        worker_id = worker_id;
        lease_token = token;
        completed_at = none;
        outcome = none;
        error_code = none;
      }
      ∷ db.attempts;
}

abbrev lease_of : RunJob → Run → String → String → JobLease
lease_of job run worker_id token = record {
  job_id = job.id;
  run_id = job.run_id;
  organization_id = job.organization_id;
  user_id = job.user_id;
  trace_id = run.trace_id;
  budget_day = day_of run.created_at;
  worker_id = worker_id;
  lease_token = token;
  attempt_number = job.attempt_count;
}

claim_for_run : ℕ → String → String → ℕ → RunJob → Run → Db → Option JobLease × Db
claim_for_run now worker_id token lease_time job run db =
    if is_terminal run.status
    then (
      none,
      save_job (record job { status = job_status_for_run run.status; last_error_code = none }) db,
    )
    else let job' = leased_job now worker_id token lease_time job in
      (
        some (lease_of job' run worker_id token),
        count_metric "leased" (
            add_audit (job_audit job' run "run_job.leased" job'.attempt_count)
              (new_attempt job' worker_id token (save_job job' db))),
      )

unfoldable pub claim_job : ℕ → String → String → ℕ → RunJob → Db → Option JobLease × Db
unfolding claim_for_run
claim_job now worker_id token lease_time job db = elim (find_run job.run_id db) [
  | none ↦ (
    none,
    save_job (record job { status = RunJobStatus.failed; last_error_code = some "run_missing" }) db,
  )
  | some run ↦ claim_for_run now worker_id token lease_time job run db
]

unfoldable pub claim : ℕ → (ℕ → Bool) → String → String → ℕ → Db → Option JobLease × Db
unfolding claim_job
claim now locked worker_id token lease_time db =
    elim (first_by queued_before (keep (claimable now locked) db.jobs)) [
      | none ↦ (none, db)
      | some job ↦ claim_job now worker_id token lease_time job db
    ]
