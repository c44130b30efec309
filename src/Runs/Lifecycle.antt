-- ===== src/Runs/Lifecycle.antt =====
-- The life of a job row of runs/jobs.py as a step relation; the children are about the methods
-- of `RunJobService` as steps of it.
pub mod Leased
pub mod Claiming
pub mod Recovering
pub mod Ending
pub mod Invariant
pub mod Reachable
use aiagent.Prelude.{
  ℕ, ◌+◌, ◌≤◌, ◌<◌, ◌≡◌, refl, inl, inr, ◌⊎◌, Bool, true, false, Option, none, some, List, String,
  arith, ◌==◌, is_some, All, update, update-All,
}
use aiagent.Runs.Rows.{RunStatus, RunJobStatus, RunJob, Db, is_waiting, is_leased}
use aiagent.Runs.Leases.{job_status_for_run, clear_lease, fail_run, reset_run_for_retry}
use aiagent.Runs.Claims.{leased_job}

-- A status that no method of the service leaves again.
abbrev pub is_final : RunJobStatus → Bool
is_final RunJobStatus.queued = false
is_final RunJobStatus.leased = false
is_final RunJobStatus.retry_wait = false
is_final _ = true

pub data JobStep : RunJob → RunJob → Type 0 where
  -- A worker takes a waiting job.
  lease :
      (job : RunJob) (now : ℕ) (worker token : String) (time : ℕ)
      → is_waiting job.status ≡ true
      → JobStep job (leased_job now worker token time job)
  -- A waiting job whose Run is over, or gone, leaves the queue.
  drop :
      (job : RunJob) (s : RunJobStatus) (code : Option String)
      → is_waiting job.status ≡ true
      → is_final s ≡ true
      → JobStep job (record job { status = s; last_error_code = code })
  start :
      (job : RunJob) (now : ℕ)
      → is_leased job.status ≡ true
      → JobStep job (record job { execution_started_at = some now })
  beat :
      (job : RunJob) (now expires : ℕ)
      → is_leased job.status ≡ true
      → JobStep job (record job { heartbeat_at = some now; lease_expires_at = some expires })
  -- A leased job takes over how its Run ended.
  finish :
      (job : RunJob) (s : RunJobStatus) (code : Option String)
      → is_leased job.status ≡ true
      → is_final s ≡ true
      → JobStep job (clear_lease (record job { status = s; last_error_code = code }))
  -- A job that was not started goes back to the queue, with a failure or without one.
  requeue :
      (job : RunJob) (failures at : ℕ) (code : Option String)
      → is_leased job.status ≡ true
      → job.execution_started_at ≡ none
      → (failures ≡ job.failure_count)
        ⊎ ((failures ≡ job.failure_count + 1) × (job.failure_count + 1 < job.max_attempts))
      → JobStep job (
          clear_lease (record job {
            status = RunJobStatus.retry_wait;
            failure_count = failures;
            available_at = at;
            last_error_code = code;
          }))
  -- A job that was started, or has no attempt left, is given up.
  bury :
      (job : RunJob) (code : Option String)
      → is_leased job.status ≡ true
      → (is_some job.execution_started_at ≡ true) ⊎ (job.max_attempts ≤ job.failure_count + 1)
      → JobStep job (
          clear_lease (record job {
            status = RunJobStatus.dead_letter;
            failure_count = job.failure_count + 1;
            last_error_code = code;
          }))

pub saved-All :
    (P : RunJob → Type 0) (job : RunJob) (jobs : List RunJob)
    → All P jobs
    → P job
    → All P (update (λ j. j.id == job.id) (λ _. job) jobs)
saved-All P job jobs v h = update-All P _ _ jobs v (λ _ _ _. h)

pub fail_run-jobs :
    (id : ℕ) (e m : String) (now : ℕ) (db : Db) → (fail_run id e m now db).jobs ≡ db.jobs
unfolding fail_run
fail_run-jobs id e m now db = ground arith

pub reset_run_for_retry-jobs : (id : ℕ) (db : Db) → (reset_run_for_retry id db).jobs ≡ db.jobs
unfolding reset_run_for_retry
reset_run_for_retry-jobs id db = ground arith

pub job_status_for_run-final : (s : RunStatus) → is_final (job_status_for_run s) ≡ true
unfolding job_status_for_run
job_status_for_run-final s = ground arith

pub not_some-none {ℓ} : {A : Type ℓ} (o : Option A) → is_some o ≡ false → o ≡ none
not_some-none none h = refl
not_some-none (some a) h = cc
