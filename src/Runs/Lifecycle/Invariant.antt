-- ===== src/Runs/Lifecycle/Invariant.antt =====
-- The invariant of a job row of runs/jobs.py, and the steps of its life.
use aiagent.Prelude.{ℕ, ◌+◌, ◌≤◌, ◌<◌, ◌≡◌, refl, inl, inr, true, false, ◌&&◌, ◌||◌, arith, is_some}
use aiagent.Runs.Rows.{RunJobStatus, RunJob, is_waiting, is_leased, new_job}
use aiagent.Runs.Leases.{clear_lease}
use aiagent.Runs.Lifecycle.{JobStep, lease, drop, start, beat, finish, requeue, bury, is_final}

-- 1 for a leased row, else 0.
abbrev pub in_flight : RunJobStatus → ℕ
in_flight RunJobStatus.leased = 1
in_flight _ = 0

-- A row has lease columns exactly while it is leased; a row that waits was never started; the
-- failures stay within the attempts allowed, below them while the job can still run; and a failure
-- belongs to a claim that is over.
pub record JobOk (job : RunJob) : Type 0 where
  pub owned : is_some job.lease_owner ≡ is_leased job.status
  pub fenced : is_some job.lease_token ≡ is_leased job.status
  pub timed : is_some job.lease_expires_at ≡ is_leased job.status
  pub beating : is_some job.heartbeat_at ≡ is_leased job.status
  pub unstarted : (is_waiting job.status && is_some job.execution_started_at) ≡ false
  pub budget : job.failure_count ≤ job.max_attempts
  pub retriable :
      (is_waiting job.status || is_leased job.status) ≡ true → job.failure_count < job.max_attempts
  pub counted : job.failure_count + in_flight job.status ≤ job.attempt_count

pub new_job-JobOk :
    (id run_id organization_id user_id max_attempts now : ℕ)
    → 0 < max_attempts
    → JobOk (new_job id run_id organization_id user_id max_attempts now)
unfolding new_job
new_job-JobOk id run_id organization_id user_id max_attempts now h = ground arith

pub JobStep-JobOk : (j k : RunJob) → JobStep j k → JobOk j → JobOk k
unfolding clear_lease
JobStep-JobOk j k (lease _ now worker token time w) h = ground arith
JobStep-JobOk j k (drop _ s code w f) h = ground arith
JobStep-JobOk j k (start _ now e) h = ground arith
JobStep-JobOk j k (beat _ now expires e) h = ground arith
JobStep-JobOk j k (finish _ s code e f) h = ground arith
JobStep-JobOk j k (requeue _ n at code e idle (inl same)) h = ground arith
JobStep-JobOk j k (requeue _ n at code e idle (inr more)) h = ground arith
JobStep-JobOk j k (bury _ code e c) h = ground arith

-- A step keeps the row's identity.
pub JobStep-id : (j k : RunJob) → JobStep j k → k.id ≡ j.id
unfolding clear_lease
JobStep-id j k (lease _ now worker token time w) = refl
JobStep-id j k (drop _ s code w f) = refl
JobStep-id j k (start _ now e) = refl
JobStep-id j k (beat _ now expires e) = refl
JobStep-id j k (finish _ s code e f) = refl
JobStep-id j k (requeue _ n at code e idle c) = refl
JobStep-id j k (bury _ code e c) = refl

-- A row whose execution was started stays so.
pub JobStep-started :
    (j k : RunJob)
    → JobStep j k
    → is_some j.execution_started_at ≡ true
    → is_some k.execution_started_at ≡ true
unfolding clear_lease
JobStep-started j k (lease _ now worker token time w) h = h
JobStep-started j k (drop _ s code w f) h = h
JobStep-started j k (start _ now e) h = refl
JobStep-started j k (beat _ now expires e) h = h
JobStep-started j k (finish _ s code e f) h = h
JobStep-started j k (requeue _ n at code e idle c) h = h
JobStep-started j k (bury _ code e c) h = h

-- No step leaves a final status.
pub JobStep-final : (j k : RunJob) → JobStep j k → is_final j.status ≡ true → ⊥
JobStep-final j k (lease _ now worker token time w) h = ground arith
JobStep-final j k (drop _ s code w f) h = ground arith
JobStep-final j k (start _ now e) h = ground arith
JobStep-final j k (beat _ now expires e) h = ground arith
JobStep-final j k (finish _ s code e f) h = ground arith
JobStep-final j k (requeue _ n at code e idle c) h = ground arith
JobStep-final j k (bury _ code e c) h = ground arith
