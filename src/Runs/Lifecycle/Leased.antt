-- ===== src/Runs/Lifecycle/Leased.antt =====
-- The methods that act under a lease (runs/jobs.py) as steps of the lifecycle.
use aiagent.Prelude.{
  ℕ, ◌+◌, ◌≡◌, refl, inl, inr, Bool, true, false, Option, none, some, String, arith, leb, is_some,
  All, find-All, Option-cases, if_both,
}
use aiagent.Runs.Rows.{RunJob, Db, is_terminal, is_leased, find_run}
use aiagent.Runs.Retry.{RetryPolicy}
use aiagent.Runs.Leases.{JobLease, clear_lease, holds, locked_lease, finish_attempt}
use aiagent.Runs.Jobs.{
  mark_execution_started, heartbeat, finish_from_run, release_before_execution,
  release_for_capacity, released_job,
}
use aiagent.Runs.Lifecycle.{
  JobStep, start, beat, finish, requeue, bury, saved-All, fail_run-jobs, reset_run_for_retry-jobs,
  job_status_for_run-final, not_some-none,
}

-- What a method that acts under a lease does: it is refused, or it acts on the row it holds.
pub locked_cases {ℓ} :
    (P : Bool × Db → Type ℓ) (lease : JobLease) (now : ℕ) (db : Db) (act : RunJob → Bool × Db)
    → P (false, db)
    → ((job : RunJob) → locked_lease lease now db ≡ some job → P (act job))
    → P (elim (locked_lease lease now db) [ none ↦ (false, db) | some job ↦ act job ])
locked_cases P lease now db act refused acted = elim (Option-cases (locked_lease lease now db)) [
  | inl e ↦ rw e refused
  | inr (job, e) ↦ rw e (acted job e)
]

-- `closed` is asked only for rows that the lease of the call holds.
module _ (P : RunJob → Type 0) (lease : JobLease) (now : ℕ)
    (closed : (j k : RunJob) → holds lease now j ≡ true → JobStep j k → P j → P k) where
  -- A row found under the lease is leased.
  locked-P :
      (db : Db) {job : RunJob}
      → All P db.jobs
      → locked_lease lease now db ≡ some job
      → P job × (is_leased job.status ≡ true) × (holds lease now job ≡ true)
  unfolding locked_lease
  locked-P db {job} v e =
      let found = find-All P (holds lease now) db.jobs {a = job} v e in
      (found.0, ground (arith, found.1), found.1)

  -- The tables that a method leaves.
  abbrev Keeps : Bool × Db → Type 0
  Keeps r = All P r.1.jobs

  pub mark-rows : (db : Db) → All P db.jobs → All P (mark_execution_started lease now db).1.jobs
  unfolding mark_execution_started
  mark-rows db v = locked_cases Keeps lease now db _ v λ job e.
      let h = locked-P db v e in saved-All P _ db.jobs v (closed _ _ h.2 (start job now h.1) h.0)

  pub heartbeat-rows :
      (lease_time : ℕ) (db : Db) → All P db.jobs → All P (heartbeat lease lease_time now db).1.jobs
  unfolding heartbeat
  heartbeat-rows lease_time db v = locked_cases Keeps lease now db _ v λ job e.
      let h = locked-P db v e in
      saved-All P _ db.jobs v (closed _ _ h.2 (beat job now (now + lease_time) h.1) h.0)

  pub release_for_capacity-rows :
      (policy : RetryPolicy) (draw : ℕ) (db : Db)
      → All P db.jobs
      → All P (release_for_capacity lease policy draw now db).1.jobs
  unfolding release_for_capacity finish_attempt
  release_for_capacity-rows policy draw db v = locked_cases Keeps lease now db _ v λ job e.
      let h = locked-P db v e in
      if_both Keeps (is_some job.execution_started_at) (false, db) _ (λ _. v)
        λ idle. saved-All P _ db.jobs v (
          closed _ _ h.2 (requeue job job.failure_count _ _ h.1 (not_some-none _ idle) (inl refl))
            h.0)

  -- What a branch of `release_before_execution` leaves: it writes no row of the queue itself.
  abbrev IsReleased : Db → Option String → RunJob × Db → Type 0
  IsReleased db code r =
      P (clear_lease (record (r.0) { last_error_code = code })) × (r.1.jobs ≡ db.jobs)

  released_job-rows :
      (policy : RetryPolicy) (draw : ℕ) (job : RunJob) (db : Db) (code : Option String)
      → P job
      → is_leased job.status ≡ true
      → holds lease now job ≡ true
      → is_some job.execution_started_at ≡ false
      → IsReleased db code
          (released_job policy draw now (record job { failure_count = job.failure_count + 1 }) db)
  released_job-rows policy draw job db code h e held idle =
      if_both (IsReleased db code) (leb job.max_attempts (job.failure_count + 1)) _ _
        (λ spent.
          (closed _ _ held (bury job code e (inr (ground arith))) h, fail_run-jobs _ _ _ _ _))
        (λ left. (
          closed _ _ held
              (requeue job (job.failure_count + 1) _ code e (not_some-none _ idle)
                (inr (refl, ground arith)))
              h,
          reset_run_for_retry-jobs _ _,
        ))

  pub release_before_execution-rows :
      (code : String) (policy : RetryPolicy) (draw : ℕ) (db : Db)
      → All P db.jobs
      → All P (release_before_execution lease code policy draw now db).1.jobs
  unfolding release_before_execution finish_attempt
  release_before_execution-rows code policy draw db v = locked_cases Keeps lease now db _ v λ job e.
      let h = locked-P db v e in
      if_both Keeps (is_some job.execution_started_at) (false, db) _ (λ _. v)
        λ idle.
          let r = released_job-rows policy draw job db (some code) h.0 h.1 h.2 idle in
          saved-All P _ _ (rw (r.1) v) r.0

  pub finish_from_run-rows : (db : Db) → All P db.jobs → All P (finish_from_run lease now db).1.jobs
  unfolding finish_from_run finish_attempt
  finish_from_run-rows db v = locked_cases Keeps lease now db _ v λ job e.
      let h = locked-P db v e in
      elim (Option-cases (find_run lease.run_id db)) [
        | inl f ↦ rw f v
        | inr (run, f) ↦ rw f (
            if_both Keeps (is_terminal run.status) _ (false, db)
              (λ _. saved-All P _ db.jobs v (
                closed _ _ h.2
                  (finish job _ run.error_code h.1 (job_status_for_run-final run.status)) h.0))
              (λ _. v))
      ]
