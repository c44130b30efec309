-- ===== src/Runs/Lifecycle/Recovering.antt =====
-- Recovery and cancellation (runs/jobs.py) as steps of the lifecycle.
use aiagent.Prelude.{
  ℕ, ◌+◌, ◌≡◌, refl, inl, inr, Bool, true, false, ◌&&◌, not, Option, none, some, List, [], ◌∷◌,
  arith, ◌==◌, ltb, is_some, All, All-keep, All-take, find-All, order_by-All, Option-cases, if_both,
  find, keep, order_by, take,
}
use aiagent.Runs.Rows.{Run, RunJobStatus, RunJob, Db, is_terminal, is_waiting, find_run}
use aiagent.Runs.Retry.{RetryPolicy}
use aiagent.Runs.Leases.{JobLease, clear_lease, finish_attempt}
use aiagent.Runs.Recovery.{
  run_ended, ended_job, recovered_job, recover_job, recover_jobs, finish_recovered, expires_before,
  expired, recover_expired, cancel_queued,
}
use aiagent.Runs.Lifecycle.{
  JobStep, drop, finish, requeue, bury, saved-All, fail_run-jobs, reset_run_for_retry-jobs,
  job_status_for_run-final, not_some-none, is_final,
}

pub finish_recovered-jobs :
    (lease : Option JobLease) (job : RunJob) (now : ℕ) (db : Db)
    → (finish_recovered lease job now db).jobs ≡ db.jobs
unfolding finish_attempt
finish_recovered-jobs none job now db = refl
finish_recovered-jobs (some lease) job now db = refl

-- `closed` is asked only for rows whose lease ran out.
module _ (P : RunJob → Type 0) (now : ℕ) (locked : ℕ → Bool)
    (closed : (j k : RunJob) → expired now locked j ≡ true → JobStep j k → P j → P k) where
  -- What a branch of the loop leaves: it writes no row of the queue itself.
  abbrev IsRecovered : Db → RunJob × Db → Type 0
  IsRecovered db r = P (clear_lease (r.0)) × (r.1.jobs ≡ db.jobs)

  ended_job-rows :
      (job : RunJob) (run : Option Run)
      → P job
      → expired now locked job ≡ true
      → run_ended run ≡ true
      → P (clear_lease (ended_job job run))
  ended_job-rows job none h e t = cc
  ended_job-rows job (some run) h e t =
      closed _ _ e
        (finish job _ run.error_code (ground arith) (job_status_for_run-final run.status)) h

  recovered_job-rows :
      (policy : RetryPolicy) (draw : ℕ) (job : RunJob) (run : Option Run) (db : Db)
      → P job
      → expired now locked job ≡ true
      → IsRecovered db (recovered_job policy draw now job run db)
  unfolding recovered_job
  recovered_job-rows policy draw job run db h e =
      if_both (IsRecovered db) (run_ended run) _ _ (λ t. (ended_job-rows job run h e t, refl))
        λ _.
          if_both (IsRecovered db)
            (not (is_some job.execution_started_at) && ltb (job.failure_count + 1) job.max_attempts)
            _ _
            (λ t. (
              closed _ _ e
                  (requeue job (job.failure_count + 1) _ _ (ground arith)
                    (not_some-none _ (ground arith)) (inr (refl, ground arith)))
                  h,
              reset_run_for_retry-jobs _ _,
            ))
            (λ t.
              (closed _ _ e (bury job _ (ground arith) (ground arith)) h, fail_run-jobs _ _ _ _ _))

  recover_job-rows :
      (policy : RetryPolicy) (draws : ℕ → ℕ) (job : RunJob) (db : Db)
      → All P db.jobs
      → P job
      → expired now locked job ≡ true
      → All P (recover_job policy draws now job db).jobs
  unfolding recover_job
  recover_job-rows policy draws job db v h e =
      let r = recovered_job-rows policy (draws job.id) job (find_run job.run_id db) db h e in
      rw finish_recovered-jobs (saved-All P _ _ (rw (r.1) v) r.0)

  abbrev IsExpired : RunJob → Type 0
  IsExpired job = P job × (expired now locked job ≡ true)

  recover_jobs-rows :
      (policy : RetryPolicy) (draws : ℕ → ℕ) (jobs : List RunJob) (db : Db)
      → All P db.jobs
      → All IsExpired jobs
      → All P (recover_jobs policy draws now jobs db).1.jobs
  unfolding recover_jobs
  recover_jobs-rows policy draws [] db v h = v
  recover_jobs-rows policy draws (job ∷ jobs) db v h =
      recover_jobs-rows policy draws jobs _ (recover_job-rows policy draws job db v h.0.0 h.0.1) h.1

  -- The rows that `recover_expired` selects have expired.
  selected-IsExpired :
      (limit : ℕ) (jobs : List RunJob)
      → All P jobs
      → All IsExpired (take limit (order_by expires_before (keep (expired now locked) jobs)))
  selected-IsExpired limit jobs h =
      All-take IsExpired limit _
        (order_by-All IsExpired expires_before _ (All-keep P (expired now locked) jobs h))

  pub recover_expired-rows :
      (policy : RetryPolicy) (draws : ℕ → ℕ) (limit : ℕ) (db : Db)
      → All P db.jobs
      → All P (recover_expired policy draws limit locked now db).1.jobs
  unfolding recover_expired
  recover_expired-rows policy draws limit db v =
      recover_jobs-rows policy draws _ db v (selected-IsExpired limit db.jobs v)

-- A waiting row ends.
abbrev pub IsDropped : RunJob → RunJob → Type 0
IsDropped j k = (is_waiting j.status ≡ true) × (is_final k.status ≡ true)

module _ (P : RunJob → Type 0)
    (closed : (j k : RunJob) → IsDropped j k → JobStep j k → P j → P k) where
  abbrev Keeps : Bool × Db → Type 0
  Keeps r = All P r.1.jobs

  pub cancel_queued-rows :
      (run_id now : ℕ) (db : Db) → All P db.jobs → All P (cancel_queued run_id now db).1.jobs
  unfolding cancel_queued
  cancel_queued-rows run_id now db v =
      elim (Option-cases (find (λ j. j.run_id == run_id) db.jobs)) [
        | inl e ↦ rw (e, cancel_queued) v
        | inr (job, e) ↦
            let h = find-All P _ db.jobs {a = job} v e in
            rw (e, cancel_queued)
              (if_both Keeps (is_waiting job.status) _ (false, db)
                (λ w. elim (Option-cases (find_run run_id db)) [
                  | inl f ↦ rw (f, cancel_queued) v
                  | inr (run, f) ↦
                      rw (f, cancel_queued)
                        (if_both Keeps (is_terminal run.status) (false, db) _ (λ _. v)
                          λ _.
                            saved-All P _ db.jobs v
                              (closed _ _ (w, refl) (drop job RunJobStatus.cancelled _ w refl) h.0))
                ])
                (λ _. v))
      ]
