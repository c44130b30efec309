-- ===== src/Runs/Lifecycle/Ending.antt =====
-- The end of a durable Run (conversations/service.py) as a step of the lifecycle.
use aiagent.Prelude.{
  ℕ, ◌≡◌, Bool, true, false, Option, none, some, All, find, find-All, Option-cases, if_both, inl,
  inr, arith, refl,
}
use aiagent.Runs.Rows.{RunStatus, RunJobStatus, Run, RunJob, Db, find_run, is_running, is_terminal}
use aiagent.Runs.Leases.{JobLease, holds, finish_attempt}
use aiagent.Runs.Answers.{Answers, Completion, Failure}
use aiagent.Runs.Durable.{
  durable_test, lock_durable_job, finalize_durable_job, finalized, complete_run,
  finish_run_with_error, error_job_status, complete_found, is_unstarted, fail_found, is_lost,
}
use aiagent.Runs.Lifecycle.{JobStep, finish, is_final, saved-All}

-- The row is one that the lease holds, if there is one.
abbrev pub UnderLease : Option JobLease → ℕ → RunJob → Type 0
UnderLease none now j = ⊥
UnderLease (some lease) now j = holds lease now j ≡ true

error_job_status-final : (s : RunStatus) → is_final (error_job_status s) ≡ true
error_job_status-final s = ground arith

finalized-rows :
    (P : RunJob → Type 0) (lease : Option JobLease) (now : ℕ)
    → ((j k : RunJob) → UnderLease lease now j → JobStep j k → P j → P k)
    → (run : Run) (run_id : ℕ) (status : RunJobStatus) (db db' : Db) → is_final status ≡ true
    → All P db.jobs
    → db'.jobs ≡ db.jobs
    → All P (finalized run (lock_durable_job run_id lease now db) lease status now db').jobs
unfolding lock_durable_job finalize_durable_job finish_attempt
finalized-rows P none now closed run run_id status db db' final v same = rw same v
finalized-rows P (some lease) now closed run run_id status db db' final v same =
    elim (Option-cases (find (durable_test run_id now lease) db.jobs)) [
      | inl e ↦ rw (e, same) v
      | inr (job, e) ↦
          let found = find-All P (durable_test run_id now lease) db.jobs {a = job} v e in
          let test = found.1 in
          let held : holds lease now job ≡ true = ground (arith, test) in
          rw e (
            saved-All P _ db'.jobs (rw same v) (
              closed _ _ held (finish job status run.error_code (ground (arith, test)) final)
                found.0))
    ]

module _ (P : RunJob → Type 0) (lease : Option JobLease) (now : ℕ)
    (closed : (j k : RunJob) → UnderLease lease now j → JobStep j k → P j → P k) where
  abbrev Keeps : Bool × Answers × Db → Type 0
  Keeps r = All P r.2.jobs

  complete_found-rows :
      (fresh run_id : ℕ) (c : Completion) (run : Option Run) (answers : Answers) (db : Db)
      → All P db.jobs
      → Keeps
          (complete_found fresh c run (lock_durable_job run_id lease now db) lease now answers db)
  complete_found-rows fresh run_id c none answers db v = v
  complete_found-rows fresh run_id c (some run) answers db v =
      if_both Keeps (is_running run.status) _ (false, answers, db)
        (λ _. finalized-rows P lease now closed _ run_id _ db _ refl v refl) (λ _. v)

  pub complete_run-rows :
      (fresh run_id : ℕ) (c : Completion) (answers : Answers) (db : Db)
      → All P db.jobs
      → All P (complete_run fresh run_id c lease now (answers, db)).2.jobs
  unfolding complete_run
  complete_run-rows fresh run_id c answers db v =
      let job = lock_durable_job run_id lease now db in
      if_both Keeps (is_unstarted lease job) (false, answers, db)
        (complete_found fresh c (find_run run_id db) job lease now answers db) (λ _. v)
        (λ _. complete_found-rows fresh run_id c (find_run run_id db) answers db v)

  fail_found-rows :
      (run_id : ℕ) (f : Failure) (run : Option Run) (answers : Answers) (db : Db)
      → All P db.jobs
      → Keeps (fail_found f run (lock_durable_job run_id lease now db) lease now answers db)
  fail_found-rows run_id f none answers db v = v
  fail_found-rows run_id f (some run) answers db v =
      if_both Keeps (is_terminal run.status) (false, answers, db) _ (λ _. v)
        λ _.
          finalized-rows P lease now closed _ run_id _ db _ (error_job_status-final f.status) v refl

  pub finish_run_with_error-rows :
      (run_id : ℕ) (f : Failure) (answers : Answers) (db : Db)
      → All P db.jobs
      → All P (finish_run_with_error run_id f lease now (answers, db)).2.jobs
  unfolding finish_run_with_error
  finish_run_with_error-rows run_id f answers db v =
      let job = lock_durable_job run_id lease now db in
      if_both Keeps (is_lost lease job) (false, answers, db)
        (fail_found f (find_run run_id db) job lease now answers db) (λ _. v)
        (λ _. fail_found-rows run_id f (find_run run_id db) answers db v)
