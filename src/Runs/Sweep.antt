-- ===== src/Runs/Sweep.antt =====
-- The rows that `recover_expired` of runs/jobs.py goes through.
use aiagent.Prelude.{
  none, some, ℕ, List, Bool, ◌∷◌, ◌≡◌, Option, true, [], false, if_both, All, length, update, arith,
  keep, not, ◌==◌, refl, ◌≤◌, some, is_some, inl, ◌&&◌, inr, ltb, ◌+◌, insert_by, order_by, All-map,
  Bool-cases, length-order_by, take-all, ◌∙◌, true-false, sym,
}
use aiagent.Runs.Recovery.{
  expired, recover_expired, recover_job, recover_jobs, recovered_job, expires_before, run_ended,
  ended_job,
}
use aiagent.Runs.Retry.{RetryPolicy}
use aiagent.Runs.Rows.{RunJob, Run, Db, is_leased, find_run, Has}
use aiagent.Runs.Leases.{job_status_for_run, clear_lease}
use aiagent.Runs.Lifecycle.Recovering.{finish_recovered-jobs}
use aiagent.Runs.Lifecycle.{reset_run_for_retry-jobs, fail_run-jobs}

-- An expired row is one of those still to be recovered.
abbrev Pending : ℕ → (ℕ → Bool) → List RunJob → RunJob → Type 0
Pending now locked todo j = expired now locked j ≡ true → Has j.id todo

-- The row that a branch of the loop leaves is no longer leased.
abbrev IsIdle : RunJob → Db → RunJob × Db → Type 0
IsIdle job db r = (r.0.id ≡ job.id) × (is_leased r.0.status ≡ false) × (r.1.jobs ≡ db.jobs)

ended_job-idle :
    (job : RunJob) (run : Option Run)
    → run_ended run ≡ true
    → ((ended_job job run).id ≡ job.id) × (is_leased (ended_job job run).status ≡ false)
unfolding job_status_for_run
ended_job-idle job none e = cc
ended_job-idle job (some run) e = (refl, ground arith)

recovered_job-IsIdle :
    (policy : RetryPolicy) (draw now : ℕ) (job : RunJob) (run : Option Run) (db : Db)
    → IsIdle job db (recovered_job policy draw now job run db)
unfolding recovered_job
recovered_job-IsIdle policy draw now job run db =
    if_both (IsIdle job db) (run_ended run) _ _
      (λ e. let h = ended_job-idle job run e in (h.0, h.1, refl))
      λ _.
        if_both (IsIdle job db)
          (not (is_some job.execution_started_at) && ltb (job.failure_count + 1) job.max_attempts) _
          _ (λ _. (refl, refl, reset_run_for_retry-jobs _ _))
          (λ _. (refl, refl, fail_run-jobs _ _ _ _ _))

-- Saving an idle row takes its id off the list.
saved-Pending :
    (now : ℕ) (locked : ℕ → Bool) (row job : RunJob) (todo jobs : List RunJob)
    → row.id ≡ job.id
    → is_leased row.status ≡ false
    → All (Pending now locked (job ∷ todo)) jobs
    → All (Pending now locked todo) (update (λ j. j.id == row.id) (λ _. row) jobs)
saved-Pending now locked row job todo [] e idle h = tt
saved-Pending now locked row job todo (j ∷ jobs) e idle h = (
  if_both (Pending now locked todo) (j.id == row.id) row j (λ _ x. ground arith)
      (λ ne x. elim (h.0 x) [ inl same ↦ ground arith | inr rest ↦ rest ]),
  saved-Pending now locked row job todo jobs e idle h.1,
)

recover_job-Pending :
    (policy : RetryPolicy) (draws : ℕ → ℕ) (now : ℕ) (locked : ℕ → Bool) (job : RunJob)
    (todo : List RunJob) (db : Db)
    → All (Pending now locked (job ∷ todo)) db.jobs
    → All (Pending now locked todo) (recover_job policy draws now job db).jobs
unfolding recover_job clear_lease
recover_job-Pending policy draws now locked job todo db h =
    let r = recovered_job-IsIdle policy (draws job.id) now job (find_run job.run_id db) db in
    rw finish_recovered-jobs (saved-Pending now locked _ job todo _ r.0 r.1 (rw (r.2) h))

recover_jobs-Pending :
    (policy : RetryPolicy) (draws : ℕ → ℕ) (now : ℕ) (locked : ℕ → Bool) (todo : List RunJob)
    (db : Db)
    → All (Pending now locked todo) db.jobs
    → All (Pending now locked []) (recover_jobs policy draws now todo db).1.jobs
unfolding recover_jobs
recover_jobs-Pending policy draws now locked [] db h = h
recover_jobs-Pending policy draws now locked (job ∷ todo) db h =
    recover_jobs-Pending policy draws now locked todo _
      (recover_job-Pending policy draws now locked job todo db h)

recover_jobs-count :
    (policy : RetryPolicy) (draws : ℕ → ℕ) (now : ℕ) (todo : List RunJob) (db : Db)
    → (recover_jobs policy draws now todo db).0 ≡ length todo
unfolding recover_jobs
recover_jobs-count policy draws now [] db = refl
recover_jobs-count policy draws now (job ∷ todo) db =
    omega (arith, recover_jobs-count policy draws now todo (recover_job policy draws now job db))

Has-insert_by :
    (i : ℕ) (x : RunJob) (xs : List RunJob) → Has i (x ∷ xs) → Has i (insert_by expires_before x xs)
Has-insert_by i x [] h = h
Has-insert_by i x (y ∷ ys) h =
    let rest = Has-insert_by i x ys in
    if_both (Has i) (expires_before y x) (y ∷ insert_by expires_before x ys) (x ∷ y ∷ ys)
      (λ _. elim h [
        | inl same ↦ inr (rest (inl same))
        | inr (inl first) ↦ inl first
        | inr (inr other) ↦ inr (rest (inr other))
      ])
      (λ _. h)

Has-order_by : (i : ℕ) (xs : List RunJob) → Has i xs → Has i (order_by expires_before xs)
Has-order_by i [] h = h
Has-order_by i (x ∷ xs) h =
    Has-insert_by i x (order_by expires_before xs)
      (elim h [ inl same ↦ inl same | inr other ↦ inr (Has-order_by i xs other) ])

Has-weaken :
    (now : ℕ) (locked : ℕ → Bool) (x : RunJob) (todo jobs : List RunJob)
    → All (Pending now locked todo) jobs
    → All (Pending now locked (x ∷ todo)) jobs
Has-weaken now locked x todo jobs = All-map _ _ (λ j h e. inr (h e)) jobs

kept-Pending :
    (now : ℕ) (locked : ℕ → Bool) (jobs : List RunJob)
    → All (Pending now locked (keep (expired now locked) jobs)) jobs
kept-Pending now locked [] = tt
kept-Pending now locked (j ∷ jobs) =
    let rest = kept-Pending now locked jobs in
    let due = keep (expired now locked) jobs in
    if_both (λ todo. All (Pending now locked todo) (j ∷ jobs)) (expired now locked j) (j ∷ due) due
      (λ _. (λ _. inl refl, Has-weaken now locked j due jobs rest))
      (λ young. (λ old. absurd (true-false (sym old ∙ young)), rest))

not-Pending :
    (now : ℕ) (locked : ℕ → Bool) (j : RunJob)
    → Pending now locked [] j
    → expired now locked j ≡ false
not-Pending now locked j h = elim (Bool-cases (expired now locked j)) [
  | inl old ↦ absurd (h old)
  | inr young ↦ young
]

-- When no more jobs have expired than the limit allows, a call leaves no row expired at its time, but
-- those that other transactions had locked, and it returns the number of rows that were expired.
pub recover_expired_complete :
    (policy : RetryPolicy) (draws : ℕ → ℕ) (limit : ℕ) (locked : ℕ → Bool) (now : ℕ) (db : Db)
    → length (keep (expired now locked) db.jobs) ≤ limit
    → All
        (λ j. expired now locked j ≡ false)
        (recover_expired policy draws limit locked now db).1.jobs
      × ((recover_expired policy draws limit locked now db).0
          ≡ length (keep (expired now locked) db.jobs))
unfolding recover_expired
recover_expired_complete policy draws limit locked now db small =
    let due = keep (expired now locked) db.jobs in
    let sorted = length-order_by expires_before due in
    rw (take-all limit (order_by expires_before due) (omega (arith, sorted))) (
      All-map _ _ (not-Pending now locked) _ (
          recover_jobs-Pending policy draws now locked (order_by expires_before due) db (
            All-map _ _ (λ j h e. Has-order_by j.id due (h e)) db.jobs
              (kept-Pending now locked db.jobs))),
      recover_jobs-count policy draws now (order_by expires_before due) db ∙ sorted,
    )
