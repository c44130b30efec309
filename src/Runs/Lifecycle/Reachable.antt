-- ===== src/Runs/Lifecycle/Reachable.antt =====
-- Every history of the queue: the calls of `RunJobService` and of the methods of
-- conversations/service.py that write `run_jobs`, in any order, by any workers, and what other code does
-- to the other tables in between.
use aiagent.Prelude.{
  ℕ, ◌<◌, ◌≡◌, sym, subst, ◌≢◌, Bool, ◌∷◌, String, All, is_some, ◌∙◌, true, All-zip, false, arith,
  Option,
}
use aiagent.Runs.Rows.{RunJob, Db, new_job}
use aiagent.Runs.Retry.{RetryPolicy}
use aiagent.Runs.Leases.{JobLease, holds}
use aiagent.Runs.Claims.{claim}
use aiagent.Runs.Jobs.{
  mark_execution_started, heartbeat, finish_from_run, release_before_execution,
  release_for_capacity,
}
use aiagent.Runs.Recovery.{recover_expired, cancel_queued, expired}
use aiagent.Runs.Lifecycle.{JobStep, is_final, is_waiting}
use aiagent.Runs.Lifecycle.Leased.{
  mark-rows, heartbeat-rows, release_for_capacity-rows, release_before_execution-rows,
  finish_from_run-rows,
}
use aiagent.Runs.Lifecycle.Claiming.{claim-rows, IsTaken}
use aiagent.Runs.Lifecycle.Recovering.{recover_expired-rows, cancel_queued-rows, IsDropped}
use aiagent.Runs.Lifecycle.Invariant.{
  JobOk, new_job-JobOk, JobStep-JobOk, JobStep-id, JobStep-final, JobStep-started,
}
use aiagent.Runs.Answers.{Completion, Answers, Failure}
use aiagent.Runs.Durable.{complete_run, finish_run_with_error}
use aiagent.Runs.Lifecycle.Ending.{complete_run-rows, finish_run_with_error-rows, UnderLease}

pub data Step (db : Db) : Db → Type 0 where
  claims :
      (now : ℕ) (locked : ℕ → Bool) (worker token : String) (time : ℕ)
      → Step db (claim now locked worker token time db).1
  starts : (lease : JobLease) (now : ℕ) → Step db (mark_execution_started lease now db).1
  beats : (lease : JobLease) (time now : ℕ) → Step db (heartbeat lease time now db).1
  finishes : (lease : JobLease) (now : ℕ) → Step db (finish_from_run lease now db).1
  releases :
      (lease : JobLease) (code : String) (policy : RetryPolicy) (draw now : ℕ)
      → Step db (release_before_execution lease code policy draw now db).1
  yields_capacity :
      (lease : JobLease) (policy : RetryPolicy) (draw now : ℕ)
      → Step db (release_for_capacity lease policy draw now db).1
  recovers :
      (policy : RetryPolicy) (draws : ℕ → ℕ) (limit : ℕ) (locked : ℕ → Bool) (now : ℕ)
      → Step db (recover_expired policy draws limit locked now db).1
  cancels : (run_id now : ℕ) → Step db (cancel_queued run_id now db).1
  -- A new Run brings a job with a fresh id and at least one attempt.
  submits :
      (id run_id organization_id user_id max_attempts now : ℕ)
      → 0 < max_attempts
      → All (λ j. j.id ≢ id) db.jobs
      → Step db (record db {
        jobs = new_job id run_id organization_id user_id max_attempts now ∷ db.jobs;
      })
  -- `complete_run` and `finish_run_with_error` of conversations/service.py.
  completes :
      (fresh run_id : ℕ) (c : Completion) (lease : Option JobLease) (now : ℕ) (answers : Answers)
      → Step db (complete_run fresh run_id c lease now (answers, db)).2
  errs :
      (run_id : ℕ) (f : Failure) (lease : Option JobLease) (now : ℕ) (answers : Answers)
      → Step db (finish_run_with_error run_id f lease now (answers, db)).2
  -- All other code leaves the table of jobs alone.
  others : (db' : Db) → db'.jobs ≡ db.jobs → Step db db'

pub data Reach (db : Db) : Db → Type 0 where
  here : Reach db db
  next : {d e : Db} → Reach db d → Step d e → Reach db e

-- What a submission brings has the property; the other calls bring no row.
abbrev pub Brings : (P : RunJob → Type 0) {d e : Db} → Step d e → Type 0
Brings P (submits id run_id organization_id user_id max_attempts now _ _) =
    P (new_job id run_id organization_id user_id max_attempts now)
Brings P _ = Unit

-- A submission uses another id; ids are random and do not repeat.
abbrev pub Spares : ℕ → {d e : Db} → Step d e → Type 0
Spares i (submits id _ _ _ _ _ _ _) = id ≢ i
Spares i _ = Unit

abbrev pub AllSpare : ℕ → {d e : Db} → Reach d e → Type 0
AllSpare i here = Unit
AllSpare i (next r s) = AllSpare i r × Spares i s

-- What a call knows of the row that it writes and of what it writes.
abbrev pub Fact : {d e : Db} → Step d e → RunJob → RunJob → Type 0
Fact (claims now locked worker token time) j k = IsTaken now worker token time j k
Fact (starts lease now) j k = holds lease now j ≡ true
Fact (beats lease time now) j k = holds lease now j ≡ true
Fact (finishes lease now) j k = holds lease now j ≡ true
Fact (releases lease code policy draw now) j k = holds lease now j ≡ true
Fact (yields_capacity lease policy draw now) j k = holds lease now j ≡ true
Fact (recovers policy draws limit locked now) j k = expired now locked j ≡ true
Fact (completes fresh run_id c lease now answers) j k = UnderLease lease now j
Fact (errs run_id f lease now answers) j k = UnderLease lease now j
Fact (cancels run_id now) j k = IsDropped j k
Fact (submits id run_id o u max_attempts now pos new) j k = ⊥
Fact (others e same) j k = ⊥

pub Step-rows :
    (P : RunJob → Type 0) {d e : Db} (s : Step d e)
    → ((j k : RunJob) → Fact s j k → JobStep j k → P j → P k)
    → Brings P s
    → All P d.jobs
    → All P e.jobs
Step-rows P {d} (claims now locked worker token time) closed b h =
    claim-rows P now worker token time closed locked d h
Step-rows P {d} (starts lease now) closed b h = mark-rows P lease now closed d h
Step-rows P {d} (beats lease time now) closed b h = heartbeat-rows P lease now closed time d h
Step-rows P {d} (finishes lease now) closed b h = finish_from_run-rows P lease now closed d h
Step-rows P {d} (releases lease code policy draw now) closed b h =
    release_before_execution-rows P lease now closed code policy draw d h
Step-rows P {d} (yields_capacity lease policy draw now) closed b h =
    release_for_capacity-rows P lease now closed policy draw d h
Step-rows P {d} (recovers policy draws limit locked now) closed b h =
    recover_expired-rows P now locked closed policy draws limit d h
Step-rows P {d} (cancels run_id now) closed b h = cancel_queued-rows P closed run_id now d h
Step-rows P {d} (submits id run_id o u max_attempts now pos new) closed b h = (b, h)
Step-rows P {d} (completes fresh run_id c lease now answers) closed b h =
    complete_run-rows P lease now closed fresh run_id c answers d h
Step-rows P {d} (errs run_id f lease now answers) closed b h =
    finish_run_with_error-rows P lease now closed run_id f answers d h
Step-rows P {d} (others e same) closed b h = subst (All P) (sym same) h

Brings-JobOk : {d e : Db} (s : Step d e) → Brings JobOk s
Brings-JobOk (submits id run_id o u m now pos new) = new_job-JobOk id run_id o u m now pos
Brings-JobOk (claims _ _ _ _ _) = tt
Brings-JobOk _ = tt

-- A claim about the rows with one id.
abbrev pub Of : ℕ → (RunJob → Type 0) → RunJob → Type 0
Of i P j = j.id ≡ i → P j

pub Brings-Of :
    (i : ℕ) (P : RunJob → Type 0) {d e : Db} (s : Step d e) → Spares i s → Brings (Of i P) s
unfolding new_job
Brings-Of i P (submits id run_id o u m now pos new) ne = λ e. absurd (ne e)
Brings-Of i P (claims _ _ _ _ _) ne = tt
Brings-Of i P _ ne = tt

module _ (i : ℕ) (P : RunJob → Type 0) (closed : (j k : RunJob) → JobStep j k → P j → P k) where
  Of-closed : (j k : RunJob) → JobStep j k → Of i P j → Of i P k
  Of-closed j k s h e = closed j k s (h (sym (JobStep-id j k s) ∙ e))

  Reach-Of : {d e : Db} (r : Reach d e) → AllSpare i r → All (Of i P) d.jobs → All (Of i P) e.jobs
  Reach-Of here a h = h
  Reach-Of (next r s) a h =
      Step-rows (Of i P) s (λ j k _. Of-closed j k) (Brings-Of i P s a.1) (Reach-Of r a.0 h)

-- From a queue whose rows do so: in every history each job row has its lease columns exactly while
-- it is leased, was never started while it waits, and has failed at most as often as its attempts
-- allow.
pub Reach-JobOk : {d e : Db} → All JobOk d.jobs → Reach d e → All JobOk e.jobs
Reach-JobOk h here = h
Reach-JobOk h (next r s) =
    Step-rows JobOk s (λ j k _. JobStep-JobOk j k) (Brings-JobOk s) (Reach-JobOk h r)

-- Started, and not in the queue.
abbrev pub IsSpent : RunJob → Type 0
IsSpent j = (is_some j.execution_started_at ≡ true) × (is_waiting j.status ≡ false)

-- From a queue whose rows keep the invariant: a job whose execution was once marked as started
-- stays so and is never in the queue again, in any history that does not reuse its id.
pub Reach-started :
    (i : ℕ) {d e : Db} (r : Reach d e)
    → AllSpare i r
    → All JobOk d.jobs
    → All (λ j. j.id ≡ i → is_some j.execution_started_at ≡ true) d.jobs
    → All (λ j. j.id ≡ i → IsSpent j) e.jobs
Reach-started i {d} {e} r a ok h =
    All-zip _ _ _ (λ j k s o. (s o, ground (arith, k.unstarted, s o))) e.jobs (Reach-JobOk ok r)
      (Reach-Of i (λ j. is_some j.execution_started_at ≡ true) JobStep-started r a h)

-- A job with a final status is never changed again, in any history that does not reuse its id.
pub Reach-final :
    (job : RunJob) {d e : Db} (r : Reach d e)
    → AllSpare job.id r
    → is_final job.status ≡ true
    → All (λ j. j.id ≡ job.id → j ≡ job) d.jobs
    → All (λ j. j.id ≡ job.id → j ≡ job) e.jobs
Reach-final job r a final h =
    Reach-Of job.id (λ j. j ≡ job) (λ j k s e. absurd (JobStep-final j k s (rw e final))) r a h
