-- ===== src/Tests/Jobs.antt =====
-- The queue of runs/jobs.py on small tables.
use aiagent.Prelude.{
  refl, ℕ, All, some, Bool, ◌≡◌, none, ◌∷◌, false, arith, [], true, IsIn, ◌≢◌, ◌≤◌,
}
use aiagent.Runs.Retry.{RetryPolicy}
use aiagent.Runs.Rows.{Run, RunJob, RunStatus, RunJobStatus, Db, is_waiting}
use aiagent.Runs.Leases.{JobLease, locked_lease, holds}
use aiagent.Runs.Claims.{claim, leased_job, queued_before}
use aiagent.Runs.Lifecycle.Reachable.{
  Reach, next, here, Reach-JobOk, IsSpent, Reach-final, Step, Reach-started,
}
use aiagent.Runs.Fencing.{call, LeaseCall, call-ends_lease}
use aiagent.Runs.Lifecycle.Invariant.{JobOk}
use aiagent.Runs.Recovery.{recover_expired, expired}
use aiagent.Runs.Jobs.{release_before_execution}
use aiagent.Runs.Sweep.{recover_expired_complete}
use aiagent.Runs.Order.{claim-oldest}
use aiagent.Runs.Exclusive.{Holds, claim-exclusive}
use aiagent.Runs.Answers.{Completion, Failure, Answers}
use aiagent.Runs.Durable.{complete_run}

abbrev policy : RetryPolicy
policy = record { delay = 5_000_000; max_delay = 60_000_000; jitter_ratio = 0 }

abbrev run : Run
run = record {
  id = 10;
  organization_id = 1;
  user_id = 2;
  trace_id = 77;
  conversation_id = 3;
  assistant_message_id = none;
  status = RunStatus.running;
  error_code = none;
  error_message = none;
  started_at = none;
  completed_at = none;
  created_at = 5;
}

abbrev waiting_job : RunJob
waiting_job = record {
  id = 4;
  run_id = 10;
  organization_id = 1;
  user_id = 2;
  status = RunJobStatus.queued;
  available_at = 5;
  attempt_count = 0;
  failure_count = 0;
  max_attempts = 3;
  lease_owner = none;
  lease_token = none;
  lease_expires_at = none;
  heartbeat_at = none;
  execution_started_at = none;
  last_error_code = none;
  created_at = 5;
}

-- Its lease lasts until 150.
abbrev leased : RunJob
leased = leased_job 50 "w1" "t1" 100 waiting_job

abbrev started : RunJob
started = record leased { execution_started_at = some 60 }

abbrev done : RunJob
done = record waiting_job { status = RunJobStatus.succeeded; attempt_count = 1 }

abbrev db_with : RunJob → Db
db_with job = record {
  runs = run ∷ [];
  jobs = job ∷ [];
  attempts = [];
  steps = [];
  audit = [];
  metrics = [];
}

abbrev first_lease : JobLease
first_lease = record {
  job_id = 4;
  run_id = 10;
  organization_id = 1;
  user_id = 2;
  trace_id = 77;
  budget_day = 0;
  worker_id = "w1";
  lease_token = "t1";
  attempt_number = 1;
}

abbrev free : ℕ → Bool
free _ = false

abbrev ratio : ℕ
ratio = 200_000

abbrev no_draws : ℕ → ℕ
no_draws _ = 0

claim-waiting : (claim 50 free "w1" "t1" 100 (db_with waiting_job)).0 ≡ some first_lease
unfolding claim
claim-waiting = refl

waiting-JobOk : All JobOk (db_with waiting_job).jobs
waiting-JobOk = ground arith

started-JobOk : All JobOk (db_with started).jobs
started-JobOk = ground arith

abbrev claims_it : Reach (db_with waiting_job) (claim 50 free "w1" "t1" 100 (db_with waiting_job)).1
claims_it = next here (Step.claims 50 free "w1" "t1" 100)

Reach-JobOk_example : All JobOk (claim 50 free "w1" "t1" 100 (db_with waiting_job)).1.jobs
Reach-JobOk_example = Reach-JobOk waiting-JobOk claims_it

abbrev recovers_it :
    Reach (db_with started) (recover_expired policy no_draws 10 free 200 (db_with started)).1
recovers_it = next here (Step.recovers policy no_draws 10 free 200)

Reach-started_example :
    All
      (λ j. j.id ≡ 4 → IsSpent j)
      (recover_expired policy no_draws 10 free 200 (db_with started)).1.jobs
Reach-started_example = Reach-started 4 recovers_it (tt, tt) started-JobOk ((λ e. refl), tt)

Reach-final_example :
    All
      (λ j. j.id ≡ 4 → j ≡ done)
      (recover_expired policy no_draws 10 free 200 (db_with done)).1.jobs
Reach-final_example =
    Reach-final done (next here (Step.recovers policy no_draws 10 free 200)) (tt, tt) refl
      ((λ e. refl), tt)

call-releases :
    (call (LeaseCall.releases "worker_error" policy 0) first_lease 70 (db_with leased)).0 ≡ true
unfolding call release_before_execution locked_lease
call-releases = refl

-- The job that was given back is claimed again, with another token.
abbrev given_back : Db
given_back = (call (LeaseCall.releases "worker_error" policy 0) first_lease 70 (db_with leased)).1

abbrev claimed_again : Db
claimed_again = (claim 9_000_000 free "w2" "t2" 100 given_back).1

call-ends_lease_example :
    (locked_lease first_lease 80 claimed_again ≡ none)
    × ((again : LeaseCall) → call again first_lease 80 claimed_again ≡ (false, claimed_again))
call-ends_lease_example =
    call-ends_lease (LeaseCall.releases "worker_error" policy 0) first_lease 70 (db_with leased)
      refl call-releases (next here (Step.claims 9_000_000 free "w2" "t2" 100)) (tt, tt) (tt, refl)
      80

claim-oldest_example :
    (job : RunJob) × IsIn job (db_with waiting_job).jobs
    × (job.id ≡ 4)
    × (is_waiting job.status ≡ true)
    × (job.available_at ≤ 50)
    × (free job.id ≡ false)
    × All
        (λ j.
          is_waiting j.status ≡ true
          → j.available_at ≤ 50
          → free j.id ≡ false
          → queued_before j job ≡ false)
        (db_with waiting_job).jobs
claim-oldest_example =
    claim-oldest 50 free "w1" "t1" 100 (db_with waiting_job) {l = first_lease} claim-waiting

abbrev claimed : Db
claimed = (claim 50 free "w1" "t1" 100 (db_with waiting_job)).1

-- The sweep at 120 finds the lease still good.
abbrev swept : Db
swept = (recover_expired policy no_draws 10 free 120 claimed).1

claim-exclusive_example :
    Holds first_lease 150 claimed
    × All (λ j. j.id ≡ 4 → holds first_lease 150 j ≡ true) swept.jobs
    × ((k : JobLease) (u : ℕ) → k.job_id ≡ 4 → k.lease_token ≢ "t1" → locked_lease k u swept ≡ none)
claim-exclusive_example =
    claim-exclusive 50 free "w1" "t1" 100 150 (db_with waiting_job) {l = first_lease} {d = swept}
      claim-waiting (omega arith) (next here (Step.recovers policy no_draws 10 free 120)) (tt, tt)
      (tt, omega arith)

recover_expired_complete_example :
    All
      (λ j. expired 200 free j ≡ false)
      (recover_expired policy no_draws 10 free 200 (db_with leased)).1.jobs
    × ((recover_expired policy no_draws 10 free 200 (db_with leased)).0 ≡ 1)
recover_expired_complete_example =
    recover_expired_complete policy no_draws 10 free 200 (db_with leased) (omega arith)

abbrev answer : Completion
answer = record {
  answer = "done";
  provider = "p";
  model = "m";
  input_tokens = 3;
  output_tokens = 4;
  cost_usd = 0;
  citations = [];
  tool_invocations = [];
}

abbrev failure : Failure
failure = record {
  status = RunStatus.failed;
  error_code = "late";
  public_message = "late";
  provider = none;
  model = none;
  input_tokens = none;
  output_tokens = none;
  cost_usd = none;
}

abbrev no_answers : Answers
no_answers = record { messages = []; tool_invocations = []; citations = []; usages = [] }

abbrev answered : Bool × Answers × Db
answered = complete_run 90 10 answer (some first_lease) 70 (no_answers, db_with started)
