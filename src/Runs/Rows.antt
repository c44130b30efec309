-- ===== src/Runs/Rows.antt =====
-- The tables that runs/jobs.py and the end of a Run in conversations/service.py read and write
-- (persistence/models.py). A row has the columns
-- that this code uses; a UUID and an instant (in microseconds) are natural numbers.
use aiagent.Prelude.{
  ℕ, ◌≡◌, Bool, true, false, none, Option, List, ◌∷◌, String, ◌==◌, update, find, ◌⊎◌, [],
}
use aiagent.Audit.{AuditRequest}

pub data RunStatus : Type 0 where
  queued running completed failed cancelled timed_out : RunStatus

pub data RunJobStatus : Type 0 where
  queued leased retry_wait succeeded failed dead_letter cancelled : RunJobStatus

pub record Run : Type 0 where
  pub id : ℕ
  pub organization_id : ℕ
  pub user_id : ℕ
  pub trace_id : ℕ
  pub conversation_id : ℕ
  pub assistant_message_id : Option ℕ
  pub status : RunStatus
  pub error_code : Option String
  pub error_message : Option String
  pub started_at : Option ℕ
  pub completed_at : Option ℕ
  pub created_at : ℕ

pub record RunJob : Type 0 where
  pub id : ℕ
  pub run_id : ℕ
  pub organization_id : ℕ
  pub user_id : ℕ
  pub status : RunJobStatus
  pub available_at : ℕ
  pub attempt_count : ℕ
  pub failure_count : ℕ
  pub max_attempts : ℕ
  pub lease_owner : Option String
  pub lease_token : Option String
  pub lease_expires_at : Option ℕ
  pub heartbeat_at : Option ℕ
  pub execution_started_at : Option ℕ
  pub last_error_code : Option String
  pub created_at : ℕ

pub record RunJobAttempt : Type 0 where
  pub job_id : ℕ
  pub attempt_number : ℕ
  pub worker_id : String
  pub lease_token : String
  pub completed_at : Option ℕ
  pub outcome : Option String
  pub error_code : Option String

pub record RunStep : Type 0 where
  pub run_id : ℕ
  pub sequence : ℕ
  pub status : String
  pub completed_at : Option ℕ

-- `metrics` holds the labels of the increments of RUN_JOBS_TOTAL, newest first.
pub record Db : Type 0 where
  pub runs : List Run
  pub jobs : List RunJob
  pub attempts : List RunJobAttempt
  pub steps : List RunStep
  pub audit : List AuditRequest
  pub metrics : List String

-- `status in _TERMINAL_RUN_STATUSES`.
abbrev pub is_terminal : RunStatus → Bool
is_terminal RunStatus.queued = false
is_terminal RunStatus.running = false
is_terminal _ = true

abbrev pub is_running : RunStatus → Bool
is_running RunStatus.running = true
is_running _ = false

-- `status in (QUEUED, RETRY_WAIT)`.
abbrev pub is_waiting : RunJobStatus → Bool
is_waiting RunJobStatus.queued = true
is_waiting RunJobStatus.retry_wait = true
is_waiting _ = false

abbrev pub is_leased : RunJobStatus → Bool
is_leased RunJobStatus.leased = true
is_leased _ = false

-- `RunJobStatus.value`.
abbrev pub job_status_value : RunJobStatus → String
job_status_value RunJobStatus.queued = "queued"
job_status_value RunJobStatus.leased = "leased"
job_status_value RunJobStatus.retry_wait = "retry_wait"
job_status_value RunJobStatus.succeeded = "succeeded"
job_status_value RunJobStatus.failed = "failed"
job_status_value RunJobStatus.dead_letter = "dead_letter"
job_status_value RunJobStatus.cancelled = "cancelled"

abbrev pub find_run : ℕ → Db → Option Run
find_run id db = find (λ r. r.id == id) db.runs

-- The write-back of a row that the session changed.
abbrev pub save_job : RunJob → Db → Db
save_job job db = record db { jobs = update (λ j. j.id == job.id) (λ _. job) db.jobs }

abbrev pub save_run : Run → Db → Db
save_run run db = record db { runs = update (λ r. r.id == run.id) (λ _. run) db.runs }

abbrev pub add_audit : AuditRequest → Db → Db
add_audit request db = record db { audit = request ∷ db.audit }

abbrev pub count_metric : String → Db → Db
count_metric label db = record db { metrics = label ∷ db.metrics }

-- `RunJob(run_id=..., max_attempts=...)` with the defaults of its columns.
unfoldable pub new_job : ℕ → ℕ → ℕ → ℕ → ℕ → ℕ → RunJob
new_job id run_id organization_id user_id max_attempts now = record {
  id = id;
  run_id = run_id;
  organization_id = organization_id;
  user_id = user_id;
  status = RunJobStatus.queued;
  available_at = now;
  attempt_count = 0;
  failure_count = 0;
  max_attempts = max_attempts;
  lease_owner = none;
  lease_token = none;
  lease_expires_at = none;
  heartbeat_at = none;
  execution_started_at = none;
  last_error_code = none;
  created_at = now;
}

-- Some row of the list has the id.
abbrev pub Has : ℕ → List RunJob → Type 0
Has i [] = ⊥
Has i (j ∷ js) = (j.id ≡ i) ⊎ Has i js
