-- ===== src/Evaluations/Execution.antt =====
-- The methods of evaluations/service.py that change the status of a run. `now` is the time of the call;
-- a run that `skip_locked` passes over is one that `free` does not admit.
use aiagent.Evaluations.Suite.{EvaluationService, EvaluationSuite, validate_suite}
use aiagent.Evaluations.Datasets.{verified_version}
use aiagent.Evaluations.Rows.{EvaluationRun, EvaluationRunStatus, Db, add_entry, user_audit}
use aiagent.Identity.Rows.{Tables}
use aiagent.Identity.Access.{access}
use aiagent.Errors.{Attempt, after, found, returns, resource_not_found}
use aiagent.Prelude.{
  Bool, ℕ, update, String, Option, true, ◌||◌, find, ◌==◌, some, if◌then◌else◌, none, false, ◌&&◌,
  is_some,
}
use aiagent.Json.{Fields, end, field, str}
use aiagent.Audit.{AuditRequest}

abbrev pub is_queued : EvaluationRunStatus → Bool
is_queued EvaluationRunStatus.queued = true
is_queued _ = false

abbrev pub is_running : EvaluationRunStatus → Bool
is_running EvaluationRunStatus.running = true
is_running _ = false

abbrev pub is_open : EvaluationRunStatus → Bool
is_open status = is_queued status || is_running status

abbrev pub find_run : ℕ → Db → Option EvaluationRun
find_run run_id db = find (λ run. run.id == run_id) db.evaluation_runs

-- The columns of one run are written.
abbrev pub save_run : EvaluationRun → Db → Db
save_run run db = record db {
  evaluation_runs = update (λ other. other.id == run.id) (λ _. run) db.evaluation_runs;
}

-- An audit record about a run.
abbrev pub run_audit : EvaluationRun → ℕ → String → Fields → AuditRequest
run_audit run actor_id action details =
    user_audit run.organization_id actor_id action "evaluation_run" (some run.id)
      (some run.trace_id) details

abbrev pub status_text : EvaluationRunStatus → String
status_text EvaluationRunStatus.queued = "queued"
status_text EvaluationRunStatus.running = "running"
status_text EvaluationRunStatus.completed = "completed"
status_text EvaluationRunStatus.failed = "failed"
status_text EvaluationRunStatus.cancelled = "cancelled"

abbrev pub cancelled_run : ℕ → EvaluationRun → EvaluationRun
cancelled_run now run = record run {
  status = EvaluationRunStatus.cancelled;
  completed_at = some now;
}

-- What a request to cancel makes of a run that is open.
abbrev pub cancel_requested : ℕ → EvaluationRun → EvaluationRun
cancel_requested now run =
    if is_queued run.status
    then record (cancelled_run now run) { cancellation_requested_at = some now }
    else record run { cancellation_requested_at = some now }

unfoldable pub request_cancel : Tables → ℕ → ℕ → ℕ → ℕ → Db → Attempt (EvaluationRun × Db)
request_cancel who now actor_id organization_id run_id db =
    after (access actor_id organization_id (some "eval:run:create") who) λ _.
      found
        (find (λ run. (run.id == run_id) && (run.organization_id == organization_id))
          db.evaluation_runs)
        (resource_not_found "Evaluation run not found.")
        λ run.
          if is_open run.status
          then (let run' = cancel_requested now run in
              returns (
                run',
                add_entry
                    (run_audit run' actor_id "evaluation.run_cancel_requested"
                      (field "status" (str (status_text run'.status)) end))
                    (save_run run' db),
              ))
          else returns (run, db)

abbrev pub time_or : Option ℕ → ℕ → Option ℕ
time_or none now = some now
time_or (some time) now = some time

-- The row if it is open.
abbrev pub open_run : ℕ → Db → Option EvaluationRun
open_run run_id db = elim (find_run run_id db) [
  | none ↦ none
  | some run ↦ if is_open run.status then some run else none
]

unfoldable pub mark_cancelled : ℕ → ℕ → Db → Db
mark_cancelled now run_id db = elim (open_run run_id db) [
  | none ↦ db
  | some run ↦
      let run' : EvaluationRun = record (cancelled_run now run) {
        cancellation_requested_at = time_or run.cancellation_requested_at now;
      } in
      add_entry (run_audit run' run.requested_by "evaluation.run_cancelled" end) (save_run run' db)
]

-- A queued run that no other transaction has locked.
abbrev pub queued_run : (EvaluationRun → Bool) → ℕ → Db → Option EvaluationRun
queued_run free run_id db = elim (find (λ run. (run.id == run_id) && free run) db.evaluation_runs) [
  | none ↦ none
  | some run ↦ if is_queued run.status then some run else none
]

abbrev pub started_run : ℕ → EvaluationRun → EvaluationRun
started_run now run = record run { status = EvaluationRunStatus.running; started_at = some now }

unfoldable pub claim_run : (EvaluationRun → Bool) → ℕ → ℕ → Db → Option EvaluationRun × Db
claim_run free now run_id db = elim (queued_run free run_id db) [
  | none ↦ (none, db)
  | some run ↦
      if is_some run.cancellation_requested_at
      then (none, save_run (cancelled_run now run) db)
      else (some (started_run now run), save_run (started_run now run) db)
]

unfoldable pub load_suite : EvaluationService → EvaluationRun → Db → Attempt EvaluationSuite
load_suite s run db =
    after (verified_version s run.organization_id run.dataset_version_id db)
      λ verified. validate_suite s verified.1 (returns verified.1)

unfoldable pub is_cancel_requested : ℕ → Db → Bool
is_cancel_requested run_id db = elim (find_run run_id db) [
  | none ↦ false
  | some run ↦ is_some run.cancellation_requested_at
]
