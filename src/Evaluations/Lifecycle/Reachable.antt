-- ===== src/Evaluations/Lifecycle/Reachable.antt =====
-- Every history of the evaluation runs: calls of the methods of evaluations/service.py, in any order and
-- by any users, and what is done in between to other tables.
use aiagent.Evaluations.Rows.{Db, EvaluationRun}
use aiagent.Evaluations.Suite.{EvaluationService}
use aiagent.Evaluations.Policies.{create_run, RunRequest}
use aiagent.Evaluations.Execution.{request_cancel, mark_cancelled, claim_run, find_run, is_open}
use aiagent.Evaluations.Completion.{
  complete_run, fail_run, recover_incomplete_runs, EvaluationCaseOutcome,
}
use aiagent.Evaluations.Lifecycle.{RunOk}
use aiagent.Evaluations.Lifecycle.Rows.{
  Life, AreDistinct, followed_by, Life-AreDistinct, Life-RunOk, Life-closed, still,
}
use aiagent.Evaluations.Lifecycle.Methods.{
  create_run-Life, request_cancel-Life, mark_cancelled-Life, claim_run-Life, complete_run-Life,
  fail_run-Life,
}
use aiagent.Evaluations.Lifecycle.Recovering.{recover_incomplete_runs-Life}
use aiagent.Identity.Rows.{Tables}
use aiagent.Errors.{returns}
use aiagent.Prelude.{ℕ, subst, All, Bool, sym, ◌≡◌, ◌≢◌, some, List, false, String}

pub data Step (db : Db) : Db → Type 0 where
  creates :
      (s : EvaluationService) (who : Tables) (fresh now : ℕ) (r : RunRequest) (before : Db)
      {run : EvaluationRun} {new : Bool} {db' : Db}
      → All (λ b. b.id ≢ fresh) db.evaluation_runs
      → create_run s who fresh now r before db ≡ returns (run, new, db')
      → Step db db'
  asks :
      (who : Tables) (now actor o id : ℕ) {run : EvaluationRun} {db' : Db}
      → request_cancel who now actor o id db ≡ returns (run, db')
      → Step db db'
  cancels : (now id : ℕ) → Step db (mark_cancelled now id db)
  claims : (free : EvaluationRun → Bool) (now id : ℕ) → Step db ((claim_run free now id db).1)
  completes :
      (now id : ℕ) (outcomes : List EvaluationCaseOutcome) {run : EvaluationRun} {db' : Db}
      → complete_run now id outcomes db ≡ returns (run, db')
      → Step db db'
  fails : (now id : ℕ) (code : String) → Step db (fail_run now id code db)
  recovers :
      (free : EvaluationRun → Bool) (now : ℕ) → Step db ((recover_incomplete_runs free now db).1)
  others : (db' : Db) → db'.evaluation_runs ≡ db.evaluation_runs → Step db db'

pub data Reach (db : Db) : Db → Type 0 where
  here : Reach db db
  next : {d e : Db} → Reach db d → Step d e → Reach db e

Step-Life :
    (db : Db) {db' : Db}
    → AreDistinct db.evaluation_runs
    → Step db db'
    → Life db.evaluation_runs db'.evaluation_runs
Step-Life db d (creates s who fresh now r before free e) =
    create_run-Life s fresh now r db who before free e
Step-Life db d (asks who now actor o id e) = request_cancel-Life db d who now actor o id e
Step-Life db d (cancels now id) = mark_cancelled-Life db d now id
Step-Life db d (claims free now id) = claim_run-Life db d free now id
Step-Life db d (completes now id outcomes e) = complete_run-Life db d now id outcomes e
Step-Life db d (fails now id code) = fail_run-Life db d now id code
Step-Life db d (recovers free now) = recover_incomplete_runs-Life free now db d
Step-Life db d (others db' same) = subst (Life db.evaluation_runs) (sym same) still

Reach-Life :
    {db db' : Db}
    → AreDistinct db.evaluation_runs
    → Reach db db'
    → Life db.evaluation_runs db'.evaluation_runs
Reach-Life d here = still
Reach-Life d (next {d = m} r s) =
    let l = Reach-Life d r in followed_by l (Step-Life m (Life-AreDistinct d l) s)

-- From a table that does so: in every history no two runs have one id, and the columns of every run
-- agree with its status. The time of completion is there exactly when the run is over, the result of the
-- gate exactly when it is completed, and then it is what the counts and the limits of the run give; the
-- passed cases and the critical failures are not more than the cases; a cancelled run was asked to
-- cancel, a completed one was not; and an error code is there exactly when the run has failed.
pub Reach-RunOk :
    {db db' : Db}
    → AreDistinct db.evaluation_runs
    → All RunOk db.evaluation_runs
    → Reach db db'
    → AreDistinct db'.evaluation_runs × All RunOk db'.evaluation_runs
Reach-RunOk d h r = let l = Reach-Life d r in (Life-AreDistinct d l, Life-RunOk h l)

-- In a table with no id twice: a run that is completed, failed or cancelled is the same row, in all its
-- columns, after every history.
pub Reach-closed :
    {db db' : Db} (id : ℕ) {run : EvaluationRun}
    → AreDistinct db.evaluation_runs
    → find_run id db ≡ some run
    → is_open run.status ≡ false
    → Reach db db'
    → find_run id db' ≡ some run
Reach-closed id d e over r = Life-closed id e over (Reach-Life d r)
