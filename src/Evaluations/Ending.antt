-- ===== src/Evaluations/Ending.antt =====
-- Every run that evaluations/executor.py claims comes to an end.
use aiagent.Evaluations.Cases.{EvaluationExecutor}
use aiagent.Evaluations.Executor.{
  Surroundings, CasesEnd, execute, finish_cases, execute_cases, prepare, all_done, cancelled_case,
  shut_down_case, handled,
}
use aiagent.Evaluations.Rows.{Db, EvaluationRun}
use aiagent.Evaluations.Execution.{
  open_run, find_run, mark_cancelled, claim_run, cancelled_run, save_run, is_open, time_or,
}
use aiagent.Evaluations.Completion.{
  complete_run, fail_run, failed_run, completed_run, EvaluationCaseOutcome,
}
use aiagent.Evaluations.Lifecycle.Rows.{has_id}
use aiagent.Errors.{returns, raises, returns_injective, found-returns, Attempt}
use aiagent.Prelude.{
  ℕ, ◌≡◌, String, List, some, none, false, arith, Option-cases, find-All, inl, Bool-cases, ◌+◌,
  All-unit, inr, is_some, subst, refl, [], find, update, find-update_self, sym, if◌then◌else◌,
  if_both,
}
use aiagent.Agents.Config.{AgentVersionConfig}
use aiagent.Evaluations.Suite.{EvaluationSuite}

-- A row with the id is found, and is saved as one that is over.
saved-closed :
    (id : ℕ) (db : Db) {run : EvaluationRun} (run' : EvaluationRun)
    → find_run id db ≡ some run
    → run'.id ≡ run.id
    → is_open run'.status ≡ false
    → open_run id (save_run run' db) ≡ none
saved-closed id db {run} run' e same over =
    let held =
      (find-All (λ _. Unit {0}) (has_id id) db.evaluation_runs {a = run}
        (All-unit db.evaluation_runs) e).1 in
    let own : run'.id ≡ id = ground (arith, held, same) in
    let f : find_run id (save_run run' db) ≡ some run' =
      subst
        (λ i. find (has_id i) (update (has_id run'.id) (λ _. run') db.evaluation_runs) ≡ some run')
        own
        (find-update_self (has_id run'.id) run' db.evaluation_runs {a = run}
          (subst (λ i. find (has_id i) db.evaluation_runs ≡ some run) (sym own) e)
          (ground arith)) in
    ground (arith, f, over)

open-found :
    (id : ℕ) (db : Db) {run : EvaluationRun} → open_run id db ≡ some run → find_run id db ≡ some run
open-found id db {run} e = ground arith

mark_cancelled-closed : (now id : ℕ) (db : Db) → open_run id (mark_cancelled now id db) ≡ none
unfolding mark_cancelled
mark_cancelled-closed now id db = elim (Option-cases (open_run id db)) [
  | inl h ↦ rw (h, mark_cancelled) h
  | inr (run, h) ↦
      let run' : EvaluationRun = record (cancelled_run now run) {
        cancellation_requested_at = time_or run.cancellation_requested_at now;
      } in
      rw (h, mark_cancelled) (saved-closed id db run' (open-found id db h) refl refl)
]

fail_run-closed :
    (now id : ℕ) (code : String) (db : Db) → open_run id (fail_run now id code db) ≡ none
unfolding fail_run
fail_run-closed now id code db = elim (Option-cases (open_run id db)) [
  | inl h ↦ rw (h, fail_run) h
  | inr (run, h) ↦
      rw (h, fail_run) (saved-closed id db (failed_run now code run) (open-found id db h) refl refl)
]

complete_run-closed :
    (now id : ℕ) (outcomes : List EvaluationCaseOutcome) (db : Db) {run : EvaluationRun} {db' : Db}
    → complete_run now id outcomes db ≡ returns (run, db')
    → open_run id db' ≡ none
unfolding complete_run
complete_run-closed now id outcomes db {run} {db'} e =
    let (old, h, e1) = found-returns _ _ _ e in
    let row : find_run id db ≡ some old = ground arith in
    elim (Bool-cases (is_some old.cancellation_requested_at)) [
      | inl asked ↦
          let e2 = returns_injective (rw asked at e1) in
          subst (λ (y : EvaluationRun × Db). open_run id y.1 ≡ none) e2
            (saved-closed id db (cancelled_run now old) row refl refl)
      | inr unasked ↦
          let e2 = returns_injective (rw unasked at e1) in
          subst (λ (y : EvaluationRun × Db). open_run id y.1 ≡ none) e2
            (saved-closed id db (completed_run now outcomes old) row refl refl)
    ]

module _ (x : EvaluationExecutor) (w : Surroundings) (uncut : w.handler_cut ≡ false) where
  handled-closed :
      (id : ℕ) (written seen : Db)
      → open_run id written ≡ none
      → open_run id (handled w written seen) ≡ none
  handled-closed id written seen h = rw uncut h

  -- The end after a `complete_run` that was not cancelled.
  completed-closed :
      (id k : ℕ) (outcomes : List EvaluationCaseOutcome) (seen : Db)
      (attempt : Attempt (EvaluationRun × Db))
      → ((run : EvaluationRun) (db' : Db) → attempt ≡ returns (run, db') → open_run id db' ≡ none)
      → open_run id (elim attempt [
        | returns done ↦
            let after_it = w.between (k + 2) done.1 in
            if w.shut_down (k + 1)
            then handled w (fail_run (w.now (k + 1)) id "service_shutdown" after_it) after_it
            else done.1
        | raises _ ↦
            let later = w.between (k + 2) seen in
            handled w (fail_run (w.now (k + 1)) id "evaluation_execution_failed" later) later
      ])
        ≡ none
  completed-closed id k outcomes seen (returns (run, db')) h =
      if_both (λ d. open_run id d ≡ none) (w.shut_down (k + 1)) _ db'
        (λ _. handled-closed id _ _ (fail_run-closed _ id _ _)) (λ _. h run db' refl)
  completed-closed id k outcomes seen (raises error) h =
      handled-closed id _ _ (fail_run-closed _ id _ _)

  finish_cases-closed :
      (id : ℕ) (end : CasesEnd × ℕ × Db) → open_run id (finish_cases x w id end) ≡ none
  unfolding finish_cases
  finish_cases-closed id (cancelled_case, k, db) =
      handled-closed id _ _ (mark_cancelled-closed _ id _)
  finish_cases-closed id (shut_down_case, k, db) = handled-closed id _ _ (fail_run-closed _ id _ _)
  finish_cases-closed id (all_done outcomes, k, db) =
      let seen = w.between (k + 1) db in
      if_both (λ d. open_run id d ≡ none) (w.shut_down k) _ _
        (λ _. handled-closed id _ _ (fail_run-closed _ id _ _))
        (λ _.
          completed-closed id k outcomes seen (complete_run (w.now k) id outcomes seen)
            (λ _ _ e. complete_run-closed _ id outcomes seen e))

  prepared-closed :
      (id : ℕ) (row : EvaluationRun) (seen : Db)
      (ready : Attempt (AgentVersionConfig × EvaluationSuite))
      → open_run id (elim ready [
        | raises _ ↦
            let later = w.between 2 seen in
            handled w (fail_run (w.now 2) id "evaluation_execution_failed" later) later
        | returns r ↦ finish_cases x w id (execute_cases x w row r.0 r.1.cases [] 2 seen)
      ])
        ≡ none
  prepared-closed id row seen (returns r) = finish_cases-closed id _
  prepared-closed id row seen (raises error) = handled-closed id _ _ (fail_run-closed _ id _ _)

  -- When the executor claims a run, a query by its id finds no queued or running run after the last
  -- transaction of the executor, whatever the model and the tools answer, whatever other transactions do
  -- in between, and whether or not the task is cancelled while it prepares, runs a case or completes the
  -- run; only a cancellation while an `except` clause writes the end of the run is excluded.
  pub execute-closed :
      (id : ℕ) (db : Db) {run : EvaluationRun}
      → (execute x w id db).0 ≡ some run
      → open_run id (execute x w id db).1 ≡ none
  unfolding execute
  execute-closed id db {run} e =
      let claimed = claim_run w.free (w.now 0) id (w.between 0 db) in
      elim (Option-cases claimed.0) [
        | inl h ↦ ground (arith, h, (rw (h, execute) at e))
        | inr (row, h) ↦
            let seen = w.between 1 claimed.1 in
            rw (h, execute)
              (if_both (λ d. open_run id d ≡ none) (w.shut_down 1) _ _
                (λ _. handled-closed id _ _ (fail_run-closed _ id _ _))
                (λ _. prepared-closed id row seen (prepare x w row seen)))
      ]
