-- ===== src/Evaluations/Lifecycle/Methods.antt =====
-- The methods of evaluations/service.py as histories of the table of runs, where no id is repeated.
use aiagent.Evaluations.Rows.{Db, EvaluationRun, AgentEvaluationPolicy, EvaluationDatasetVersion}
use aiagent.Evaluations.Suite.{EvaluationService, validate_suite}
use aiagent.Evaluations.Policies.{
  create_run, queue_run, RunRequest, existing_run, after_conflict, is_same_run, new_run, is_taken,
  run_conflict, insert_run,
}
use aiagent.Evaluations.Execution.{
  request_cancel, mark_cancelled, claim_run, open_run, queued_run, is_open, cancel_requested,
  is_queued, save_run, is_running, time_or,
}
use aiagent.Evaluations.Completion.{complete_run, fail_run, EvaluationCaseOutcome}
use aiagent.Evaluations.Lifecycle.{RunStep, RunOk, cancel, ask, fail, complete, start}
use aiagent.Evaluations.Lifecycle.Rows.{Life, AreDistinct, find-id, has_id, change, still, insert}
use aiagent.Identity.Rows.{Tables}
use aiagent.Errors.{
  returns, after-returns, found-returns, require-returns, returns_injective, require, conflict,
}
use aiagent.Prelude.{
  Bool, ℕ, find, All, ◌≡◌, Option-cases, List, String, some, inl, ◌≢◌, true, Bool-cases, arith, inr,
  subst, ap, ◌==◌, is_some, refl, ◌&&◌, any, false, sym, length,
}
use aiagent.Agents.Rows.{AgentVersion}

-- A query found a row, and the row took a step.
changed :
    (p : EvaluationRun → Bool) (db : Db) {run run' : EvaluationRun}
    → AreDistinct db.evaluation_runs
    → find p db.evaluation_runs ≡ some run
    → RunStep run run'
    → Life db.evaluation_runs (save_run run' db).evaluation_runs
changed p db {run} {run'} d e s = change run run' still (find-id p db.evaluation_runs d e) s

after_conflict-db :
    (r : RunRequest) (db : Db) {run : EvaluationRun} {new : Bool} {db' : Db}
    → after_conflict r db ≡ returns (run, new, db')
    → db' ≡ db
after_conflict-db r db {run} {new} {db'} e = elim (Option-cases (existing_run r db)) [
  | inl h ↦ ground (arith, (rw (h, after_conflict) at e))
  | inr (old, h) ↦
      let e1 : require (is_same_run r old) run_conflict (returns (old, false, db))
          ≡ returns (run, new, db') =
        rw (h, after_conflict) at e in
      let (_, e2) = require-returns _ _ _ e1 in
      ap (λ (x : EvaluationRun × Bool × Db). x.2) (sym (returns_injective e2))
]

module _ (s : EvaluationService) (fresh now : ℕ) (r : RunRequest) (db : Db) where
  insert_run-Life :
      (made : EvaluationRun) {run : EvaluationRun} {new : Bool} {db' : Db}
      → All (λ b. b.id ≢ made.id) db.evaluation_runs
      → RunOk made
      → insert_run r made db ≡ returns (run, new, db')
      → Life db.evaluation_runs db'.evaluation_runs
  unfolding insert_run
  insert_run-Life made {run} {new} {db'} free ok e =
      elim (Bool-cases (any (is_taken r) db.evaluation_runs)) [
        | inl taken ↦
            let e6 : after_conflict r db ≡ returns (run, new, db') = rw taken at e in
            subst (λ (d : Db). Life db.evaluation_runs d.evaluation_runs)
              (sym (after_conflict-db r db e6)) still
        | inr not_taken ↦
            let e6 = returns_injective (rw not_taken at e) in
            let rows = ap (λ (x : EvaluationRun × Bool × Db). x.2.evaluation_runs) e6 in
            subst (Life db.evaluation_runs) rows (insert made still free ok)
      ]

  queue_run-Life :
      {run : EvaluationRun} {new : Bool} {db' : Db}
      → All (λ b. b.id ≢ fresh) db.evaluation_runs
      → queue_run s fresh now r db ≡ returns (run, new, db')
      → Life db.evaluation_runs db'.evaluation_runs
  unfolding queue_run validate_suite
  queue_run-Life {run} {new} {db'} free e =
      let (_, _, e1) = found-returns _ _ _ e in
      let (version, _, e2) = found-returns _ _ _ e1 in
      let (policy, _, e3) = found-returns _ _ _ e2 in
      let (verified, _, e4) = after-returns _ _ e3 in
      let (_, e5) = require-returns _ _ _ e4 in
      insert_run-Life _ free (new_run-RunOk version policy verified.0 (length verified.1.cases)) e5
    where
      new_run-RunOk :
          (version : AgentVersion) (policy : AgentEvaluationPolicy) (d : EvaluationDatasetVersion)
          (total : ℕ)
          → RunOk (new_run fresh now r version policy d total)
      new_run-RunOk version policy d total = record {
        closed = refl;
        judged = refl;
        gate = λ e. ground arith;
        counts = omega arith;
        asked = λ e. ground arith;
        unasked = λ e. ground arith;
        error = refl;
      }

  pub create_run-Life :
      (who : Tables) (before : Db) {run : EvaluationRun} {new : Bool} {db' : Db}
      → All (λ b. b.id ≢ fresh) db.evaluation_runs
      → create_run s who fresh now r before db ≡ returns (run, new, db')
      → Life db.evaluation_runs db'.evaluation_runs
  unfolding create_run
  create_run-Life who before {run} {new} {db'} free e =
      let (_, _, e1) = after-returns _ _ e in
      elim (Option-cases (existing_run r before)) [
        | inl h ↦
            let e2 : queue_run s fresh now r db ≡ returns (run, new, db') = rw h at e1 in
            queue_run-Life free e2
        | inr (old, h) ↦
            let e2 : require (is_same_run r old)
                  (conflict "Idempotency key was used for another evaluation run.")
                  (returns (old, false, db))
                ≡ returns (run, new, db') =
              rw h at e1 in
            let (_, e3) = require-returns _ _ _ e2 in
            subst (λ (d : Db). Life db.evaluation_runs d.evaluation_runs)
              (ap (λ (x : EvaluationRun × Bool × Db). x.2) (returns_injective e3)) still
      ]

module _ (db : Db) (d : AreDistinct db.evaluation_runs) where
  cancel_requested-RunStep :
      (now : ℕ) (run : EvaluationRun)
      → is_open run.status ≡ true
      → RunStep run (cancel_requested now run)
  cancel_requested-RunStep now run h = elim (Bool-cases (is_queued run.status)) [
    | inl q ↦ rw q (cancel run now (some now) h refl)
    | inr q ↦ rw q (ask run now (ground arith))
  ]

  pub request_cancel-Life :
      (who : Tables) (now actor o id : ℕ) {run : EvaluationRun} {db' : Db}
      → request_cancel who now actor o id db ≡ returns (run, db')
      → Life db.evaluation_runs db'.evaluation_runs
  unfolding request_cancel
  request_cancel-Life who now actor o id {run} {db'} e =
      let (_, _, e1) = after-returns _ _ e in
      let (old, row, e2) = found-returns _ _ _ e1 in
      elim (Bool-cases (is_open old.status)) [
        | inl h ↦
            let e3 = returns_injective (rw h at e2) in
            subst (Life db.evaluation_runs)
              (ap (λ (x : EvaluationRun × Db). x.1.evaluation_runs) e3)
              (changed _ db d row (cancel_requested-RunStep now old h))
        | inr h ↦
            let e3 = returns_injective (rw h at e2) in
            subst (λ (x : EvaluationRun × Db). Life db.evaluation_runs x.1.evaluation_runs) e3 still
      ]

  open_run-found :
      (id : ℕ) {run : EvaluationRun}
      → open_run id db ≡ some run
      → (find (has_id id) db.evaluation_runs ≡ some run) × (is_open run.status ≡ true)
  open_run-found id {run} e = ground arith

  pub mark_cancelled-Life :
      (now id : ℕ) → Life db.evaluation_runs (mark_cancelled now id db).evaluation_runs
  unfolding mark_cancelled
  mark_cancelled-Life now id = elim (Option-cases (open_run id db)) [
    | inl h ↦ rw (h, mark_cancelled) still
    | inr (run, h) ↦
        let (row, o) = open_run-found id h in
        rw (h, mark_cancelled)
          (changed _ db d row
            (cancel run now (time_or run.cancellation_requested_at now) o (ground arith)))
  ]

  pub claim_run-Life :
      (free : EvaluationRun → Bool) (now id : ℕ)
      → Life db.evaluation_runs (claim_run free now id db).1.evaluation_runs
  unfolding claim_run
  claim_run-Life free now id = elim (Option-cases (queued_run free id db)) [
    | inl h ↦ rw (h, claim_run) still
    | inr (run, h) ↦
        let test : EvaluationRun → Bool = λ run. (run.id == id) && free run in
        let (row, q) : (find test db.evaluation_runs ≡ some run) × (is_queued run.status ≡ true) =
          ground arith in
        elim (Bool-cases (is_some run.cancellation_requested_at)) [
          | inl asked ↦
              rw (h, claim_run, asked)
                (changed _ db d row
                  (cancel run now run.cancellation_requested_at (ground arith) asked))
          | inr unasked ↦ rw (h, claim_run, unasked) (changed _ db d row (start run now q unasked))
        ]
  ]

  pub complete_run-Life :
      (now id : ℕ) (outcomes : List EvaluationCaseOutcome) {run : EvaluationRun} {db' : Db}
      → complete_run now id outcomes db ≡ returns (run, db')
      → Life db.evaluation_runs db'.evaluation_runs
  unfolding complete_run
  complete_run-Life now id outcomes {run} {db'} e =
      let (old, h, e1) = found-returns _ _ _ e in
      let (row, k) : (find (has_id id) db.evaluation_runs ≡ some old)
          × (is_running old.status ≡ true) =
        ground arith in
      elim (Bool-cases (is_some old.cancellation_requested_at)) [
        | inl asked ↦
            let e2 = returns_injective (rw asked at e1) in
            subst (Life db.evaluation_runs)
              (ap (λ (x : EvaluationRun × Db). x.1.evaluation_runs) e2)
              (changed _ db d row
                (cancel old now old.cancellation_requested_at (ground arith) asked))
        | inr unasked ↦
            let e2 = returns_injective (rw unasked at e1) in
            subst (Life db.evaluation_runs)
              (ap (λ (x : EvaluationRun × Db). x.1.evaluation_runs) e2)
              (changed _ db d row (complete old now outcomes k unasked))
      ]

  pub fail_run-Life :
      (now id : ℕ) (code : String)
      → Life db.evaluation_runs (fail_run now id code db).evaluation_runs
  unfolding fail_run
  fail_run-Life now id code = elim (Option-cases (open_run id db)) [
    | inl h ↦ rw (h, fail_run) still
    | inr (run, h) ↦
        let (row, o) = open_run-found id h in
        rw (h, fail_run) (changed _ db d row (fail run now code o))
  ]
