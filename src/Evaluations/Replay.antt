-- ===== src/Evaluations/Replay.antt =====
-- The key of a request for an evaluation run (evaluations/service.py).
use aiagent.Evaluations.Policies.{
  RunRequest, insert_run, after_conflict, existing_run, is_same_run, has_run_key, is_taken,
  run_conflict, queue_run, create_run, new_run,
}
use aiagent.Evaluations.Rows.{Db, EvaluationRun}
use aiagent.Agents.Release.{real_key}
use text.Mathlib.TextPositions.{eq_refl}
use aiagent.Errors.{
  after_known, require_known, require, returns, require-returns, returns_injective, conflict,
  after-returns, found-returns,
}
use aiagent.Prelude.{
  ◌≡◌, String, some, true, arith, Bool, Option-cases, ==_refl, inl, none, inr, find, false, ◌∷◌,
  subst, Bool-cases, any, refl, ℕ, ◌==◌, ◌&&◌, length, ◌∙◌,
}
use aiagent.Evaluations.Suite.{validate_suite, EvaluationService}
use aiagent.Identity.Rows.{Tables}

-- The tables have a run of the key, and it is the request's.
abbrev pub HasRun : RunRequest → Db → EvaluationRun → Type 0
HasRun r db run = (existing_run r db ≡ some run) × (is_same_run r run ≡ true)

module _ (r : RunRequest) (key : String) (keyed : real_key r.idempotency_key ≡ some key) where
  real_key_given : r.idempotency_key ≡ some key
  real_key_given = ground (arith, keyed)

  after_conflict-HasRun :
      (db : Db) {run : EvaluationRun} {new : Bool} {db' : Db}
      → after_conflict r db ≡ returns (run, new, db')
      → HasRun r db' run
  after_conflict-HasRun db {run} {new} {db'} e = elim (Option-cases (existing_run r db)) [
    | inl h ↦ ground (arith, (rw (h, after_conflict) at e))
    | inr (old, h) ↦
        let e1 : require (is_same_run r old) run_conflict (returns (old, false, db))
            ≡ returns (run, new, db') =
          rw (h, after_conflict) at e in
        let (same, e2) = require-returns _ _ _ e1 in
        subst (λ (y : EvaluationRun × Bool × Db). HasRun r y.2 y.0) (returns_injective e2) (h, same)
  ]

  insert_run-HasRun :
      (made : EvaluationRun) (db : Db) {run : EvaluationRun} {new : Bool} {db' : Db}
      → made.organization_id ≡ r.organization_id
      → made.idempotency_key ≡ r.idempotency_key
      → is_same_run r made ≡ true
      → insert_run r made db ≡ returns (run, new, db')
      → HasRun r db' run
  unfolding insert_run
  insert_run-HasRun made db {run} {new} {db'} o k same e =
      elim (Bool-cases (any (is_taken r) db.evaluation_runs)) [
        | inl taken ↦ after_conflict-HasRun db (rw taken at e)
        | inr not_taken ↦
            let e1 = returns_injective (rw not_taken at e) in
            subst (λ (y : EvaluationRun × Bool × Db). HasRun r y.2 y.0) e1 (first_found, same)
      ]
    where
      own : has_run_key r.organization_id key made ≡ true
      own = ground (arith, o, k, real_key_given, eq_refl key, ==_refl r.organization_id)

      first_found :
          elim (real_key r.idempotency_key) [
            | none ↦ none
            | some name ↦ find (has_run_key r.organization_id name) (made ∷ db.evaluation_runs)
          ]
          ≡ some made
      first_found = rw (keyed, own) refl

  queue_run-HasRun :
      (s : EvaluationService) (fresh now : ℕ) (db : Db) {run : EvaluationRun} {new : Bool}
      {db' : Db}
      → queue_run s fresh now r db ≡ returns (run, new, db')
      → HasRun r db' run
  unfolding queue_run validate_suite
  queue_run-HasRun s fresh now db {run} {new} {db'} e =
      let (_, _, e1) = found-returns _ _ _ e in
      let (version, _, e2) = found-returns _ _ _ e1 in
      let (policy, _, e3) = found-returns _ _ _ e2 in
      let (verified, _, e4) = after-returns _ _ e3 in
      let (_, e5) = require-returns _ _ _ e4 in
      insert_run-HasRun (new_run fresh now r version policy verified.0 (length verified.1.cases)) db
        refl refl own e5
    where
      own : ((r.agent_id == r.agent_id) && (r.agent_version_id == r.agent_version_id)) ≡ true
      own = ground (arith, ==_refl r.agent_id, ==_refl r.agent_version_id)

  -- A request with a key that is made again, on the tables that the first one left, when that returned:
  -- it returns the same run, as one that is not new, and writes nothing.
  pub create_run-create_run :
      (s : EvaluationService) (who : Tables) (fresh fresh' now now' : ℕ) (db : Db)
      {run : EvaluationRun} {new : Bool} {db' : Db}
      → create_run s who fresh now r db db ≡ returns (run, new, db')
      → create_run s who fresh' now' r db' db' ≡ returns (run, false, db')
  unfolding create_run
  create_run-create_run s who fresh fresh' now now' db {run} {new} {db'} e =
      let (granted, a, e1) = after-returns _ _ e in
      let (h, same) = first_call e1 in after_known _ _ a ∙ again h same
    where
      first_call :
          elim (existing_run r db) [
            | none ↦ queue_run s fresh now r db
            | some old ↦
                require
                  (is_same_run r old)
                  (conflict "Idempotency key was used for another evaluation run.")
                  (returns (old, false, db))
          ]
            ≡ returns (run, new, db')
          → HasRun r db' run
      first_call e1 = elim (Option-cases (existing_run r db)) [
        | inl h ↦ queue_run-HasRun s fresh now db (rw h at e1)
        | inr (old, h) ↦
            let e2 : require (is_same_run r old)
                  (conflict "Idempotency key was used for another evaluation run.")
                  (returns (old, false, db))
                ≡ returns (run, new, db') =
              rw h at e1 in
            let (same, e3) = require-returns _ _ _ e2 in
            subst (λ (y : EvaluationRun × Bool × Db). HasRun r y.2 y.0) (returns_injective e3)
              (h, same)
      ]

      again :
          existing_run r db' ≡ some run
          → is_same_run r run ≡ true
          → elim (existing_run r db') [
            | none ↦ queue_run s fresh' now' r db'
            | some old ↦
                require
                  (is_same_run r old)
                  (conflict "Idempotency key was used for another evaluation run.")
                  (returns (old, false, db'))
          ]
            ≡ returns (run, false, db')
      again h same = rw h (require_known _ _ _ same)
