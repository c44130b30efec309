-- ===== src/Evaluations/Lifecycle/Recovering.antt =====
-- `recover_incomplete_runs` of evaluations/service.py.
use aiagent.Evaluations.Rows.{Db, EvaluationRun}
use aiagent.Evaluations.Execution.{is_running, is_queued, is_open}
use aiagent.Evaluations.Completion.{
  fail_runs, recover_incomplete_runs, failed_run, interrupted, is_earlier,
}
use aiagent.Evaluations.Lifecycle.{fail}
use aiagent.Evaluations.Lifecycle.Rows.{
  Life, AreDistinct, saved, has_id, followed_by, still, change,
}
use aiagent.Prelude.{
  ℕ, List, Bool, ◌∷◌, ◌≡◌, All, if◌then◌else◌, ◌&&◌, keep, find, All-keep, [], ◌≢◌, map, some,
  Bool-cases, refl, arith, inl, order_by, true, subst, ap, All-zip, inr, sym, ◌∙◌,
  find-update_other, All-map,
}

-- The loop on the table of runs.
abbrev fail_rows : ℕ → List EvaluationRun → List EvaluationRun → List EvaluationRun
fail_rows now [] rows = rows
fail_rows now (run ∷ runs) rows = fail_rows now runs (saved (failed_run now interrupted run) rows)

fail_runs-fail_rows :
    (now : ℕ) (runs : List EvaluationRun) (db : Db)
    → (fail_runs now runs db).evaluation_runs ≡ fail_rows now runs db.evaluation_runs
fail_runs-fail_rows now [] db = refl
fail_runs-fail_rows now (run ∷ runs) db = fail_runs-fail_rows now runs _

saved_none :
    (run : EvaluationRun) (rows : List EvaluationRun)
    → All (λ b. b.id ≢ run.id) rows
    → saved run rows ≡ rows
saved_none run [] h = refl
saved_none run (x ∷ rows) h = ground (arith, h.0, saved_none run rows h.1)

-- A row that the loop does not name stands as it was.
fail_rows-cons :
    (now : ℕ) (x : EvaluationRun) (runs rows : List EvaluationRun)
    → All (λ b. b.id ≢ x.id) runs
    → fail_rows now runs (x ∷ rows) ≡ x ∷ fail_rows now runs rows
fail_rows-cons now x [] rows h = refl
fail_rows-cons now x (run ∷ runs) rows h =
    ap (fail_rows now runs) kept
    ∙ fail_rows-cons now x runs (saved (failed_run now interrupted run) rows) h.1
  where
    kept :
        saved (failed_run now interrupted run) (x ∷ rows)
        ≡ x ∷ saved (failed_run now interrupted run) rows
    kept = ground (arith, h.0)

-- What the loop makes of one row.
abbrev pub recovered_run : (EvaluationRun → Bool) → ℕ → EvaluationRun → EvaluationRun
recovered_run free now run =
    if is_running run.status && free run then failed_run now interrupted run else run

module _ (free : EvaluationRun → Bool) (now : ℕ) where
  abbrev taken : EvaluationRun → Bool
  taken run = is_running run.status && free run

  -- A property of the rows holds of those that are taken.
  keep-All :
      (P : EvaluationRun → Type 0) (p : EvaluationRun → Bool) (rows : List EvaluationRun)
      → All P rows
      → All P (keep p rows)
  keep-All P p rows h = All-map _ _ (λ _ k. k.0) (keep p rows) (All-keep P p rows h)

  fail_rows-map :
      (rows : List EvaluationRun)
      → AreDistinct rows
      → fail_rows now (keep taken rows) rows ≡ map (recovered_run free now) rows
  fail_rows-map [] h = refl
  fail_rows-map (x ∷ rows) h =
      let others = keep-All (λ b. b.id ≢ x.id) taken rows h.0 in
      let rest = fail_rows-map rows h.1 in
      elim (Bool-cases (taken x)) [
        | inl yes_x ↦
            let w = failed_run now interrupted x in
            let first : saved w (x ∷ rows) ≡ w ∷ rows = ground (arith, saved_none w rows h.0) in
            rw yes_x (
              ap (fail_rows now (keep taken rows)) first
              ∙ (fail_rows-cons now w (keep taken rows) rows others ∙ ap (λ l. w ∷ l) rest))
        | inr no_x ↦
            rw no_x (fail_rows-cons now x (keep taken rows) rows others ∙ ap (λ l. x ∷ l) rest)
      ]

  -- Where no id is repeated: the recovery after a restart fails the rows that are running and not
  -- locked, in their place, leaves every other row as it is, and returns the queued rows by their time.
  pub recover_incomplete_runs-map :
      (db : Db)
      → AreDistinct db.evaluation_runs
      → ((recover_incomplete_runs free now db).1.evaluation_runs
          ≡ map (recovered_run free now) db.evaluation_runs)
        × ((recover_incomplete_runs free now db).0
            ≡ order_by is_earlier (keep (λ run. is_queued run.status) db.evaluation_runs))
  unfolding recover_incomplete_runs
  recover_incomplete_runs-map db h =
      let rows =
        fail_runs-fail_rows now (keep taken db.evaluation_runs) db
        ∙ fail_rows-map db.evaluation_runs h in
      (
        rows,
        ap (order_by is_earlier)
            (ap (keep (λ run. is_queued run.status)) rows ∙ queued_same db.evaluation_runs),
      )
    where
      queued_same :
          (rows : List EvaluationRun)
          → keep (λ run. is_queued run.status) (map (recovered_run free now) rows)
            ≡ keep (λ run. is_queued run.status) rows
      queued_same [] = refl
      queued_same (x ∷ rows) = ground (arith, queued_same rows)

  abbrev Recoverable : List EvaluationRun → EvaluationRun → Type 0
  Recoverable rows run = (find (has_id run.id) rows ≡ some run) × (is_running run.status ≡ true)

  fail_rows-Life :
      (runs rows : List EvaluationRun)
      → AreDistinct runs
      → All (Recoverable rows) runs
      → Life rows (fail_rows now runs rows)
  fail_rows-Life [] rows d h = still
  fail_rows-Life (run ∷ runs) rows d h =
      let w = failed_run now interrupted run in
      let opened : is_open run.status ≡ true = ground (arith, h.0.1) in
      followed_by (change run w still h.0.0 (fail run now interrupted opened)) (
        fail_rows-Life runs (saved w rows) d.1 (
          All-zip _ _ _
            (λ x other r. (
              find-update_other (has_id x.id) (has_id run.id) w rows (ground (arith, other))
                    (λ y k. ground (arith, k, other))
                  ∙ r.0,
              r.1,
            ))
            runs d.0 h.1))

  found_rows :
      (rows : List EvaluationRun)
      → AreDistinct rows
      → All (λ run. find (has_id run.id) rows ≡ some run) rows
  found_rows [] h = tt
  found_rows (x ∷ rows) h = (
    ground arith,
    All-zip _ _ _ (λ run other e. ground (arith, other, e)) rows h.0 (found_rows rows h.1),
  )

  keep-AreDistinct :
      (p : EvaluationRun → Bool) (rows : List EvaluationRun)
      → AreDistinct rows
      → AreDistinct (keep p rows)
  keep-AreDistinct p [] h = tt
  keep-AreDistinct p (x ∷ rows) h =
      let rest = keep-AreDistinct p rows h.1 in
      elim (Bool-cases (p x)) [
        | inl yes_x ↦ rw yes_x (keep-All (λ b. b.id ≢ x.id) p rows h.0, rest)
        | inr no_x ↦ rw no_x rest
      ]

  pub recover_incomplete_runs-Life :
      (db : Db)
      → AreDistinct db.evaluation_runs
      → Life db.evaluation_runs (recover_incomplete_runs free now db).1.evaluation_runs
  unfolding recover_incomplete_runs
  recover_incomplete_runs-Life db h =
      let rows = db.evaluation_runs in
      let at =
        All-keep (λ run. find (has_id run.id) rows ≡ some run) taken rows (found_rows rows h) in
      subst (Life rows) (sym (fail_runs-fail_rows now (keep taken rows) db)) (
        fail_rows-Life (keep taken rows) rows (keep-AreDistinct taken rows h)
          (All-map _ _ (λ run k. (k.0, ground (arith, k.1))) (keep taken rows) at))
