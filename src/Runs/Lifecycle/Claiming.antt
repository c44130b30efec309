-- ===== src/Runs/Lifecycle/Claiming.antt =====
-- `claim` (runs/jobs.py) as steps of the lifecycle.
use aiagent.Prelude.{
  ℕ, ◌≡◌, refl, inl, inr, Bool, true, Option, none, some, String, arith, All, All-keep,
  first_by-All, Option-cases, if_both, keep, first_by, ◌⊎◌,
}
use aiagent.Runs.Rows.{RunJobStatus, RunJob, Db, is_terminal, is_waiting, find_run}
use aiagent.Runs.Leases.{JobLease}
use aiagent.Runs.Claims.{claim_job, claimable, queued_before, claim, leased_job}
use aiagent.Runs.Lifecycle.{JobStep, lease, drop, saved-All, job_status_for_run-final, is_final}

-- The row that `claim` picks is in the table, waits in the queue and is due.
pub claim_pick :
    (P : RunJob → Type 0) (now : ℕ) (locked : ℕ → Bool) (db : Db) (job : RunJob)
    → All P db.jobs
    → first_by queued_before (keep (claimable now locked) db.jobs) ≡ some job
    → P job × (claimable now locked job ≡ true)
claim_pick P now locked db job v e =
    first_by-All (λ j. P j × (claimable now locked j ≡ true)) queued_before
      (keep (claimable now locked) db.jobs) {a = job} (All-keep P _ db.jobs v) e

-- What a claim makes of the waiting row that it picks: a leased one, or one that is over.
abbrev pub IsTaken : ℕ → String → String → ℕ → RunJob → RunJob → Type 0
IsTaken now worker token time j k =
    (is_waiting j.status ≡ true)
    × ((k ≡ leased_job now worker token time j) ⊎ (is_final k.status ≡ true))

module _ (P : RunJob → Type 0) (now : ℕ) (worker token : String) (time : ℕ)
    (closed : (j k : RunJob) → IsTaken now worker token time j k → JobStep j k → P j → P k) where
  abbrev Keeps : Option JobLease × Db → Type 0
  Keeps r = All P r.1.jobs

  claim_job-rows :
      (job : RunJob) (db : Db)
      → All P db.jobs
      → P job
      → is_waiting job.status ≡ true
      → Keeps (claim_job now worker token time job db)
  unfolding claim_job
  claim_job-rows job db v h e = elim (Option-cases (find_run job.run_id db)) [
    | inl f ↦
        rw (f, claim_job)
          (saved-All P _ db.jobs v
            (closed _ _ (e, inr refl) (drop job RunJobStatus.failed _ e refl) h))
    | inr (run, f) ↦
        rw (f, claim_job)
          (if_both Keeps (is_terminal run.status) _ _
            (λ _. saved-All P _ db.jobs v (
              let over = job_status_for_run-final run.status in
              closed _ _ (e, inr over) (drop job _ none e over) h))
            (λ _.
              saved-All P _ db.jobs v
                (closed _ _ (e, inl refl) (lease job now worker token time e) h)))
  ]

  pub claim-rows :
      (locked : ℕ → Bool) (db : Db)
      → All P db.jobs
      → All P (claim now locked worker token time db).1.jobs
  unfolding claim
  claim-rows locked db v =
      elim (Option-cases (first_by queued_before (keep (claimable now locked) db.jobs))) [
        | inl e ↦ rw (e, claim) v
        | inr (job, e) ↦
            let h = claim_pick P now locked db job v e in
            rw (e, claim) (claim_job-rows job db v h.0 (ground (arith, h.1)))
      ]
