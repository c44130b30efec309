-- ===== src/Runs/Order.antt =====
-- The order in which `RunJobService.claim` hands out jobs (runs/jobs.py).
use aiagent.Prelude.{
  ℕ, ◌≡◌, Bool, true, false, none, some, List, String, arith, first_by, All, ◌∷◌, ◌≤◌, IsIn,
  own_rows, Option-cases, inl, inr, [], Bool-cases, keep, All-map, All-of_keep, subst,
}
use aiagent.Runs.Rows.{RunJob, Db, is_waiting}
use aiagent.Runs.Leases.{JobLease}
use aiagent.Runs.Claims.{claim, claim_job, claimable, queued_before}
use aiagent.Runs.Lifecycle.Claiming.{claim_pick}

queued_before-asym : (a b : RunJob) → queued_before a b ≡ true → queued_before b a ≡ false
queued_before-asym a b h = ground arith

queued_before-trans_not :
    (a b c : RunJob)
    → queued_before a b ≡ false
    → queued_before b c ≡ false
    → queued_before a c ≡ false
queued_before-trans_not a b c h k = ground arith

first_by-none :
    (first : RunJob) (jobs : List RunJob)
    → first_by queued_before jobs ≡ none
    → All (λ j. queued_before j first ≡ false) jobs
first_by-none first [] e = tt
first_by-none first (j ∷ jobs) e = ground arith

-- No row of the table comes before the first one.
first_by-least :
    (jobs : List RunJob) (first : RunJob)
    → first_by queued_before jobs ≡ some first
    → All (λ j. queued_before j first ≡ false) jobs
first_by-least [] first e = tt
first_by-least (j ∷ jobs) first e = elim (Option-cases (first_by queued_before jobs)) [
  | inl empty ↦ ground (arith, first_by-none j jobs empty)
  | inr (k, h) ↦
      let least = first_by-least jobs k h in
      elim (Bool-cases (queued_before k j)) [
        | inl before ↦
            let same : k ≡ first = ground (arith, h, e) in
            subst (λ f. All (λ i. queued_before i f ≡ false) (j ∷ jobs)) same
              (queued_before-asym k j before, least)
        | inr after ↦
            let same : j ≡ first = ground (arith, h, e) in
            subst (λ f. All (λ i. queued_before i f ≡ false) (j ∷ jobs)) same
              (ground arith, All-map _ _ (λ i p. queued_before-trans_not i k j p after) jobs least)
      ]
]

claim_job-id :
    (now : ℕ) (worker token : String) (time : ℕ) (job : RunJob) (db : Db) {l : JobLease}
    → (claim_job now worker token time job db).0 ≡ some l
    → job.id ≡ l.job_id
unfolding claim_job
claim_job-id now worker token time job db {l} e = ground arith

-- The job that a claim hands out is a row of the table that was waiting, due and locked by nobody,
-- and no row of the table that was waiting, due and locked by nobody came before it in the order of
-- `available_at`, `created_at` and `id`.
pub claim-oldest :
    (now : ℕ) (locked : ℕ → Bool) (worker token : String) (time : ℕ) (db : Db) {l : JobLease}
    → (claim now locked worker token time db).0 ≡ some l
    → (job : RunJob) × IsIn job db.jobs
      × (job.id ≡ l.job_id)
      × (is_waiting job.status ≡ true)
      × (job.available_at ≤ now)
      × (locked job.id ≡ false)
      × All
          (λ j.
            is_waiting j.status ≡ true
            → j.available_at ≤ now
            → locked j.id ≡ false
            → queued_before j job ≡ false)
          db.jobs
unfolding claim
claim-oldest now locked worker token time db {l} e =
    elim (Option-cases (first_by queued_before (keep (claimable now locked) db.jobs))) [
      | inl empty ↦ ground arith
      | inr (job, h) ↦
          let made : (claim_job now worker token time job db).0 ≡ some l = rw (h, claim) at e in
          let (row, picked) =
            claim_pick (λ j. IsIn j db.jobs) now locked db job (own_rows db.jobs) h in
          (
            job,
            row,
            claim_job-id now worker token time job db made,
            ground (arith, picked),
            ground (arith, picked),
            ground (arith, picked),
            All-map _ _ (λ j first waits due unlocked. first (ground arith)) db.jobs
                (All-of_keep _ (claimable now locked) db.jobs (first_by-least _ job h)),
          )
    ]
