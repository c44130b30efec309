-- ===== src/Runs/Exclusive.antt =====
-- The rows that the leases of `claim` hold, and how long they do (runs/jobs.py).
use aiagent.Prelude.{
  ℕ, ◌+◌, ◌≤◌, ◌≡◌, refl, inl, inr, Bool, true, none, some, List, [], ◌∷◌, String, arith, find, All,
  update, All-map, Option-cases, ◌==◌, Bool-cases, sym, first_by, keep, ◌≢◌,
}
use text.Mathlib.TextPositions.{eq_refl}
use aiagent.Runs.Rows.{RunJob, Db, Has, find_run, is_terminal}
use aiagent.Runs.Leases.{JobLease, locked_lease, holds}
use aiagent.Runs.Claims.{claim, claim_job, claimable, queued_before, leased_job}
use aiagent.Runs.Lifecycle.Claiming.{claim_pick}
use aiagent.Runs.Held.{IsHeldBy, written-IsHeldBy, AllOther, Reach-IsHeldBy, held-excludes}
use aiagent.Runs.Lifecycle.Reachable.{Reach, AllSpare, Of}

-- A row saved under an id that the table has is what a search by that id finds.
find-saved :
    (p : RunJob → Bool) (row : RunJob) (jobs : List RunJob)
    → p row ≡ true
    → ((j : RunJob) → p j ≡ true → j.id ≡ row.id)
    → Has row.id jobs
    → find p (update (λ j. j.id == row.id) (λ _. row) jobs) ≡ some row
find-saved p row [] h k i = elim i [ ]
find-saved p row (j ∷ jobs) h k (inl same) = ground arith
find-saved p row (j ∷ jobs) h k (inr later) = ground (arith, k j, find-saved p row jobs h k later)

own_ids : (jobs : List RunJob) → All (λ j. Has j.id jobs) jobs
own_ids [] = tt
own_ids (j ∷ jobs) = (inl refl, All-map _ _ (λ k h. inr h) jobs (own_ids jobs))

-- Up to its expiry.
abbrev pub Holds : JobLease → ℕ → Db → Type 0
Holds l t db = (row : RunJob) × (locked_lease l t db ≡ some row) × (row.id ≡ l.job_id)

-- What a granted claim leaves.
abbrev IsGrant : ℕ → String → String → ℕ → RunJob → Db → JobLease → Db → Type 0
IsGrant now worker token time job db l db' =
    let row = leased_job now worker token time job in
    (l.job_id ≡ job.id)
    × (l.worker_id ≡ worker)
    × (l.lease_token ≡ token)
    × (db'.jobs ≡ update (λ j. j.id == row.id) (λ _. row) db.jobs)

claim_job-IsGrant :
    (now : ℕ) (worker token : String) (time : ℕ) (job : RunJob) (db : Db) {l : JobLease}
    → (claim_job now worker token time job db).0 ≡ some l
    → IsGrant now worker token time job db l (claim_job now worker token time job db).1
unfolding claim_job
claim_job-IsGrant now worker token time job db {l} e =
    elim (Option-cases (find_run job.run_id db)) [
      | inl f ↦ ground arith
      | inr (run, f) ↦ elim (Bool-cases (is_terminal run.status)) [
        | inl ended ↦ ground arith
        | inr live ↦ (ground arith, ground arith, ground arith, ground arith)
      ]
    ]

grant-Holds :
    (now : ℕ) (worker token : String) (time t : ℕ) (job : RunJob) (db db' : Db) (l : JobLease)
    → Has job.id db.jobs
    → IsGrant now worker token time job db l db'
    → t ≤ now + time
    → Holds l t db'
unfolding locked_lease
grant-Holds now worker token time t job db db' l has (i, w, tok, rows) late =
    let row = leased_job now worker token time job in
    (
      row,
      rw rows (
          find-saved (holds l t) row db.jobs (ground (arith, eq_refl worker, eq_refl token))
            (λ j h. ground arith) has),
      sym i,
    )

grant-IsHeldBy :
    (now : ℕ) (worker token : String) (time t : ℕ) (job : RunJob) (db db' : Db) (l : JobLease)
    → IsGrant now worker token time job db l db'
    → t ≤ now + time
    → All (Of l.job_id (IsHeldBy l t)) db'.jobs
grant-IsHeldBy now worker token time t job db db' l (i, w, tok, rows) late =
    let row = leased_job now worker token time job in
    rw rows
      (written-IsHeldBy l t row db.jobs (sym i) (ground (arith, eq_refl worker, eq_refl token)))

claim-held :
    (now : ℕ) (locked : ℕ → Bool) (worker token : String) (time t : ℕ) (db : Db) {l : JobLease}
    → (claim now locked worker token time db).0 ≡ some l
    → t ≤ now + time
    → Holds l t (claim now locked worker token time db).1
      × All (Of l.job_id (IsHeldBy l t)) (claim now locked worker token time db).1.jobs
unfolding claim
claim-held now locked worker token time t db {l} e late =
    elim (Option-cases (first_by queued_before (keep (claimable now locked) db.jobs))) [
      | inl empty ↦ ground arith
      | inr (job, h) ↦
          let made : (claim_job now worker token time job db).0 ≡ some l = rw (h, claim) at e in
          let grant = claim_job-IsGrant now worker token time job db made in
          let has = (claim_pick (λ j. Has j.id db.jobs) now locked db job (own_ids db.jobs) h).0 in
          let db' = (claim_job now worker token time job db).1 in
          rw (h, claim)
            (
              grant-Holds now worker token time t job db db' l has grant late,
              grant-IsHeldBy now worker token time t job db db' l grant late,
            )
    ]

-- A granted claim leaves a row of its job that its lease holds until it expires. Take any history
-- after the claim of calls that are not under this lease, whose recoveries are no later than an instant
-- before the expiry and whose new jobs have other ids: every row of the job is still held by the lease
-- at that instant, and no lease of the job with another token holds a row at any time.
pub claim-exclusive :
    (now : ℕ) (locked : ℕ → Bool) (worker token : String) (time t : ℕ) (db : Db) {l : JobLease}
    {d : Db}
    → (claim now locked worker token time db).0 ≡ some l
    → t ≤ now + time
    → (r : Reach (claim now locked worker token time db).1 d) → AllSpare l.job_id r
    → AllOther l t r
    → Holds l t (claim now locked worker token time db).1
      × All (λ j. j.id ≡ l.job_id → holds l t j ≡ true) d.jobs
      × ((k : JobLease) (u : ℕ)
          → k.job_id ≡ l.job_id
          → k.lease_token ≢ l.lease_token
          → locked_lease k u d ≡ none)
unfolding locked_lease
claim-exclusive now locked worker token time t db {l} {d} e late r spare other =
    let (holding, held) = claim-held now locked worker token time t db e late in
    let rows = Reach-IsHeldBy l t r spare other held in
    (holding, rows, λ k u same ne. held-excludes l k t u d.jobs rows same ne)
