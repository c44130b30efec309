-- ===== src/Runs/Fencing.antt =====
-- The calls of a worker under its lease, and when it is gone (runs/jobs.py).
use aiagent.Prelude.{
  ℕ, ◌≡◌, String, Bool, true, false, none, update, ◌==◌, arith, some, find-All, if_both, is_some,
  Option-cases, inl, inr, leb, ◌+◌, refl, All-unit, All,
}
use aiagent.Runs.Leases.{JobLease, locked_lease, holds, clear_lease, finish_attempt}
use aiagent.Runs.Rows.{Db, RunJob, find_run, is_terminal}
use aiagent.Runs.Retry.{RetryPolicy}
use aiagent.Runs.Jobs.{
  mark_execution_started, finish_from_run, heartbeat, release_before_execution,
  release_for_capacity,
}
use aiagent.Runs.Lifecycle.Leased.{locked_cases}
use aiagent.Runs.Lifecycle.Reachable.{Reach, AllSpare, Of}
use aiagent.Runs.Revoked.{IsRevoked, saved-IsRevoked, AllFresh, Reach-IsRevoked, revoked-unheld}

-- The methods that a worker calls under its lease.
pub data LeaseCall : Type 0 where
  starts finishes : LeaseCall
  beats : ℕ → LeaseCall
  releases : String → RetryPolicy → ℕ → LeaseCall
  yields_capacity : RetryPolicy → ℕ → LeaseCall

unfoldable pub call : LeaseCall → JobLease → ℕ → Db → Bool × Db
call starts lease now = mark_execution_started lease now
call finishes lease now = finish_from_run lease now
call (beats time) lease now = heartbeat lease time now
call (releases code policy draw) lease now = release_before_execution lease code policy draw now
call (yields_capacity policy draw) lease now = release_for_capacity lease policy draw now

-- A call under a lease that holds no row (it ran out, was recovered, or was given back) is refused
-- and changes nothing, whichever call it is.
pub call_refused :
    (c : LeaseCall) (lease : JobLease) (now : ℕ) (db : Db)
    → locked_lease lease now db ≡ none
    → call c lease now db ≡ (false, db)
unfolding call mark_execution_started finish_from_run heartbeat release_before_execution
    release_for_capacity
call_refused starts lease now db e = rw (e, mark_execution_started)
call_refused finishes lease now db e = rw (e, finish_from_run)
call_refused (beats time) lease now db e = rw (e, heartbeat)
call_refused (releases code policy draw) lease now db e = rw (e, release_before_execution)
call_refused (yields_capacity policy draw) lease now db e = rw (e, release_for_capacity)

-- The calls that give the lease up.
abbrev pub ends_lease : LeaseCall → Bool
ends_lease starts = false
ends_lease (beats _) = false
ends_lease _ = true

-- What a call that succeeds leaves of its lease.
abbrev IsOver : JobLease → Bool × Db → Type 0
IsOver lease r = r.0 ≡ true → All (Of lease.job_id (IsRevoked lease.lease_token)) r.1.jobs

locked-id :
    (lease : JobLease) (now : ℕ) (db : Db) (job : RunJob)
    → locked_lease lease now db ≡ some job
    → job.id ≡ lease.job_id
unfolding locked_lease
locked-id lease now db job e =
    let found =
      (find-All (λ _. Unit {0}) (holds lease now) db.jobs {a = job} (All-unit db.jobs) e).1 in
    ground (arith, found)

call-IsOver :
    (c : LeaseCall) (lease : JobLease) (now : ℕ) (db : Db)
    → ends_lease c ≡ true
    → IsOver lease (call c lease now db)
unfolding call finish_from_run release_before_execution release_for_capacity clear_lease
    finish_attempt
call-IsOver starts lease now db e = λ ok. cc
call-IsOver (beats time) lease now db e = λ ok. cc
call-IsOver finishes lease now db e =
    locked_cases (IsOver lease) lease now db _ (λ no. cc)
      λ job h.
        let same = locked-id lease now db job h in
        elim (Option-cases (find_run lease.run_id db)) [
          | inl f ↦ rw f (λ no. cc)
          | inr (run, f) ↦ rw f (
              if_both (IsOver lease) (is_terminal run.status) _ (false, db)
                (λ _ _. saved-IsRevoked lease.job_id lease.lease_token _ db.jobs same refl)
                (λ _ no. cc))
        ]
call-IsOver (releases code policy draw) lease now db e =
    locked_cases (IsOver lease) lease now db _ (λ no. cc)
      λ job h.
        let same = locked-id lease now db job h in
        if_both (IsOver lease) (is_some job.execution_started_at) (false, db) _ (λ _ no. cc)
          λ idle _.
            if_both
              (λ (r : RunJob × Db). All (Of lease.job_id (IsRevoked lease.lease_token)) (
                update (λ j. j.id == r.0.id)
                  (λ _. clear_lease (record (r.0) { last_error_code = some code })) r.1.jobs))
              (leb job.max_attempts (job.failure_count + 1)) _ _
              (λ _. saved-IsRevoked lease.job_id lease.lease_token _ _ same refl)
              (λ _. saved-IsRevoked lease.job_id lease.lease_token _ _ same refl)
call-IsOver (yields_capacity policy draw) lease now db e =
    locked_cases (IsOver lease) lease now db _ (λ no. cc)
      λ job h.
        let same = locked-id lease now db job h in
        if_both (IsOver lease) (is_some job.execution_started_at) (false, db) _ (λ _ no. cc)
          λ idle _. saved-IsRevoked lease.job_id lease.lease_token _ db.jobs same refl

-- A lease that a successful call gave up holds no row ever again: in every history after the call
-- whose claims make other tokens and whose new jobs have other ids, it holds no row at any time, and
-- each call of a worker under it is refused and changes nothing.
pub call-ends_lease :
    (c : LeaseCall) (lease : JobLease) (now : ℕ) (db : Db) {e : Db}
    → ends_lease c ≡ true
    → (call c lease now db).0 ≡ true
    → (r : Reach (call c lease now db).1 e) → AllSpare lease.job_id r
    → AllFresh lease.lease_token r
    → (later : ℕ)
    → (locked_lease lease later e ≡ none)
      × ((again : LeaseCall) → call again lease later e ≡ (false, e))
unfolding locked_lease
call-ends_lease c lease now db {e} ends done r spare new later =
    let rows =
      Reach-IsRevoked lease.job_id lease.lease_token r spare new
        (call-IsOver c lease now db ends done) in
    let unheld = revoked-unheld lease later e.jobs rows in
    (unheld, λ again. call_refused again lease later e unheld)
