-- ===== src/Runs/Revoked.antt =====
-- Rows whose lease was given up, in the histories of the queue (runs/jobs.py).
use aiagent.Prelude.{
  ℕ, ◌≡◌, String, List, [], ◌∷◌, true, false, none, find, update, ◌==◌, arith, some, All,
  Bool-cases, Option, inl, inr, ◌⊎◌, refl, str_eq, opt_is, sym, subst, ◌∙◌, true-false,
}
use aiagent.Runs.Rows.{Db, RunJob, is_leased}
use aiagent.Runs.Leases.{JobLease, holds, clear_lease}
use aiagent.Runs.Lifecycle.{JobStep, drop, start, beat, finish, requeue, bury, is_final}
use aiagent.Runs.Lifecycle.Ending.{UnderLease}
use aiagent.Runs.Lifecycle.Invariant.{JobStep-id}
use aiagent.Runs.Lifecycle.Reachable.{
  Step, Reach, AllSpare, Of, Fact, Step-rows, Brings-Of, claims, starts, beats, finishes, releases,
  yields_capacity, recovers, cancels, submits, completes, errs, others, here, next,
}

-- The row carries no lease with the token.
abbrev pub IsRevoked : String → RunJob → Type 0
IsRevoked token j = opt_is str_eq j.lease_token token ≡ false

pub saved-IsRevoked :
    (i : ℕ) (token : String) (job : RunJob) (jobs : List RunJob)
    → job.id ≡ i
    → IsRevoked token job
    → All (Of i (IsRevoked token)) (update (λ j. j.id == job.id) (λ _. job) jobs)
saved-IsRevoked i token job [] e h = tt
saved-IsRevoked i token job (j ∷ jobs) e h = elim (Bool-cases (j.id == job.id)) [
  | inl same ↦ rw same ((λ _. h), saved-IsRevoked i token job jobs e h)
  | inr other ↦
      rw other ((λ k. absurd (true-false (ground arith))), saved-IsRevoked i token job jobs e h)
]

-- A claim makes another token; tokens are random and do not repeat.
abbrev pub IsFresh : String → {d e : Db} → Step d e → Type 0
IsFresh t (claims now locked worker token time) = str_eq token t ≡ false
IsFresh t _ = Unit

abbrev pub AllFresh : String → {d e : Db} → Reach d e → Type 0
AllFresh t here = Unit
AllFresh t (next r s) = AllFresh t r × IsFresh t s

-- Only a claim gives a token to a row.
JobStep-IsRevoked :
    (t : String) (j k : RunJob)
    → JobStep j k
    → (is_leased j.status ≡ true) ⊎ (is_final k.status ≡ true)
    → IsRevoked t j
    → IsRevoked t k
unfolding clear_lease
JobStep-IsRevoked t j k (JobStep.lease _ now worker token time w) (inl held) h =
    absurd (true-false (ground arith))
JobStep-IsRevoked t j k (JobStep.lease _ now worker token time w) (inr over) h =
    absurd (true-false (sym over))
JobStep-IsRevoked t j k (drop _ s code w f) o h = h
JobStep-IsRevoked t j k (start _ now e) o h = h
JobStep-IsRevoked t j k (beat _ now expires e) o h = h
JobStep-IsRevoked t j k (finish _ s code e f) o h = refl
JobStep-IsRevoked t j k (requeue _ failures at code e idle f) o h = refl
JobStep-IsRevoked t j k (bury _ code e f) o h = refl

under_leased :
    (lease : Option JobLease) (now : ℕ) (j : RunJob)
    → UnderLease lease now j
    → is_leased j.status ≡ true
under_leased none now j h = absurd h
under_leased (some lease) now j h = ground arith

IsRevoked-closed :
    (t : String) {d e : Db} (s : Step d e)
    → IsFresh t s
    → (j k : RunJob) → Fact s j k
    → JobStep j k
    → IsRevoked t j
    → IsRevoked t k
IsRevoked-closed t (claims now locked worker token time) new j k (w, inl made) step h =
    subst (IsRevoked t) (sym made) new
IsRevoked-closed t (claims now locked worker token time) new j k (w, inr over) step h =
    JobStep-IsRevoked t j k step (inr over) h
IsRevoked-closed t (starts lease now) new j k f step h =
    JobStep-IsRevoked t j k step (inl (ground arith)) h
IsRevoked-closed t (beats lease time now) new j k f step h =
    JobStep-IsRevoked t j k step (inl (ground arith)) h
IsRevoked-closed t (finishes lease now) new j k f step h =
    JobStep-IsRevoked t j k step (inl (ground arith)) h
IsRevoked-closed t (releases lease code policy draw now) new j k f step h =
    JobStep-IsRevoked t j k step (inl (ground arith)) h
IsRevoked-closed t (yields_capacity lease policy draw now) new j k f step h =
    JobStep-IsRevoked t j k step (inl (ground arith)) h
IsRevoked-closed t (recovers policy draws limit locked now) new j k f step h =
    JobStep-IsRevoked t j k step (inl (ground arith)) h
IsRevoked-closed t (cancels run_id now) new j k f step h = JobStep-IsRevoked t j k step (inr f.1) h
IsRevoked-closed t (submits id run_id o u m now pos fresh) new j k f step h = absurd f
IsRevoked-closed t (completes fresh run_id c lease now answers) new j k f step h =
    JobStep-IsRevoked t j k step (inl (under_leased lease now j f)) h
IsRevoked-closed t (errs run_id failure lease now answers) new j k f step h =
    JobStep-IsRevoked t j k step (inl (under_leased lease now j f)) h
IsRevoked-closed t (others e same) new j k f step h = absurd f

pub Reach-IsRevoked :
    (i : ℕ) (t : String) {d e : Db} (r : Reach d e)
    → AllSpare i r
    → AllFresh t r
    → All (Of i (IsRevoked t)) d.jobs
    → All (Of i (IsRevoked t)) e.jobs
Reach-IsRevoked i t here a n h = h
Reach-IsRevoked i t (next r s) a n h =
    Step-rows (Of i (IsRevoked t)) s
      (λ j k f step old e.
        IsRevoked-closed t s n.1 j k f step (old (sym (JobStep-id j k step) ∙ e)))
      (Brings-Of i (IsRevoked t) s a.1) (Reach-IsRevoked i t r a.0 n.0 h)

pub revoked-unheld :
    (lease : JobLease) (now : ℕ) (jobs : List RunJob)
    → All (Of lease.job_id (IsRevoked lease.lease_token)) jobs
    → find (holds lease now) jobs ≡ none
revoked-unheld lease now [] h = refl
revoked-unheld lease now (j ∷ jobs) h = elim (Bool-cases (holds lease now j)) [
  | inl held ↦
      let gone : IsRevoked lease.lease_token j = h.0 (ground arith) in
      absurd (true-false (ground arith))
  | inr unheld ↦ rw unheld (revoked-unheld lease now jobs h.1)
]
