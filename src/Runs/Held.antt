-- ===== src/Runs/Held.antt =====
-- Rows that a lease holds, in the histories of the queue (runs/jobs.py).
use aiagent.Prelude.{
  ℕ, ◌≤◌, ◌≡◌, refl, inl, inr, Bool, true, none, some, List, [], ◌∷◌, String, arith, find, All,
  str_eq, update, ◌==◌, Bool-cases, sym, Option, opt_is, true-false, ap, ◌≢◌, ◌∙◌,
}
use text.Mathlib.TextEquality.{eq_iff}
use aiagent.Runs.Rows.{RunJob, Db, is_waiting}
use aiagent.Runs.Leases.{JobLease, holds}
use aiagent.Runs.Lifecycle.Reachable.{
  Of, Step, Reach, starts, next, Fact, AllSpare, beats, here, claims, Step-rows, finishes, releases,
  Brings-Of, yields_capacity, recovers, completes, cancels, errs, submits, others,
}
use aiagent.Runs.Recovery.{expired}
use aiagent.Errors.{some_injective}
use aiagent.Runs.Lifecycle.Ending.{UnderLease}
use aiagent.Runs.Lifecycle.Invariant.{JobStep-id}

-- The rows with the job's id are held by the lease at an instant.
abbrev pub IsHeldBy : JobLease → ℕ → RunJob → Type 0
IsHeldBy l t j = holds l t j ≡ true

pub written-IsHeldBy :
    (l : JobLease) (t : ℕ) (row : RunJob) (jobs : List RunJob)
    → row.id ≡ l.job_id
    → IsHeldBy l t row
    → All (Of l.job_id (IsHeldBy l t)) (update (λ j. j.id == row.id) (λ _. row) jobs)
written-IsHeldBy l t row [] i h = tt
written-IsHeldBy l t row (j ∷ jobs) i h = elim (Bool-cases (j.id == row.id)) [
  | inl same ↦ rw same ((λ _. h), written-IsHeldBy l t row jobs i h)
  | inr other ↦
      rw other ((λ e. absurd (true-false (ground arith))), written-IsHeldBy l t row jobs i h)
]

text_of : (o : Option String) (x : String) → opt_is str_eq o x ≡ true → o ≡ some x
text_of none x h = cc
text_of (some y) x h = ap some ((eq_iff y x).0 h)

-- Leases that hold one row have one token.
holds-token :
    (k l : JobLease) (u t : ℕ) (j : RunJob)
    → holds k u j ≡ true
    → holds l t j ≡ true
    → k.lease_token ≡ l.lease_token
holds-token k l u t j h g =
    let a : opt_is str_eq j.lease_token k.lease_token ≡ true = ground (arith, h) in
    let b : opt_is str_eq j.lease_token l.lease_token ≡ true = ground (arith, g) in
    some_injective (sym (text_of j.lease_token _ a) ∙ text_of j.lease_token _ b)

-- A lease that is given has another token.
abbrev HasOtherToken : JobLease → Option JobLease → Type 0
HasOtherToken l none = Unit
HasOtherToken l (some k) = k.lease_token ≢ l.lease_token

-- Not a call under the lease itself; and a recovery is not later than the instant.
abbrev pub IsOther : JobLease → ℕ → {d e : Db} → Step d e → Type 0
IsOther l t (starts k now) = k.lease_token ≢ l.lease_token
IsOther l t (beats k time now) = k.lease_token ≢ l.lease_token
IsOther l t (finishes k now) = k.lease_token ≢ l.lease_token
IsOther l t (releases k code policy draw now) = k.lease_token ≢ l.lease_token
IsOther l t (yields_capacity k policy draw now) = k.lease_token ≢ l.lease_token
IsOther l t (recovers policy draws limit locked now) = now ≤ t
IsOther l t (completes fresh run_id c k now answers) = HasOtherToken l k
IsOther l t (errs run_id f k now answers) = HasOtherToken l k
IsOther l t _ = Unit

abbrev pub AllOther : JobLease → ℕ → {d e : Db} → Reach d e → Type 0
AllOther l t here = Unit
AllOther l t (next r s) = AllOther l t r × IsOther l t s

held-other :
    (k : Option JobLease) (l : JobLease) (u t : ℕ) (j : RunJob)
    → HasOtherToken l k
    → UnderLease k u j
    → holds l t j ≡ true
    → ⊥
held-other none l u t j ne h g = h
held-other (some k) l u t j ne h g = ne (holds-token k l u t j h g)

unexpired :
    (l : JobLease) (t now : ℕ) (locked : ℕ → Bool) (j : RunJob)
    → now ≤ t
    → expired now locked j ≡ true
    → holds l t j ≡ true
    → ⊥
unexpired l t now locked j le x h = true-false (ground arith)

not_waiting :
    (l : JobLease) (t : ℕ) (j : RunJob) → is_waiting j.status ≡ true → holds l t j ≡ true → ⊥
not_waiting l t j w h = true-false (ground arith)

-- No other call writes a row that the lease holds.
held-unwritten :
    (l : JobLease) (t : ℕ) {d e : Db} (s : Step d e)
    → IsOther l t s
    → (j k : RunJob) → Fact s j k
    → holds l t j ≡ true
    → ⊥
held-unwritten l t (claims now locked worker token time) o j k f h = not_waiting l t j f.0 h
held-unwritten l t (starts lease now) o j k f h = o (holds-token lease l now t j f h)
held-unwritten l t (beats lease time now) o j k f h = o (holds-token lease l now t j f h)
held-unwritten l t (finishes lease now) o j k f h = o (holds-token lease l now t j f h)
held-unwritten l t (releases lease code policy draw now) o j k f h =
    o (holds-token lease l now t j f h)
held-unwritten l t (yields_capacity lease policy draw now) o j k f h =
    o (holds-token lease l now t j f h)
held-unwritten l t (recovers policy draws limit locked now) o j k f h =
    unexpired l t now locked j o f h
held-unwritten l t (cancels run_id now) o j k f h = not_waiting l t j f.0 h
held-unwritten l t (submits id run_id org u m now pos new) o j k f h = f
held-unwritten l t (completes fresh run_id c lease now answers) o j k f h =
    held-other lease l now t j o f h
held-unwritten l t (errs run_id failure lease now answers) o j k f h =
    held-other lease l now t j o f h
held-unwritten l t (others e same) o j k f h = f

pub Reach-IsHeldBy :
    (l : JobLease) (t : ℕ) {d e : Db} (r : Reach d e)
    → AllSpare l.job_id r
    → AllOther l t r
    → All (Of l.job_id (IsHeldBy l t)) d.jobs
    → All (Of l.job_id (IsHeldBy l t)) e.jobs
Reach-IsHeldBy l t here a o h = h
Reach-IsHeldBy l t (next r s) a o h =
    Step-rows (Of l.job_id (IsHeldBy l t)) s
      (λ j k f step held e.
        absurd (held-unwritten l t s o.1 j k f (held (sym (JobStep-id j k step) ∙ e))))
      (Brings-Of l.job_id (IsHeldBy l t) s a.1) (Reach-IsHeldBy l t r a.0 o.0 h)

pub held-excludes :
    (l k : JobLease) (t u : ℕ) (jobs : List RunJob)
    → All (Of l.job_id (IsHeldBy l t)) jobs
    → k.job_id ≡ l.job_id
    → k.lease_token ≢ l.lease_token
    → find (holds k u) jobs ≡ none
held-excludes l k t u [] h same ne = refl
held-excludes l k t u (j ∷ jobs) h same ne = elim (Bool-cases (holds k u j)) [
  | inl held ↦ absurd (ne (holds-token k l u t j held (h.0 (ground arith))))
  | inr unheld ↦ rw unheld (held-excludes l k t u jobs h.1 same ne)
]
