-- ===== src/Governance/Quota/Refusal.antt =====
-- Refusals by `acquire` of governance/quota.py.
use aiagent.Governance.Keys.{
  Redis, Store, SetKey, RunQuotaLease, RunQuota, set_key_eq, concurrent_organization,
  concurrent_user, rate_user, keys,
}
use aiagent.Governance.Scripts.{Outcome, acquire_script, pruned, acquire_outcome, when_ok, acquired}
use aiagent.Prelude.{
  ℕ, ◌≡◌, ◌≢◌, ◌⊎◌, inl, inr, refl, true, none, some, ℤ, Bool, Option, Bool-cases, String, subst,
  sym, leb_ℤ, ◌/◌, pos, sub_ℕ,
}
use aiagent.Governance.Quota.{acquire, Argv, admitted, quota_exceeded, day_or, argv}
use aiagent.Governance.Redis.{kept_score}
use aiagent.Governance.Quota.Admission.{when_ok-refused}

-- The score up to which a member of a set has run out: a Run holds its place until its score, and
-- counts for the rate during the minute after it.
abbrev pub run_out : ℕ → SetKey → ℤ
run_out now_ms (concurrent_organization _) = pos now_ms
run_out now_ms (concurrent_user _) = pos now_ms
run_out now_ms (rate_user _) = sub_ℕ now_ms 60_000

-- What becomes of a member of a set: nothing, or its score has run out and it is gone.
abbrev IsPruned : ℤ → Option ℕ → Option ℕ → Type 0
IsPruned bound old new =
    (new ≡ old)
    ⊎ ((score : ℕ) × (old ≡ some score) × (leb_ℤ (pos score) bound ≡ true) × (new ≡ none))

kept-IsPruned : (bound : ℤ) (old : Option ℕ) → IsPruned bound old (kept_score bound old)
kept-IsPruned bound none = inl refl
kept-IsPruned bound (some x) = elim (Bool-cases (leb_ℤ (pos x) bound)) [
  | inl over ↦ inr (x, refl, over, rw over)
  | inr live ↦ inl (rw live)
]

IsPruned-kept :
    (bound : ℤ) (old new : Option ℕ)
    → IsPruned bound old new
    → IsPruned bound old (kept_score bound new)
IsPruned-kept bound old new (inl e) =
    subst (λ x. IsPruned bound old (kept_score bound x)) (sym e) (kept-IsPruned bound old)
IsPruned-kept bound old new (inr (x, e, over, gone)) = inr (x, e, over, rw gone)

module _ (r : Redis) where
  -- Nothing but the pruning at an instant: the counters and the flags are as before, and a member of
  -- a set keeps its score, or its score has run out and it is gone.
  pub record OnlyPruned (now_ms : ℕ) (s t : Store r) : Type 0 where
    pub counts : t.counts ≡ s.counts
    pub flags : t.flags ≡ s.flags
    pub members :
        (k : SetKey) (n : ℕ)
        → (r.sets.zscore t.sets k n ≡ r.sets.zscore s.sets k n)
          ⊎ ((score : ℕ) × (r.sets.zscore s.sets k n ≡ some score)
              × (leb_ℤ (pos score) (run_out now_ms k) ≡ true)
              × (r.sets.zscore t.sets k n ≡ none))

  abbrev Prunes : ℕ → r.sets.State → r.sets.State → Type 0
  Prunes now_ms s t =
      (j : SetKey) (n : ℕ) → IsPruned (run_out now_ms j) (r.sets.zscore s j n) (r.sets.zscore t j n)

  zremrangebyscore-Prunes :
      (now_ms : ℕ) (k : SetKey) (bound : ℤ) (s t : r.sets.State)
      → ((j : SetKey) → set_key_eq k j ≡ true → bound ≡ run_out now_ms j)
      → Prunes now_ms s t
      → Prunes now_ms s (r.sets.zremrangebyscore k bound t)
  zremrangebyscore-Prunes now_ms k bound s t right h j n = elim (Bool-cases (set_key_eq k j)) [
    | inl same ↦
        rw (r.sets.zscore-zremrangebyscore k j bound n t, same, right j same)
          (IsPruned-kept (run_out now_ms j) (r.sets.zscore s j n) (r.sets.zscore t j n) (h j n))
    | inr other ↦ rw (r.sets.zscore-zremrangebyscore k j bound n t, other) (h j n)
  ]

  organization-bound :
      (m o : ℕ) (j : SetKey) → set_key_eq (concurrent_organization o) j ≡ true → pos m ≡ run_out m j
  organization-bound m o (concurrent_organization _) e = refl
  organization-bound m o (concurrent_user _) e = cc
  organization-bound m o (rate_user _) e = cc

  user-bound :
      (m u : ℕ) (j : SetKey) → set_key_eq (concurrent_user u) j ≡ true → pos m ≡ run_out m j
  user-bound m u (concurrent_user _) e = refl
  user-bound m u (concurrent_organization _) e = cc
  user-bound m u (rate_user _) e = cc

  rate-bound :
      (m u : ℕ) (j : SetKey) → set_key_eq (rate_user u) j ≡ true → sub_ℕ m 60_000 ≡ run_out m j
  rate-bound m u (rate_user _) e = refl
  rate-bound m u (concurrent_organization _) e = cc
  rate-bound m u (concurrent_user _) e = cc

  pruned-OnlyPruned :
      (o u d : ℕ) (a : Argv) (s : Store r) → OnlyPruned a.now_ms s (pruned r (keys o u d) a s)
  pruned-OnlyPruned o u d a s =
      let m = a.now_ms in
      record {
        counts = refl;
        flags = refl;
        members = zremrangebyscore-Prunes m (rate_user u) _ s.sets _ (rate-bound m u) (
            zremrangebyscore-Prunes m (concurrent_user u) _ s.sets _ (user-bound m u) (
              zremrangebyscore-Prunes m (concurrent_organization o) _ s.sets s.sets
                (organization-bound m o) (λ j n. inl refl)));
      }

  acquire_script-refused :
      (o u d : ℕ) (a : Argv) (s : Store r)
      → (acquire_script r (keys o u d) a s).0 ≢ Outcome.ok
      → OnlyPruned a.now_ms s (acquire_script r (keys o u d) a s).1
  unfolding acquire_script
  acquire_script-refused o u d a s ne =
      let k = keys o u d in
      elim (Bool-cases (r.flags.exists s.flags k.disabled)) [
        | inl stopped ↦
            rw (stopped, acquire_script)
              (record { counts = refl; flags = refl; members = λ j n. inl refl })
        | inr running ↦
            let p = pruned r k a s in
            let outcome = acquire_outcome r k a p in
            let ne' : (when_ok r outcome (acquired r k a p) p).0 ≢ Outcome.ok =
              rw (running, acquire_script) at ne in
            rw (running, acquire_script)
              (subst (OnlyPruned a.now_ms s)
                (sym (when_ok-refused r outcome (acquired r k a p) p ne'))
                (pruned-OnlyPruned o u d a s))
      ]

  admitted-refused :
      (o : Outcome) (claim : Bool) (f : Bool → RunQuotaLease) {m : String}
      → admitted o claim f ≡ quota_exceeded m
      → o ≢ Outcome.ok
  admitted-refused Outcome.ok claim f e = cc
  admitted-refused Outcome.existing claim f e = cc
  admitted-refused Outcome.disabled claim f e = λ h. cc
  admitted-refused _ claim f e = λ h. cc

  -- A call of `acquire` that raises `QuotaExceededError` charges no counter and sets no flag, and
  -- adds the lease to no set: each member of a set is as before, or it had run out at that moment (its
  -- score was at most the time of the call, for the rate window the time less a minute) and is gone.
  pub acquire-refused :
      (q : RunQuota) (o u id : ℕ) (budget_day : Option ℕ) (claim : Bool) (now : ℕ) (s : Store r)
      {m : String}
      → (acquire r q o u id budget_day claim now s).0 ≡ quota_exceeded m
      → OnlyPruned (now / 1_000) s (acquire r q o u id budget_day claim now s).1
  unfolding acquire
  acquire-refused q o u id budget_day claim now s e =
      acquire_script-refused o u (day_or budget_day now) (argv q id now) s
        (admitted-refused _ claim _ e)
