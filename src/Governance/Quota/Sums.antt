-- ===== src/Governance/Quota/Sums.antt =====
-- What the scripts of governance/quota.py leave in the counters and the sets.
use aiagent.Prelude.{
  true, false, ℕ, ◌+◌, ◌≡◌, ◌≤◌, ◌<◌, refl, arith, ==_refl, ℤ, ◌+ℤ◌, Bool, pos, if◌then◌else◌,
  int_laws, sub_ℕ, Bool-cases, ◌∙◌, leb, sym, inl, leb→le, inr,
}
use aiagent.Governance.Keys.{
  Redis, Store, keys, Keys, CounterKey, tokens_user, counter_key_eq, tokens_organization, cost_user,
  cost_organization,
}
use aiagent.Governance.Scripts.{Argv, charge, acquired, reserved}

if_le_add_one : (b : Bool) (n : ℕ) → (if b then n + 1 else n) ≤ n + 1
if_le_add_one true n = omega arith
if_le_add_one false n = omega arith

add_zero : (n : ℤ) → n ≡ n +ℤ pos 0
add_zero n = omega int_laws

if_add : (b : Bool) (n x : ℤ) → (if b then n +ℤ x else n) ≡ n +ℤ (if b then x else pos 0)
if_add true n x = refl
if_add false n x = add_zero n

settled : (n : ℤ) (t u : ℕ) → (n +ℤ pos t) +ℤ sub_ℕ u t ≡ n +ℤ pos u
settled n t u = elim (Bool-cases (leb t u)) [
  | inl more ↦ let h = leb→le t u more in rw more (omega int_laws)
  | inr less ↦ let h : u < t = ground arith in rw less (omega int_laws)
]

back : (n : ℤ) (t : ℕ) → (n +ℤ pos t) +ℤ sub_ℕ 0 t ≡ n
back n t = settled n t 0 ∙ sym (add_zero n)

-- The amount that the first test to pass picks.
abbrev pub pick : Bool → Bool → Bool → Bool → ℤ → ℤ → ℤ
pick a b c d tokens cost =
    if a then tokens else if b then tokens else if c then cost else if d then cost else pos 0

pick_settled :
    (a b c d : Bool) (n : ℤ) (t u x y : ℕ)
    → (n +ℤ pick a b c d (pos t) (pos x)) +ℤ pick a b c d (sub_ℕ u t) (sub_ℕ y x)
      ≡ n +ℤ pick a b c d (pos u) (pos y)
pick_settled true b c d n t u x y = settled n t u
pick_settled false true c d n t u x y = settled n t u
pick_settled false false true d n t u x y = settled n x y
pick_settled false false false true n t u x y = settled n x y
pick_settled false false false false n t u x y = omega int_laws

pick_back :
    (a b c d : Bool) (n : ℤ) (t x : ℕ)
    → (n +ℤ pick a b c d (pos t) (pos x)) +ℤ pick a b c d (sub_ℕ 0 t) (sub_ℕ 0 x) ≡ n
pick_back true b c d n t x = back n t
pick_back false true c d n t x = back n t
pick_back false false true d n t x = back n x
pick_back false false false true n t x = back n x
pick_back false false false false n t x = omega int_laws

-- The part of a charge that goes to a counter.
abbrev pub share : Keys → ℤ → ℤ → CounterKey → ℤ
share k tokens cost j =
    pick (counter_key_eq k.user_tokens j) (counter_key_eq k.organization_tokens j)
      (counter_key_eq k.user_cost j) (counter_key_eq k.organization_cost j) tokens cost

-- The share of what is given back makes up for the share of what was taken.
pub share_back :
    (k : Keys) (tokens cost : ℕ) (j : CounterKey) (n : ℤ)
    → (n +ℤ share k (pos tokens) (pos cost) j) +ℤ share k (sub_ℕ 0 tokens) (sub_ℕ 0 cost) j ≡ n
share_back k tokens cost j n =
    pick_back (counter_key_eq k.user_tokens j) (counter_key_eq k.organization_tokens j)
      (counter_key_eq k.user_cost j) (counter_key_eq k.organization_cost j) n tokens cost

pub share_settle :
    (k : Keys) (tokens cost used_tokens used_cost : ℕ) (j : CounterKey) (n : ℤ)
    → (n +ℤ share k (pos tokens) (pos cost) j)
        +ℤ share k (sub_ℕ used_tokens tokens) (sub_ℕ used_cost cost) j
      ≡ n +ℤ share k (pos used_tokens) (pos used_cost) j
share_settle k tokens cost used_tokens used_cost j n =
    pick_settled (counter_key_eq k.user_tokens j) (counter_key_eq k.organization_tokens j)
      (counter_key_eq k.user_cost j) (counter_key_eq k.organization_cost j) n tokens used_tokens
      cost used_cost

module _ (r : Redis) where
  -- One member more at most in each set.
  pub zcard-acquired :
      (o u d : ℕ) (a : Argv) (s : Store r)
      → let k = keys o u d in
        let t = acquired r k a s in
        (r.sets.zcard t.sets k.user_runs ≤ r.sets.zcard s.sets k.user_runs + 1)
        × (r.sets.zcard t.sets k.organization_runs ≤ r.sets.zcard s.sets k.organization_runs + 1)
        × (r.sets.zcard t.sets k.user_rate ≤ r.sets.zcard s.sets k.user_rate + 1)
  zcard-acquired o u d a s = (
    simp (r.sets.zcard-zadd, r.sets.zcard-expire, ==_refl) (if_le_add_one _ _),
    simp (r.sets.zcard-zadd, r.sets.zcard-expire, ==_refl) (if_le_add_one _ _),
    simp (r.sets.zcard-zadd, r.sets.zcard-expire, ==_refl) (if_le_add_one _ _),
  )

  -- A charge adds its share to each counter, and expiry changes none.
  pub get-charge :
      (o u d : ℕ) (tokens cost : ℤ) (c : r.counters.State) (j : CounterKey)
      → r.counters.get (charge r (keys o u d) tokens cost c) j
        ≡ r.counters.get c j +ℤ share (keys o u d) tokens cost j
  get-charge o u d tokens cost c (tokens_user e a) = simp r.counters.get-incrby (if_add _ _ _)
  get-charge o u d tokens cost c (tokens_organization e a) =
      simp r.counters.get-incrby (if_add _ _ _)
  get-charge o u d tokens cost c (cost_user e a) = simp r.counters.get-incrby (if_add _ _ _)
  get-charge o u d tokens cost c (cost_organization e a) = simp r.counters.get-incrby (if_add _ _ _)

  pub get-acquired :
      (o u d : ℕ) (a : Argv) (s : Store r) (j : CounterKey)
      → r.counters.get (acquired r (keys o u d) a s).counts j
        ≡ r.counters.get s.counts j +ℤ share (keys o u d) (pos a.tokens) (pos a.cost) j
  get-acquired o u d a s j =
      simp r.counters.get-expire (get-charge o u d (pos a.tokens) (pos a.cost) s.counts j)

  pub get-reserved :
      (o u d : ℕ) (a : Argv) (s : Store r) (j : CounterKey)
      → r.counters.get (reserved r (keys o u d) a s).counts j
        ≡ r.counters.get s.counts j +ℤ share (keys o u d) (pos a.tokens) (pos a.cost) j
  get-reserved o u d a s j =
      simp r.counters.get-expire (get-charge o u d (pos a.tokens) (pos a.cost) s.counts j)
