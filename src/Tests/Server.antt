-- ===== src/Tests/Server.antt =====
-- A Redis server for the tests: a sorted set is the list of its members' scores, at the members'
-- positions.
use aiagent.Prelude.{
  ℕ, zero, suc, ◌+◌, ◌-◌, ◌≤◌, ◌≡◌, refl, arith, Bool, true, false, Option, none, some, List, [],
  ◌∷◌, ◌==◌, if◌then◌else◌, is_some, ℤ, pos, ◌+ℤ◌, map, String, str_eq,
}
use aiagent.Governance.Redis.{SortedSets, Counters, Flags, kept_score, not_member}
use aiagent.Governance.Keys.{
  Redis, Store, set_key_eq, counter_key_eq, flag_key_eq, SetKey, CounterKey, FlagKey,
}

abbrev Scores : Type 0
Scores = List (Option ℕ)

abbrev pub get_at : Scores → ℕ → Option ℕ
get_at [] n = none
get_at (x ∷ xs) zero = x
get_at (x ∷ xs) (suc n) = get_at xs n

abbrev pub set_at : ℕ → Option ℕ → Scores → Scores
set_at zero v [] = v ∷ []
set_at zero v (x ∷ xs) = v ∷ xs
set_at (suc n) v [] = none ∷ set_at n v []
set_at (suc n) v (x ∷ xs) = x ∷ set_at n v xs

abbrev pub card : Scores → ℕ
card [] = 0
card (none ∷ xs) = card xs
card (some x ∷ xs) = suc (card xs)

pub get_at-set_at :
    (m n : ℕ) (v : Option ℕ) (xs : Scores)
    → get_at (set_at m v xs) n ≡ (if m == n then v else get_at xs n)
get_at-set_at zero zero v [] = refl
get_at-set_at zero (suc n) v [] = ground arith
get_at-set_at zero zero v (x ∷ xs) = refl
get_at-set_at zero (suc n) v (x ∷ xs) = ground arith
get_at-set_at (suc m) zero v [] = ground arith
get_at-set_at (suc m) (suc n) v [] = ground (arith, get_at-set_at m n v [])
get_at-set_at (suc m) zero v (x ∷ xs) = ground arith
get_at-set_at (suc m) (suc n) v (x ∷ xs) = ground (arith, get_at-set_at m n v xs)

pub card-add :
    (m score : ℕ) (xs : Scores)
    → card (set_at m (some score) xs) ≡ (if not_member (get_at xs m) then card xs + 1 else card xs)
card-add zero score [] = refl
card-add zero score (none ∷ xs) = omega arith
card-add zero score (some x ∷ xs) = refl
card-add (suc m) score [] = card-add m score []
card-add (suc m) score (none ∷ xs) = card-add m score xs
card-add (suc m) score (some x ∷ xs) = ground (arith, card-add m score xs)

card_positive : (n : ℕ) (ys : Scores) → is_some (get_at ys n) ≡ true → 1 ≤ card ys
card_positive n [] h = cc
card_positive zero (none ∷ ys) h = cc
card_positive zero (some y ∷ ys) h = omega arith
card_positive (suc n) (none ∷ ys) h = card_positive n ys h
card_positive (suc n) (some y ∷ ys) h = omega arith

pub card-remove :
    (m : ℕ) (xs : Scores)
    → card (set_at m none xs) ≡ (if is_some (get_at xs m) then card xs - 1 else card xs)
card-remove zero [] = refl
card-remove zero (none ∷ xs) = refl
card-remove zero (some x ∷ xs) = omega arith
card-remove (suc m) [] = card-remove m []
card-remove (suc m) (none ∷ xs) = card-remove m xs
card-remove (suc m) (some x ∷ xs) = ground (arith, card-remove m xs, card_positive m xs)

pub get_at-kept :
    (bound : ℤ) (n : ℕ) (xs : Scores)
    → get_at (map (kept_score bound) xs) n ≡ kept_score bound (get_at xs n)
get_at-kept bound n [] = refl
get_at-kept bound zero (x ∷ xs) = refl
get_at-kept bound (suc n) (x ∷ xs) = get_at-kept bound n xs

pub card-kept : (bound : ℤ) (xs : Scores) → card (map (kept_score bound) xs) ≤ card xs
card-kept bound [] = omega arith
card-kept bound (none ∷ xs) = card-kept bound xs
card-kept bound (some x ∷ xs) = ground (arith, card-kept bound xs)

abbrev pub at_key : {K A : Type 0} → (K → K → Bool) → K → (A → A) → (K → A) → K → A
at_key key_eq k f s j = if key_eq k j then f (s j) else s j

pub sorted_sets : (K : Type 0) (key_eq : K → K → Bool) → SortedSets K key_eq
sorted_sets K key_eq = record {
  State = K → Scores;
  zscore = λ s k. get_at (s k);
  zcard = λ s k. card (s k);
  zadd = λ k score m. at_key key_eq k (set_at m (some score));
  zrem = λ k m. at_key key_eq k (set_at m none);
  zremrangebyscore = λ k bound. at_key key_eq k (map (kept_score bound));
  expire = λ k seconds s. s;
  zscore-zadd = λ k j score m n s. ground (arith, get_at-set_at m n (some score) (s j));
  zcard-zadd = λ k j score m s. ground (arith, card-add m score (s j));
  zscore-zrem = λ k j m n s. ground (arith, get_at-set_at m n none (s j));
  zcard-zrem = λ k j m s. ground (arith, card-remove m (s j));
  zscore-zremrangebyscore = λ k j bound n s. ground (arith, get_at-kept bound n (s j));
  zcard-zremrangebyscore-le = λ k j bound s. ground (arith, card-kept bound (s j));
  zscore-expire = λ k j seconds n s. refl;
  zcard-expire = λ k j seconds s. refl;
}

counters : (K : Type 0) (key_eq : K → K → Bool) → Counters K key_eq
counters K key_eq = record {
  State = K → ℤ;
  get = λ s k. s k;
  incrby = λ k n. at_key key_eq k (λ x. x +ℤ n);
  expire = λ k seconds s. s;
  get-incrby = λ k j n s. refl;
  get-expire = λ k j seconds s. refl;
}

flags : (K : Type 0) (key_eq : K → K → Bool) → Flags K key_eq
flags K key_eq = record {
  State = K → Bool;
  exists = λ s k. s k;
  set = λ k. at_key key_eq k (λ _. true);
  set_ex = λ k seconds. at_key key_eq k (λ _. true);
  delete = λ k. at_key key_eq k (λ _. false);
  exists-set = λ k j s. refl;
  exists-set_ex = λ k j seconds s. refl;
  exists-delete = λ k j s. refl;
}

unfoldable pub server : Redis
unfolding sorted_sets counters flags
server = record {
  sets = sorted_sets SetKey set_key_eq;
  counters = counters CounterKey counter_key_eq;
  flags = flags FlagKey flag_key_eq;
}

unfoldable pub empty_store : Store server
unfolding server
empty_store = record { sets = λ k. []; counts = λ k. pos 0; flags = λ k. false }

-- Sorted sets with texts as keys, and none of them filled.
abbrev pub text_sets : SortedSets String str_eq
text_sets = sorted_sets String str_eq

unfoldable pub no_members : text_sets.State
unfolding sorted_sets
no_members _ = []
