-- ===== src/Governance/Redis.antt =====
-- The Redis server as a parameter: the commands that the scripts of governance/quota.py call, with
-- what Redis documents of them. Sorted sets, counters and flags have keys of three kinds, which the
-- program keeps apart by their prefixes. EXPIRE and the EX of SET are handed to the server; that a
-- key runs out later is no event of a script.
use aiagent.Prelude.{
  ℕ, ◌+◌, ◌-◌, ◌≡◌, ◌≤◌, Bool, true, false, ◌&&◌, Option, none, some, ◌==◌, if◌then◌else◌, is_some,
  ℤ, pos, ◌+ℤ◌, leb_ℤ,
}

-- The score of a member that ZREMRANGEBYSCORE with bounds -inf and `bound` leaves.
abbrev pub kept_score : ℤ → Option ℕ → Option ℕ
kept_score bound none = none
kept_score bound (some score) = if leb_ℤ (pos score) bound then none else some score

abbrev pub not_member : Option ℕ → Bool
not_member none = true
not_member (some score) = false

-- Members are named by numbers; scores are instants in milliseconds.
pub record SortedSets (K : Type 0) (key_eq : K → K → Bool) : Type 1 where
  pub State : Type 0
  pub zscore : State → K → ℕ → Option ℕ
  pub zcard : State → K → ℕ
  pub zadd : K → ℕ → ℕ → State → State
  pub zrem : K → ℕ → State → State
  pub zremrangebyscore : K → ℤ → State → State
  pub expire : K → ℕ → State → State
  pub zscore-zadd :
      (k j : K) (score m n : ℕ) (s : State)
      → zscore (zadd k score m s) j n
        ≡ (if key_eq k j && (m == n) then some score else zscore s j n)
  pub zcard-zadd :
      (k j : K) (score m : ℕ) (s : State)
      → zcard (zadd k score m s) j
        ≡ (if key_eq k j && not_member (zscore s j m) then zcard s j + 1 else zcard s j)
  pub zscore-zrem :
      (k j : K) (m n : ℕ) (s : State)
      → zscore (zrem k m s) j n ≡ (if key_eq k j && (m == n) then none else zscore s j n)
  pub zcard-zrem :
      (k j : K) (m : ℕ) (s : State)
      → zcard (zrem k m s) j
        ≡ (if key_eq k j && is_some (zscore s j m) then zcard s j - 1 else zcard s j)
  pub zscore-zremrangebyscore :
      (k j : K) (bound : ℤ) (n : ℕ) (s : State)
      → zscore (zremrangebyscore k bound s) j n
        ≡ (if key_eq k j then kept_score bound (zscore s j n) else zscore s j n)
  pub zcard-zremrangebyscore-le :
      (k j : K) (bound : ℤ) (s : State) → zcard (zremrangebyscore k bound s) j ≤ zcard s j
  pub zscore-expire :
      (k j : K) (seconds n : ℕ) (s : State) → zscore (expire k seconds s) j n ≡ zscore s j n
  pub zcard-expire : (k j : K) (seconds : ℕ) (s : State) → zcard (expire k seconds s) j ≡ zcard s j

-- `get` reads a missing counter as 0, as the scripts do by `or '0'`.
pub record Counters (K : Type 0) (key_eq : K → K → Bool) : Type 1 where
  pub State : Type 0
  pub get : State → K → ℤ
  pub incrby : K → ℤ → State → State
  pub expire : K → ℕ → State → State
  pub get-incrby :
      (k j : K) (n : ℤ) (s : State)
      → get (incrby k n s) j ≡ (if key_eq k j then get s j +ℤ n else get s j)
  pub get-expire : (k j : K) (seconds : ℕ) (s : State) → get (expire k seconds s) j ≡ get s j

-- `set_ex k seconds` is SET with EX.
pub record Flags (K : Type 0) (key_eq : K → K → Bool) : Type 1 where
  pub State : Type 0
  pub exists : State → K → Bool
  pub set : K → State → State
  pub set_ex : K → ℕ → State → State
  pub delete : K → State → State
  pub exists-set :
      (k j : K) (s : State) → exists (set k s) j ≡ (if key_eq k j then true else exists s j)
  pub exists-set_ex :
      (k j : K) (seconds : ℕ) (s : State)
      → exists (set_ex k seconds s) j ≡ (if key_eq k j then true else exists s j)
  pub exists-delete :
      (k j : K) (s : State) → exists (delete k s) j ≡ (if key_eq k j then false else exists s j)
