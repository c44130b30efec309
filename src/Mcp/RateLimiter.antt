-- ===== src/Mcp/RateLimiter.antt =====
-- `SlidingWindowRateLimiter` and the script of `RedisSlidingWindowRateLimiter` (mcp/gateway.py). A key
-- is a text, an instant a number of microseconds (milliseconds for Redis).
use text.Mathlib.TextPositions.{eq_refl}
pub mod Window
use aiagent.Prelude.{
  String, ℕ, List, Bool, str_eq, ◌∷◌, if◌then◌else◌, sub_ℕ, ◌≡◌, leb, true, ◌+◌, length, false, ◌≤◌,
  [], ◌++◌, some, arith, ==_refl,
}
use aiagent.Governance.Redis.{SortedSets}

-- `_events`: the queue of each key, oldest call first.
abbrev pub Events : Type 0
Events = String → List ℕ

-- `while events and events[0] <= now - window_seconds: events.popleft()`.
unfoldable pub popleft_old : ℕ → ℕ → List ℕ → List ℕ
popleft_old window now [] = []
popleft_old window now (e ∷ events) =
    let rest = popleft_old window now events in if leb (e + window) now then rest else e ∷ events

abbrev pub put : String → List ℕ → Events → Events
put key queue events j = if str_eq key j then queue else events j

-- Whether the call is allowed; when it is not, `RateLimitExceededError` is raised.
unfoldable pub check : String → ℕ → ℕ → ℕ → Events → Bool × Events
check key limit window now events =
    let queue = popleft_old window now (events key) in
    if leb limit (length queue)
    then (false, put key queue events)
    else (true, put key (queue ++ (now ∷ [])) events)

-- The script; `member` names the call, and no other.
module _ (sets : SortedSets String str_eq) where
  unfoldable pub check_script : String → ℕ → ℕ → ℕ → ℕ → sets.State → Bool × sets.State
  check_script key now window limit member s =
      let s' = sets.zremrangebyscore key (sub_ℕ now window) s in
      if leb limit (sets.zcard s' key)
      then (false, s')
      else (true, sets.expire key window (sets.zadd key now member s'))

  -- A call that the script allows leaves no more members than the limit, the call among them; one
  -- that it refuses leaves at least as many, and adds none.
  pub check_script-bounds :
      (key : String) (now window limit member : ℕ) (s : sets.State)
      → let r = check_script key now window limit member s in
        (r.0 ≡ true → (sets.zcard r.1 key ≤ limit) × (sets.zscore r.1 key member ≡ some now))
        × (r.0 ≡ false → (limit ≤ sets.zcard r.1 key) × (sets.zcard r.1 key ≤ sets.zcard s key))
  unfolding check_script
  check_script-bounds key now window limit member s =
      let s' = sets.zremrangebyscore key (sub_ℕ now window) s in
      let fewer = sets.zcard-zremrangebyscore-le key key (sub_ℕ now window) s in
      let added = sets.zcard-zadd key key now member s' in
      let kept = sets.zcard-expire key key window (sets.zadd key now member s') in
      let score = sets.zscore-zadd key key now member member s' in
      let kept_score = sets.zscore-expire key key window member (sets.zadd key now member s') in
      ground (arith, fewer, added, kept, score, kept_score, eq_refl key, ==_refl member)
