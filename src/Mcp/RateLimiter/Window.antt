-- ===== src/Mcp/RateLimiter/Window.antt =====
-- Histories of calls that `SlidingWindowRateLimiter` of mcp/gateway.py checks.
use aiagent.Prelude.{
  ℕ, List, Bool, String, ◌∷◌, ◌+◌, ◌≡◌, ◌≤◌, All, not, [], leb, keep, ◌++◌, false, arith, if_both,
  All-append, true, refl, All-map, str_eq, All-keep, subst, ltb, sym, length, ◌∙◌,
}
use aiagent.Mcp.RateLimiter.{popleft_old, Events, check, eq_refl}

-- Later than a window before.
abbrev pub is_young : ℕ → ℕ → ℕ → Bool
is_young window now e = not (leb (e + window) now)

-- The calls for one key that were allowed, oldest first, in a history of calls for any keys at times
-- that never go back; each call brings its own limit.
pub data Reach (window : ℕ) (key : String) : Events → List ℕ → ℕ → Type 0 where
  start : (now : ℕ) → Reach window key (λ _. []) [] now
  allowed :
      {events : Events} {accepted : List ℕ} {now : ℕ} (limit later : ℕ)
      → Reach window key events accepted now
      → now ≤ later
      → (check key limit window later events).0 ≡ true
      → Reach window key (check key limit window later events).1 (accepted ++ (later ∷ [])) later
  refused :
      {events : Events} {accepted : List ℕ} {now : ℕ} (limit later : ℕ)
      → Reach window key events accepted now
      → now ≤ later
      → (check key limit window later events).0 ≡ false
      → Reach window key (check key limit window later events).1 accepted later
  other :
      {events : Events} {accepted : List ℕ} {now : ℕ} (key' : String) (limit later : ℕ)
      → Reach window key events accepted now
      → now ≤ later
      → str_eq key' key ≡ false
      → Reach window key (check key' limit window later events).1 accepted later

-- Oldest first, none after `now`.
abbrev Sorted : List ℕ → Type 0
Sorted [] = Unit
Sorted (e ∷ events) = All (λ f. e ≤ f) events × Sorted events

keep-old :
    (window now e : ℕ) (events : List ℕ)
    → All (λ f. e ≤ f) events
    → leb (e + window) now ≡ false
    → keep (is_young window now) events ≡ events
keep-old window now e [] h k = refl
keep-old window now e (f ∷ events) h k =
    let rest = keep-old window now e events h.1 k in ground (arith, h.0, rest)

-- The loop drops what is old, no matter where.
popleft_old-keep :
    (window now : ℕ) (events : List ℕ)
    → Sorted events
    → popleft_old window now events ≡ keep (is_young window now) events
unfolding popleft_old
popleft_old-keep window now [] h = refl
popleft_old-keep window now (e ∷ events) h =
    let rest = popleft_old-keep window now events h.1 in
    let young = keep-old window now e events h.0 in ground (arith, rest, young)

keep-append : (p : ℕ → Bool) (xs ys : List ℕ) → keep p (xs ++ ys) ≡ keep p xs ++ keep p ys
keep-append p [] ys = refl
keep-append p (x ∷ xs) ys = ground (arith, keep-append p xs ys)

keep-keep :
    (window now later : ℕ) (xs : List ℕ)
    → now ≤ later
    → keep (is_young window later) (keep (is_young window now) xs) ≡ keep (is_young window later) xs
keep-keep window now later [] h = refl
keep-keep window now later (x ∷ xs) h = ground (arith, keep-keep window now later xs h)

Sorted-keep : (p : ℕ → Bool) (xs : List ℕ) → Sorted xs → Sorted (keep p xs)
Sorted-keep p [] h = tt
Sorted-keep p (x ∷ xs) h =
    if_both Sorted (p x) (x ∷ keep p xs) (keep p xs)
      (λ _. (
        All-map _ _ (λ y q. q.0) (keep p xs) (All-keep (λ f. x ≤ f) p xs h.0),
        Sorted-keep p xs h.1,
      ))
      (λ _. Sorted-keep p xs h.1)

Sorted-append :
    (xs : List ℕ) (later : ℕ) → Sorted xs → All (λ e. e ≤ later) xs → Sorted (xs ++ (later ∷ []))
Sorted-append [] later h k = (tt, tt)
Sorted-append (x ∷ xs) later h k =
    (All-append (λ f. x ≤ f) xs (later ∷ []) h.0 (k.0, tt), Sorted-append xs later h.1 k.1)

-- The queue and the allowed calls agree on every window from now on.
record Counts (window : ℕ) (queue accepted : List ℕ) (now : ℕ) : Type 0 where
  sorted : Sorted queue
  past : All (λ e. e ≤ now) queue
  agree :
      (later : ℕ)
      → now ≤ later
      → keep (is_young window later) queue ≡ keep (is_young window later) accepted

popped :
    (window : ℕ) (queue accepted : List ℕ) (now later : ℕ)
    → Counts window queue accepted now
    → now ≤ later
    → Counts window (popleft_old window later queue) accepted later
popped window queue accepted now later c h =
    subst (λ q. Counts window q accepted later) (sym (popleft_old-keep window later queue c.sorted))
      (record {
        sorted = Sorted-keep (is_young window later) queue c.sorted;
        past =
            All-map _ _ (λ e q. omega (arith, q.0, h)) (keep (is_young window later) queue)
              (All-keep (λ e. e ≤ now) (is_young window later) queue c.past);
        agree = λ t k. keep-keep window later t queue k ∙ c.agree t (omega (arith, h, k));
      })

pushed :
    (window : ℕ) (queue accepted : List ℕ) (now : ℕ)
    → Counts window queue accepted now
    → Counts window (queue ++ (now ∷ [])) (accepted ++ (now ∷ [])) now
pushed window queue accepted now c = record {
  sorted = Sorted-append queue now c.sorted c.past;
  past = All-append (λ e. e ≤ now) queue (now ∷ []) c.past (omega arith, tt);
  agree = λ t h.
      rw
        (
          keep-append (is_young window t) queue (now ∷ []),
          keep-append (is_young window t) accepted (now ∷ []),
          c.agree t h,
        )
        refl;
}

-- Later there is nothing new.
waited :
    (window : ℕ) (queue accepted : List ℕ) (now later : ℕ)
    → Counts window queue accepted now
    → now ≤ later
    → Counts window queue accepted later
waited window queue accepted now later c h = record {
  sorted = c.sorted;
  past = All-map _ _ (λ e q. omega (arith, q, h)) queue c.past;
  agree = λ t k. c.agree t (omega (arith, h, k));
}

check-queue :
    (key : String) (limit window now : ℕ) (events : Events)
    → let r = check key limit window now events in
      (r.0 ≡ true → r.1 key ≡ popleft_old window now (events key) ++ (now ∷ []))
      × (r.0 ≡ false → r.1 key ≡ popleft_old window now (events key))
unfolding check
check-queue key limit window now events = ground (arith, eq_refl key)

check-other :
    (key key' : String) (limit window now : ℕ) (events : Events)
    → str_eq key' key ≡ false
    → (check key' limit window now events).1 key ≡ events key
unfolding check
check-other key key' limit window now events h = ground arith

Reach-Counts :
    (window : ℕ) (key : String) {events : Events} {accepted : List ℕ} {now : ℕ}
    → Reach window key events accepted now
    → Counts window (events key) accepted now
Reach-Counts window key (start now) = record { sorted = tt; past = tt; agree = λ t h. refl }
Reach-Counts window key (allowed {events} {accepted} {now} limit later r h granted) =
    let p = popped window (events key) accepted now later (Reach-Counts window key r) h in
    rw ((check-queue key limit window later events).0 granted) (pushed window _ accepted later p)
Reach-Counts window key (refused {events} {accepted} {now} limit later r h denied) =
    let p = popped window (events key) accepted now later (Reach-Counts window key r) h in
    rw ((check-queue key limit window later events).1 denied) p
Reach-Counts window key (other {events} {accepted} {now} key' limit later r h apart) =
    rw (check-other key key' limit window later events apart)
      (waited window (events key) accepted now later (Reach-Counts window key r) h)

check-length :
    (key : String) (limit window now : ℕ) (events : Events)
    → (check key limit window now events).0
      ≡ ltb (length (popleft_old window now (events key))) limit
unfolding check
check-length key limit window now events = ground arith

-- In every history a call is allowed exactly when fewer than `limit` calls for its key were allowed
-- within the window before it.
pub check-window :
    (window : ℕ) (key : String) (limit later : ℕ) {events : Events} {accepted : List ℕ} {now : ℕ}
    → Reach window key events accepted now
    → now ≤ later
    → (check key limit window later events).0
      ≡ ltb (length (keep (is_young window later) accepted)) limit
check-window window key limit later {events} {accepted} {now} r h =
    let c = Reach-Counts window key r in
    rw
      (
        check-length key limit window later events,
        popleft_old-keep window later (events key) c.sorted,
        c.agree later h,
      )
      refl
