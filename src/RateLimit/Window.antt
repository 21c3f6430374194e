-- ===== src/RateLimit/Window.antt =====
-- common/rate_limit.py, lines 57 to 73: the answers are those of a sliding window.
use opti_gate.Base.{ℕ, ◌≤◌, String, List, [], ◌∷◌, ◌++◌, Bool, false, length, append_assoc}
use opti_gate.Base.{◌==◌, string_eq, if◌then◌else◌, filter, leb, append-nil, All}
use opti_gate.Base.{◌≡◌, refl, sym, ap, ◌∙◌, inl, inr, Bool-cases, eq_of_beq, subst}
use opti_gate.RateLimit.{RateLimiter, attempts_of, is_recent, recent, is_limited, record_failure}
use opti_gate.RateLimit.Unseen.{attempts_of-set_attempts, attempts_of-other, recent-is_limited}

filter-append :
    {A : Type 0} (p : A → Bool) (xs ys : List A) → filter p (xs ++ ys) ≡ filter p xs ++ filter p ys
unfolding filter
filter-append p [] ys = refl
filter-append p (x ∷ xs) ys = elim (Bool-cases (p x)) [
  | inl k ↦ rw (k, filter-append p xs ys) refl
  | inr k ↦ rw (k, filter-append p xs ys) refl
]

-- What a server does with the limiter, in the order in which it holds the lock.
pub data Event : Type 0 where
  check failure : (at : ℕ) (key : String) → Event

unfoldable pub step : RateLimiter → Event → RateLimiter
step l (check now key) = (is_limited l now key).0
step l (failure now key) = record_failure l now key

unfoldable pub run : RateLimiter → List Event → RateLimiter
run l [] = l
run l (e ∷ rest) = run (step l e) rest

-- The times of the failures of a key.
unfoldable pub failures : String → List Event → List ℕ
failures key [] = []
failures key (check now other ∷ rest) = failures key rest
failures key (failure now other ∷ rest) =
    if other == key then now ∷ failures key rest else failures key rest

-- A check is not of the future.
unfoldable pub IsBefore : ℕ → Event → Type 0
IsBefore later (check now key) = now ≤ later
IsBefore later (failure now key) = Unit

recent-record_failure :
    (l : RateLimiter) (now later : ℕ) (key : String)
    → recent (record_failure l now key) later key
      ≡ recent l later key ++ filter (is_recent l later) (now ∷ [])
unfolding recent record_failure is_recent
recent-record_failure l now later key =
    rw (attempts_of-set_attempts l.attempts key (attempts_of l.attempts key ++ (now ∷ [])))
      (filter-append (is_recent l later) (attempts_of l.attempts key) (now ∷ []))

recent-other :
    (l : RateLimiter) (now later : ℕ) (key other : String)
    → (key == other) ≡ false
    → recent (record_failure l now key) later other ≡ recent l later other
unfolding recent record_failure is_recent
recent-other l now later key other h =
    ap (filter (is_recent l later))
      (attempts_of-other l.attempts key other (attempts_of l.attempts key ++ (now ∷ [])) h)

recent-run :
    (l : RateLimiter) (events : List Event) (later : ℕ) (key : String)
    → All (IsBefore later) events
    → recent (run l events) later key
      ≡ recent l later key ++ filter (is_recent l later) (failures key events)
unfolding run step failures IsBefore is_recent is_limited record_failure filter
recent-run l [] later key h = sym (append-nil (recent l later key))
recent-run l (check now other ∷ rest) later key (h, hs) =
    recent-run (is_limited l now other).0 rest later key hs
    ∙ ap (λ z. z ++ filter (is_recent l later) (failures key rest))
        (recent-is_limited l now later other key h)
recent-run l (failure now other ∷ rest) later key (h, hs) = elim (Bool-cases (other == key)) [
  | inl k ↦
      let new =
        subst
          (λ z.
            recent (record_failure l now z) later key
            ≡ recent l later key ++ filter (is_recent l later) (now ∷ []))
          (sym (eq_of_beq other key k)) (recent-record_failure l now later key) in
      let old = failures key rest in
      rw k (
        recent-run (record_failure l now other) rest later key hs
        ∙ ap (λ z. z ++ filter (is_recent l later) old) new
        ∙ append_assoc (recent l later key) (filter (is_recent l later) (now ∷ []))
            (filter (is_recent l later) old)
        ∙ ap (λ z. recent l later key ++ z)
            (sym (filter-append (is_recent l later) (now ∷ []) old)))
  | inr k ↦ rw k (
      recent-run (record_failure l now other) rest later key hs
      ∙ ap (λ z. z ++ filter (is_recent l later) (failures key rest))
          (recent-other l now later other key k))
]

run-max_attempts :
    (l : RateLimiter) (events : List Event) → (run l events).max_attempts ≡ l.max_attempts
unfolding run step is_limited record_failure
run-max_attempts l [] = refl
run-max_attempts l (check now key ∷ rest) = run-max_attempts (is_limited l now key).0 rest
run-max_attempts l (failure now key ∷ rest) = run-max_attempts (record_failure l now key) rest

-- After any sequence of checks and failures, of any keys and none of the checks later than now, a
-- key is limited exactly if the failures of this key that are recent now, those of before the
-- sequence included, are as many as the limit allows or more.
pub is_limited-run :
    (l : RateLimiter) (events : List Event) (later : ℕ) (key : String)
    → All (IsBefore later) events
    → (is_limited (run l events) later key).1
      ≡ leb l.max_attempts
          (length (recent l later key ++ filter (is_recent l later) (failures key events)))
unfolding is_limited recent filter attempts_of run failures
is_limited-run l events later key h =
    rw (run-max_attempts l events, recent-run l events later key h) refl
