-- ===== src/RateLimit.antt =====
-- common/rate_limit.py: the limit on failed attempts of a key in a sliding window. Each operation
-- holds the lock, so that concurrent calls are a sequence of these. Times are of `time.monotonic`.
pub mod Unseen
pub mod Window
use opti_gate.Base.{
  ℕ, ◌+◌, String, Option, none, some, List, [], ◌∷◌, ◌++◌, Bool, true, false, not, length,
}
use opti_gate.Base.{◌==◌, string_eq, if◌then◌else◌, find?, any, update_where, filter, ltb, leb}

-- The dictionary is an association list, with one entry for a key.
abbrev pub Attempts : Type 0
Attempts = List (String × List ℕ)

pub record RateLimiter : Type 0 where
  pub max_attempts : ℕ
  pub window_seconds : ℕ
  pub attempts : Attempts

unfoldable pub is_entry : String → String × List ℕ → Bool
is_entry key e = e.0 == key

-- `self._attempts.get(key, [])`
unfoldable pub attempts_of : Attempts → String → List ℕ
attempts_of [] key = []
attempts_of (e ∷ rest) key = if e.0 == key then e.1 else attempts_of rest key

-- `self._attempts[key] = times`
unfoldable pub set_attempts : Attempts → String → List ℕ → Attempts
set_attempts attempts key times =
    if any (is_entry key) attempts
    then update_where (is_entry key) (λ e. (key, times)) attempts
    else attempts ++ ((key, times) ∷ [])

-- `now - t < self._window_seconds`
unfoldable pub is_recent : RateLimiter → (now : ℕ) → ℕ → Bool
is_recent l now t = ltb now (t + l.window_seconds)

unfoldable pub recent : RateLimiter → (now : ℕ) → String → List ℕ
recent l now key = filter (is_recent l now) (attempts_of l.attempts key)

unfoldable pub is_limited : RateLimiter → (now : ℕ) → String → RateLimiter × Bool
is_limited l now key =
    let kept = recent l now key in
    (record l { attempts = set_attempts l.attempts key kept }, leb l.max_attempts (length kept))

unfoldable pub record_failure : RateLimiter → (now : ℕ) → String → RateLimiter
record_failure l now key = record l {
  attempts = set_attempts l.attempts key (attempts_of l.attempts key ++ (now ∷ []));
}

unfoldable pub clear : RateLimiter → String → RateLimiter
clear l key = record l { attempts = filter (λ e. not (is_entry key e)) l.attempts }
