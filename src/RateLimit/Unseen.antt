-- ===== src/RateLimit/Unseen.antt =====
-- common/rate_limit.py, lines 57 to 66: a check drops old attempts, and no later answer shows it.
use opti_gate.Base.{ℕ, ◌≤◌, String, List, [], ◌∷◌, ◌++◌, true, false, length}
use opti_gate.Base.{◌==◌, string_eq, any, update_where, filter, leb}
use opti_gate.Base.{◌≡◌, refl, ap, ◌∙◌, inl, inr, arith, Bool-cases, eq_of_beq, beq_refl, subst}
use opti_gate.RateLimit.{
  Attempts, RateLimiter, is_entry, attempts_of, set_attempts, is_recent, recent, is_limited,
}

attempts_of-updated :
    (key : String) (times : List ℕ) (attempts : Attempts)
    → any (is_entry key) attempts ≡ true
    → attempts_of (update_where (is_entry key) (λ e. (key, times)) attempts) key ≡ times
unfolding attempts_of any update_where is_entry
attempts_of-updated key times [] h = absurd (ground arith)
attempts_of-updated key times (e ∷ rest) h = elim (Bool-cases (e.0 == key)) [
  | inl k ↦ rw (k, beq_refl key) refl
  | inr k ↦ rw (k, k) (attempts_of-updated key times rest (rw k at h))
]

attempts_of-appended :
    (key : String) (times : List ℕ) (attempts : Attempts)
    → any (is_entry key) attempts ≡ false
    → attempts_of (attempts ++ ((key, times) ∷ [])) key ≡ times
unfolding attempts_of any is_entry
attempts_of-appended key times [] h = rw (beq_refl key) refl
attempts_of-appended key times (e ∷ rest) h = elim (Bool-cases (e.0 == key)) [
  | inl k ↦ absurd (ground arith)
  | inr k ↦ rw k (attempts_of-appended key times rest (rw k at h))
]

pub attempts_of-set_attempts :
    (attempts : Attempts) (key : String) (times : List ℕ)
    → attempts_of (set_attempts attempts key times) key ≡ times
unfolding set_attempts
attempts_of-set_attempts attempts key times = elim (Bool-cases (any (is_entry key) attempts)) [
  | inl k ↦ rw (set_attempts, k) (attempts_of-updated key times attempts k)
  | inr k ↦ rw (set_attempts, k) (attempts_of-appended key times attempts k)
]

-- The other keys keep their attempts.
attempts_of-other_updated :
    (key other : String) (times : List ℕ) (attempts : Attempts)
    → (key == other) ≡ false
    → attempts_of (update_where (is_entry key) (λ e. (key, times)) attempts) other
      ≡ attempts_of attempts other
unfolding attempts_of update_where is_entry
attempts_of-other_updated key other times [] h = refl
attempts_of-other_updated key other times (e ∷ rest) h = elim (Bool-cases (e.0 == key)) [
  | inl k ↦
      let q : (e.0 == other) ≡ false = rw (eq_of_beq e.0 key k) h in
      rw (k, h, q) (attempts_of-other_updated key other times rest h)
  | inr k ↦ elim (Bool-cases (e.0 == other)) [
    | inl o ↦ rw (k, o) refl
    | inr o ↦ rw (k, o) (attempts_of-other_updated key other times rest h)
  ]
]

attempts_of-other_appended :
    (key other : String) (times : List ℕ) (attempts : Attempts)
    → (key == other) ≡ false
    → attempts_of (attempts ++ ((key, times) ∷ [])) other ≡ attempts_of attempts other
unfolding attempts_of is_entry
attempts_of-other_appended key other times [] h = rw h refl
attempts_of-other_appended key other times (e ∷ rest) h = elim (Bool-cases (e.0 == other)) [
  | inl o ↦ rw o refl
  | inr o ↦ rw o (attempts_of-other_appended key other times rest h)
]

pub attempts_of-other :
    (attempts : Attempts) (key other : String) (times : List ℕ)
    → (key == other) ≡ false
    → attempts_of (set_attempts attempts key times) other ≡ attempts_of attempts other
unfolding set_attempts
attempts_of-other attempts key other times h = elim (Bool-cases (any (is_entry key) attempts)) [
  | inl k ↦ rw (set_attempts, k) (attempts_of-other_updated key other times attempts h)
  | inr k ↦ rw (set_attempts, k) (attempts_of-other_appended key other times attempts h)
]

-- What is dropped now is not recent later.
filter-filter_recent :
    (l : RateLimiter) (now later : ℕ) (times : List ℕ)
    → now ≤ later
    → filter (is_recent l later) (filter (is_recent l now) times) ≡ filter (is_recent l later) times
unfolding filter
filter-filter_recent l now later [] h = refl
filter-filter_recent l now later (t ∷ times) h =
    let ih = filter-filter_recent l now later times h in
    elim (Bool-cases (is_recent l now t)) [
      | inl k ↦ elim (Bool-cases (is_recent l later t)) [
        | inl j ↦ rw (k, j, ih) refl
        | inr j ↦ rw (k, j, ih) refl
      ]
      | inr k ↦
          let j : is_recent l later t ≡ false = unfold is_recent in ground arith in
          rw (k, j, ih) refl
    ]

pub recent-is_limited :
    (l : RateLimiter) (now later : ℕ) (key other : String)
    → now ≤ later
    → recent (is_limited l now key).0 later other ≡ recent l later other
unfolding is_limited recent is_recent
recent-is_limited l now later key other h = elim (Bool-cases (key == other)) [
  | inr k ↦
      ap (filter (is_recent l later)) (attempts_of-other l.attempts key other (recent l now key) k)
  | inl k ↦
      subst (λ z. recent (is_limited l now key).0 later z ≡ recent l later z)
        (eq_of_beq key other k)
        (ap (filter (is_recent l later))
            (attempts_of-set_attempts l.attempts key (recent l now key))
          ∙ filter-filter_recent l now later (attempts_of l.attempts key) h)
]

-- The answer to a check of any key at a later time is the same whether or not a key was checked,
-- and its old attempts dropped, before.
pub is_limited-is_limited :
    (l : RateLimiter) (now later : ℕ) (key other : String)
    → now ≤ later
    → (is_limited (is_limited l now key).0 later other).1 ≡ (is_limited l later other).1
unfolding is_limited
is_limited-is_limited l now later key other h =
    ap (λ z. leb l.max_attempts (length z)) (recent-is_limited l now later key other h)
