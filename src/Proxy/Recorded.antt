-- ===== src/Proxy/Recorded.antt =====
-- common/logging_util.py: what is in the access log after a decision.
use opti_gate.Base.{ℕ, ◌+◌, ◌≤◌, String, Bool, true, false, [], ◌∷◌, ◌++◌, any}
use opti_gate.Base.{
  ◌≡◌, refl, sym, ap, inl, inr, arith, Bool-cases, In, any-find, any-In, In-append_right,
  In-append_left, eq_of_beq, beq_refl, subst,
}
use opti_gate.Base.{string_eq, option_eq, bool_beq, leb}
use opti_gate.Tables.{Database, AccessRow}
use opti_gate.Proxy.Log.{log_access, is_repeat, strip_query, dedupe_window_seconds}

-- The log has a row of the last five minutes for the person, the domain and the outcome.
abbrev pub IsRecorded : Database → ℕ → String → String → Bool → Type 0
IsRecorded db now username domain allowed =
    (r : AccessRow) × In r db.access_log
    × (r.username ≡ username)
    × (r.domain ≡ domain)
    × (r.allowed ≡ allowed)
    × (now ≤ r.ts + dedupe_window_seconds)

bool_eq_of : (a b : Bool) → bool_beq a b ≡ true → a ≡ b
bool_eq_of true true h = refl
bool_eq_of true false h = cc
bool_eq_of false true h = cc
bool_eq_of false false h = refl

bool_beq_refl : (a : Bool) → bool_beq a a ≡ true
bool_beq_refl true = refl
bool_beq_refl false = refl

is_repeat-fields :
    (now : ℕ) (e r : AccessRow)
    → is_repeat now e r ≡ true
    → (r.username ≡ e.username)
      × (r.domain ≡ e.domain)
      × (r.allowed ≡ e.allowed)
      × (now ≤ r.ts + dedupe_window_seconds)
unfolding is_repeat
is_repeat-fields now e r h = (
  eq_of_beq r.username e.username (ground arith),
  eq_of_beq r.domain e.domain (ground arith),
  bool_eq_of r.allowed e.allowed (ground arith),
  (let k : leb now (r.ts + dedupe_window_seconds) ≡ true = ground arith in ground arith),
)

log_access-repeat :
    (db : Database) (now : ℕ) (e : AccessRow)
    → any (is_repeat now e) db.access_log ≡ true
    → log_access db now e ≡ db
unfolding log_access
log_access-repeat db now e k = rw k refl

log_access-new :
    (db : Database) (now : ℕ) (e : AccessRow)
    → any (is_repeat now e) db.access_log ≡ false
    → log_access db now e ≡ record db { access_log = db.access_log ++ (record e { ts = now } ∷ []) }
unfolding log_access
log_access-new db now e k = rw k refl

-- After the call the event is in the log, with a time in the window.
pub log_access_lem :
    (db : Database) (now : ℕ) (e : AccessRow)
    → IsRecorded (log_access db now e) now e.username e.domain e.allowed
log_access_lem db now e = elim (Bool-cases (any (is_repeat now e) db.access_log)) [
  | inl k ↦
      let (r, m, h) = any-find (is_repeat now e) db.access_log k in
      subst (λ z. IsRecorded z now e.username e.domain e.allowed)
        (sym (log_access-repeat db now e k))
        (let f = is_repeat-fields now e r h in (r, m, f.0, f.1, f.2, f.3))
  | inr k ↦
      subst (λ z. IsRecorded z now e.username e.domain e.allowed) (sym (log_access-new db now e k))
        (
          record e { ts = now },
          In-append_right (record e { ts = now }) db.access_log _ (inl refl),
          refl,
          refl,
          refl,
          ground arith,
        )
]

-- No row is lost.
pub log_access-In :
    (db : Database) (now : ℕ) (e r : AccessRow)
    → In r db.access_log
    → In r (log_access db now e).access_log
log_access-In db now e r m = elim (Bool-cases (any (is_repeat now e) db.access_log)) [
  | inl k ↦ subst (λ (z : Database). In r z.access_log) (sym (log_access-repeat db now e k)) m
  | inr k ↦
      subst (λ (z : Database). In r z.access_log) (sym (log_access-new db now e k))
        (In-append_left r db.access_log _ m)
]

pub IsRecorded-log_access :
    (db : Database) (now : ℕ) (e : AccessRow) (username domain : String) (allowed : Bool)
    → IsRecorded db now username domain allowed
    → IsRecorded (log_access db now e) now username domain allowed
IsRecorded-log_access db now e username domain allowed (r, m, a, b, c, d) =
    (r, log_access-In db now e r m, a, b, c, d)

is_repeat_self :
    (now later : ℕ) (e : AccessRow)
    → later ≤ now + dedupe_window_seconds
    → is_repeat later e (record e { ts = now }) ≡ true
unfolding is_repeat
is_repeat_self now later e h =
    let k : leb later (now + dedupe_window_seconds) ≡ true = ground arith in
    rw
      (
        beq_refl e.username,
        beq_refl e.domain,
        bool_beq_refl e.allowed,
        k,
        beq_refl e.series_id,
        beq_refl (strip_query e.path),
      )
      refl

-- Where an event is logged that the log does not have in its window yet, logging it again at a
-- time at most five minutes later writes nothing.
pub log_access-log_access :
    (db : Database) (now later : ℕ) (e : AccessRow)
    → any (is_repeat now e) db.access_log ≡ false
    → later ≤ now + dedupe_window_seconds
    → log_access (log_access db now e) later e ≡ log_access db now e
log_access-log_access db now later e k h =
    let x : AccessRow = record e { ts = now } in
    subst (λ z. log_access z later e ≡ z) (sym (log_access-new db now e k))
      (log_access-repeat _ later e (
        any-In (is_repeat later e) x _ (In-append_right x db.access_log _ (inl refl))
          (is_repeat_self now later e h)))

-- What a decision reads is not changed by logging.
pub log_access-user_shows :
    (db : Database) (now : ℕ) (e : AccessRow) → (log_access db now e).user_shows ≡ db.user_shows
log_access-user_shows db now e = elim (Bool-cases (any (is_repeat now e) db.access_log)) [
  | inl k ↦ ap (λ (z : Database). z.user_shows) (log_access-repeat db now e k)
  | inr k ↦ ap (λ (z : Database). z.user_shows) (log_access-new db now e k)
]
