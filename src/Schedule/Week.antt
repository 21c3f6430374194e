-- ===== src/Schedule/Week.antt =====
-- The clock check against the week that it stands for: each scheduled day opens one window, which
-- may run past midnight, and past Sunday's into Monday.
use opti_gate.Base.{ℕ, ◌+◌, ◌*◌, ◌-◌, ◌%◌, ◌<◌, String, List, ◌≡◌, ◌↔◌, ◌⊎◌, inl, inr}
use opti_gate.Base.{Bool, true, if◌then◌else◌, ◌==◌, nat_eq, string_eq, contains, ltb}
use opti_gate.Base.{subst, arith}
use opti_gate.Base.{some, some_inj, sym, ap, ◌∙◌}
use opti_gate.Tables.{Schedule}
use opti_gate.Platform.{Platform, LocalTime}
use opti_gate.Schedule.Clock.{day_code, window_is_active, scheduled_days, parse_hhmm}
use opti_gate.Schedule.Clock.{schedule_is_active}

-- How many minutes a window is open; equal ends stand for the whole day.
abbrev duration : (start end : ℕ) → ℕ
duration start end =
    if start == end then 1440 else if ltb start end then end - start else 1440 - start + end

-- The minute of the week at which the window of day `d` opens.
abbrev opens : (start end d : ℕ) → ℕ
opens start end d = if start == end then d * 1440 else d * 1440 + start

-- A local time with the ranges that `datetime` promises.
pub record IsLocal (t : LocalTime) : Type 0 where
  pub weekday : t.weekday < 7
  pub hour : t.hour < 24
  pub minute : t.minute < 60

abbrev minute_of_week : LocalTime → ℕ
minute_of_week t = t.weekday * 1440 + (t.hour * 60 + t.minute)

-- The window that day `d` opens covers the minute, on the circle of 10080 minutes.
abbrev pub Covers : (start end d : ℕ) → LocalTime → Type 0
Covers start end d t = (minute_of_week t + 10080 - opens start end d) % 10080 < duration start end

module _ (start end : ℕ) (t : LocalTime) (l : IsLocal t) (s : start < 1440) (e : end < 1440) where
  -- Only today's window and yesterday's can be open.
  Covers-cases :
      (d : ℕ) → d < 7 → Covers start end d t → (d ≡ t.weekday) ⊎ (d ≡ (t.weekday + 6) % 7)
  Covers-cases d h c = ground arith

  module _ (days : List String) where
    abbrev is_scheduled : ℕ → Bool
    is_scheduled d = contains days (day_code d)

    from_today :
        is_scheduled t.weekday ≡ true
        → Covers start end t.weekday t
        → window_is_active days start end t ≡ true
    unfolding window_is_active
    from_today h c = ground arith

    from_yesterday :
        is_scheduled ((t.weekday + 6) % 7) ≡ true
        → Covers start end ((t.weekday + 6) % 7) t
        → window_is_active days start end t ≡ true
    unfolding window_is_active
    from_yesterday h c = ground arith

    active_cases :
        window_is_active days start end t ≡ true
        → ((is_scheduled t.weekday ≡ true) × Covers start end t.weekday t)
          ⊎ ((is_scheduled ((t.weekday + 6) % 7) ≡ true) × Covers start end ((t.weekday + 6) % 7) t)
    unfolding window_is_active
    active_cases h = ground arith

    -- The clock check holds exactly when some day of the week is scheduled and its window, opened
    -- on that day and as long as `duration` says, covers the present minute of the week.
    pub window_is_active_iff :
        (window_is_active days start end t ≡ true)
        ↔ ((d : ℕ) × (d < 7) × (is_scheduled d ≡ true) × Covers start end d t)
    window_is_active_iff = (
      λ h. elim (active_cases h) [
        | inl a ↦ (t.weekday, l.weekday, a.0, a.1)
        | inr a ↦ ((t.weekday + 6) % 7, omega arith, a.0, a.1)
      ],
      λ r. elim (Covers-cases r.0 r.1 r.3) [
        | inl q ↦
            from_today (subst (λ d. is_scheduled d ≡ true) q r.2)
              (subst (λ d. Covers start end d t) q r.3)
        | inr q ↦
            from_yesterday (subst (λ d. is_scheduled d ≡ true) q r.2)
              (subst (λ d. Covers start end d t) q r.3)
      ],
    )

module _ (π : Platform) (row : Schedule) (now start_h start_m end_h end_m : ℕ)
    (p : parse_hhmm row.start_time ≡ some (start_h, start_m))
    (q : parse_hhmm row.end_time ≡ some (end_h, end_m)) (local : LocalTime)
    (known : π.astimezone row.time_zone now ≡ some local) where
  pub schedule_is_active_value :
      schedule_is_active π row now
      ≡ some (
          window_is_active
            (scheduled_days row.days_of_week)
            (start_h * 60 + start_m)
            (end_h * 60 + end_m)
            local)
  unfolding schedule_is_active
  schedule_is_active_value = rw (p, q, known)

  -- Where the zone is known and the two texts parse to times of the day, a schedule is active exactly when some
  -- scheduled day's window covers the present minute of the week in the schedule's own zone.
  pub schedule_is_active_iff :
      start_h * 60 + start_m < 1440
      → end_h * 60 + end_m < 1440
      → IsLocal local
      → (schedule_is_active π row now ≡ some true) ↔ (
          (d : ℕ) × (d < 7)
          × (contains (scheduled_days row.days_of_week) (day_code d) ≡ true)
          × Covers (start_h * 60 + start_m) (end_h * 60 + end_m) d local)
  schedule_is_active_iff s e l =
      let w =
        window_is_active_iff (start_h * 60 + start_m) (end_h * 60 + end_m) local l s e
          (scheduled_days row.days_of_week) in
      (
        λ h. w.0 (some_inj (sym schedule_is_active_value ∙ h)),
        λ r. schedule_is_active_value ∙ ap some (w.1 r),
      )
