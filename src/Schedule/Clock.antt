-- ===== src/Schedule/Clock.antt =====
-- common/schedule_eval.py, lines 16 to 76: is an instant inside a schedule's window?
use opti_gate.Base.{ℕ, zero, suc, ◌+◌, ◌*◌, ◌%◌, String, List, map, Option, some}
use opti_gate.Base.{Bool, not, ◌&&◌, ◌||◌, if◌then◌else◌, ◌==◌, nat_eq, string_eq}
use opti_gate.Base.{filter, contains, leb, ltb, ◌>>=◌, split_on, strip, lower, partition, int_of}
use opti_gate.Base.{is_empty}
use opti_gate.Tables.{Schedule}
use opti_gate.Platform.{Platform, LocalTime}

-- `_DAY_CODES[i]`; `weekday()` is below 7.
unfoldable pub day_code : ℕ → String
day_code zero = "mon"
day_code (suc zero) = "tue"
day_code (suc (suc zero)) = "wed"
day_code (suc (suc (suc zero))) = "thu"
day_code (suc (suc (suc (suc zero)))) = "fri"
day_code (suc (suc (suc (suc (suc zero))))) = "sat"
day_code (suc (suc (suc (suc (suc (suc n)))))) = "sun"

-- `int(hour_str), int(minute_str)`; none where `int` raises.
unfoldable pub parse_hhmm : String → Option (ℕ × ℕ)
unfolding partition int_of
parse_hhmm value =
    let (hour_str, minute_str) = partition b':' value in
    do hour ← int_of hour_str; minute ← int_of minute_str; some (hour, minute)

-- The set of day codes in `days_of_week`.
unfoldable pub scheduled_days : String → List String
unfolding split_on strip lower filter
scheduled_days days_of_week =
    map (λ d. lower (strip d))
      (filter (λ (d : String). not (is_empty (strip d))) (split_on b',' days_of_week))

-- The three branches on the window's two ends, all in minutes of the day.
unfoldable pub window_is_active : List String → (start end : ℕ) → LocalTime → Bool
window_is_active days start_minutes end_minutes local =
    let now_minutes = local.hour * 60 + local.minute in
    let today = contains days (day_code local.weekday) in
    let yesterday = contains days (day_code ((local.weekday + 6) % 7)) in
    if start_minutes == end_minutes
    then today
    else if ltb start_minutes end_minutes
    then today && (leb start_minutes now_minutes && ltb now_minutes end_minutes)
    else (today && leb start_minutes now_minutes) || (yesterday && ltb now_minutes end_minutes)

unfoldable pub schedule_is_active : Platform → Schedule → ℕ → Option Bool
schedule_is_active π row now = do
  local ← π.astimezone row.time_zone now
  let days = scheduled_days row.days_of_week
  (start_h, start_m) ← parse_hhmm row.start_time
  (end_h, end_m) ← parse_hhmm row.end_time
  some (window_is_active days (start_h * 60 + start_m) (end_h * 60 + end_m) local)
