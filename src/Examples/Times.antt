-- ===== src/Examples/Times.antt =====
-- The bedtime of the household.
use opti_gate.Base.{
  ℕ, String, Option, none, some, List, [], ◌∷◌, Bool, true, false, ◌≡◌, refl, sym, subst, inl, inr,
  In, ◌↔◌, ◌<◌, ◌+◌, ◌*◌, arith, is_some, ◌||◌, contains, string_eq,
}
use opti_gate.Tables.{Database, Schedule, ScheduleOverride, DeviceRow, row_of}
use opti_gate.Schedule.Clock.{schedule_is_active, scheduled_days, day_code, parse_hhmm}
use opti_gate.Schedule.Week.{IsLocal, Covers, schedule_is_active_iff}
use opti_gate.Schedule.Overrides.{schedule_is_active_for_device, active_override_for_target}
use opti_gate.Schedule.Lockout.{is_full_lockout_active, active_schedules_for_target}
use opti_gate.Schedule.Effect.{Parses, active_schedules_for_target_shifted}
use opti_gate.Schedule.InForce.{IsTargetOf, IsInForceFor, is_full_lockout_active-IsInForce}
use opti_gate.Platform.{LocalTime}
use opti_gate.Matching.Grants.{schedule_applies_to_target}
use opti_gate.Examples.Household.{platform, evening, shifted, bedtime, laptop}

abbrev half_past_nine : LocalTime
half_past_nine = record { weekday = 0; hour = 21; minute = 30 }

late : IsLocal half_past_nine
late = record { weekday = ground arith; hour = ground arith; minute = ground arith }

start_parses : parse_hhmm bedtime.start_time ≡ some (21, 0)
unfolding parse_hhmm
start_parses = refl

end_parses : parse_hhmm bedtime.end_time ≡ some (6, 0)
unfolding parse_hhmm
end_parses = refl

schedule_is_active_iff_example : (schedule_is_active platform bedtime 0 ≡ some true) ↔ (
    (d : ℕ) × (d < 7)
    × (contains (scheduled_days bedtime.days_of_week) (day_code d) ≡ true)
    × Covers (21 * 60 + 0) (6 * 60 + 0) d half_past_nine)
schedule_is_active_iff_example =
    schedule_is_active_iff platform bedtime 0 21 0 6 0 start_parses end_parses half_past_nine refl
      (ground arith) (ground arith) late

bedtime_parses : is_some (schedule_is_active platform bedtime 0) ≡ true
unfolding schedule_is_active parse_hhmm
bedtime_parses = refl

pub evening-Parses : Parses platform evening 0
evening-Parses s (inl e) =
    subst (λ z. is_some (schedule_is_active platform z 0) ≡ true) (sym e) bedtime_parses
evening-Parses s (inr r) = absurd r

is_full_lockout_active-IsInForce_example :
    (b : Bool) × (is_full_lockout_active platform evening 0 (row_of laptop) ≡ some b)
    × (b ≡ true
        → (row : Schedule) × In row evening.schedules
          × (row.lockout_all ≡ true)
          × IsTargetOf platform evening 0 (row_of laptop) row
          × IsInForceFor platform evening 0 (row_of laptop) row true)
    × (b ≡ false
        → (row : Schedule) → In row evening.schedules
        → row.lockout_all ≡ true
        → IsTargetOf platform evening 0 (row_of laptop) row
        → IsInForceFor platform evening 0 (row_of laptop) row false)
is_full_lockout_active-IsInForce_example =
    is_full_lockout_active-IsInForce platform evening 0 (row_of laptop) evening-Parses

abbrev shift : ScheduleOverride
shift = record {
  id = 1;
  schedule_id = 1;
  user_id = some 1;
  group_id = none;
  device_id = none;
  created_at = 0;
  expires_at = 1000;
}

shift_found : active_override_for_target shifted 0 (some 1) none (some 1) ≡ some shift
unfolding active_override_for_target opti_gate.Schedule.Overrides.newest_override
    opti_gate.Base.first_where
shift_found = refl

bedtime_in_effect :
    active_schedules_for_target platform shifted 0 (some 1) none (some 1) ≡ some (bedtime ∷ [])
unfolding active_schedules_for_target opti_gate.Base.sort_by schedule_applies_to_target
    opti_gate.Tables.has_pair opti_gate.Base.any
    opti_gate.Schedule.Overrides.schedule_is_active_for_target active_override_for_target
    opti_gate.Schedule.Overrides.newest_override opti_gate.Base.first_where
bedtime_in_effect = refl

active_schedules_for_target_shifted_example :
    In bedtime shifted.schedules
    × (schedule_applies_to_target shifted bedtime (some 1) none (some 1) ≡ true)
    × ((bedtime.is_mode || bedtime.lockout_all) ≡ true → bedtime.id ≡ shift.schedule_id)
    × ((bedtime.is_mode || bedtime.lockout_all) ≡ false
        → schedule_is_active platform bedtime 0 ≡ some true)
active_schedules_for_target_shifted_example =
    active_schedules_for_target_shifted platform shifted 0 (some 1) none (some 1) shift shift_found
      (bedtime ∷ []) bedtime bedtime_in_effect (inl refl)
