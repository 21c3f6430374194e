-- ===== src/Schedule/Overrides.antt =====
-- common/schedule_eval.py, lines 79 to 202: the manual shift of a target into one schedule.
use opti_gate.Base.{ℕ, Option, none, some, Bool, not, ◌&&◌, ◌||◌, if◌then◌else◌, ◌==◌}
use opti_gate.Base.{nat_eq, leb, ltb, first_where, List}
use opti_gate.Tables.{Database, DeviceRow, Schedule, ScheduleOverride, sql_eq}
use opti_gate.Platform.{Platform}
use opti_gate.Schedule.Clock.{schedule_is_active}

-- ORDER BY created_at DESC
abbrev pub newer : ScheduleOverride → ScheduleOverride → Bool
newer a b = leb b.created_at a.created_at

-- One of the three queries: the newest row of an axis that has not expired.
unfoldable pub newest_override :
    (ScheduleOverride → Option ℕ)
    → List ScheduleOverride
    → (target now : ℕ) → Option ScheduleOverride
newest_override axis rows target now =
    first_where newer (λ (o : ScheduleOverride). sql_eq (axis o) target && ltb now o.expires_at)
      rows

-- `if id is not None: row = query; if row is not None: return row`, and otherwise the rest.
abbrev pub or_next : Option ScheduleOverride → Option ScheduleOverride → Option ScheduleOverride
or_next none rest = rest
or_next (some o) rest = some o

abbrev pub given_id : Option ℕ → (ℕ → Option ScheduleOverride) → Option ScheduleOverride
given_id none query = none
given_id (some i) query = query i

module _ (db : Database) (now : ℕ) where
  -- The device's override wins over the user's, which wins over the group's.
  unfoldable pub active_override_for_target :
      (user_id group_id device_id : Option ℕ) → Option ScheduleOverride
  active_override_for_target user_id group_id device_id =
      let rows = db.schedule_overrides in
      or_next (given_id device_id (λ i. newest_override (λ o. o.device_id) rows i now)) (
        or_next (given_id user_id (λ i. newest_override (λ o. o.user_id) rows i now))
          (given_id group_id (λ i. newest_override (λ o. o.group_id) rows i now)))

  unfoldable pub active_override_for_device : DeviceRow → Option ScheduleOverride
  active_override_for_device device =
      active_override_for_target device.user_id device.group_id device.id

  module _ (π : Platform) where
    -- The clock check, unless the schedule can be overridden and an override is in force.
    unfoldable pub schedule_is_active_for_target :
        Schedule → (user_id group_id device_id : Option ℕ) → Option Bool
    schedule_is_active_for_target row user_id group_id device_id =
        if not (row.is_mode || row.lockout_all)
        then schedule_is_active π row now
        else elim (active_override_for_target user_id group_id device_id) [
          | some o ↦ some (o.schedule_id == row.id)
          | none ↦ schedule_is_active π row now
        ]

    unfoldable pub schedule_is_active_for_device : Schedule → DeviceRow → Option Bool
    schedule_is_active_for_device row device =
        schedule_is_active_for_target row device.user_id device.group_id device.id
