-- ===== src/Schedule/Lockout.antt =====
-- common/schedule_eval.py, lines 205 to 254: which schedules are in effect for a target, and
-- whether one of them is a full lockout.
use opti_gate.Base.{ℕ, Option, some, Bool, true, false, not, ◌&&◌, if◌then◌else◌}
use opti_gate.Base.{List, [], ◌∷◌, ◌>>=◌, filter, sort_by, str_leb}
use opti_gate.Tables.{Database, DeviceRow, Schedule}
use opti_gate.Platform.{Platform}
use opti_gate.Matching.Grants.{schedule_applies_to_target, schedule_applies_to_device}
use opti_gate.Schedule.Overrides.{schedule_is_active_for_target, schedule_is_active_for_device}

-- ORDER BY lockout_all DESC, name
abbrev pub severest_first : Schedule → Schedule → Bool
severest_first a b =
    if a.lockout_all && not b.lockout_all
    then true
    else if b.lockout_all && not a.lockout_all
    then false
    else str_leb a.name b.name

-- `[row for row in rows if applies(row) and active(row)]`, where `active` may raise.
unfoldable pub in_effect :
    (applies : Schedule → Bool) (active : Schedule → Option Bool)
    → List Schedule
    → Option (List Schedule)
in_effect applies active [] = some []
in_effect applies active (row ∷ rows) =
    let rest = in_effect applies active rows in
    if applies row then (do a ← active row; r ← rest; some (if a then row ∷ r else r)) else rest

-- `for row in rows: if active(row) and applies(row): return True`, and False at the end.
unfoldable pub any_in_effect :
    (active : Schedule → Option Bool) (applies : Schedule → Bool) → List Schedule → Option Bool
any_in_effect active applies [] = some false
any_in_effect active applies (row ∷ rows) =
    let rest = any_in_effect active applies rows in
    do a ← active row; if a && applies row then some true else rest

module _ (π : Platform) (db : Database) (now : ℕ) where
  unfoldable pub active_schedules_for_target :
      (user_id group_id device_id : Option ℕ) → Option (List Schedule)
  unfolding in_effect
  active_schedules_for_target user_id group_id device_id =
      in_effect (λ row. schedule_applies_to_target db row user_id group_id device_id)
        (λ row. schedule_is_active_for_target db now π row user_id group_id device_id)
        (sort_by severest_first db.schedules)

  -- Some `lockout_all` schedule is active for the device and targets it.
  unfoldable pub is_full_lockout_active : DeviceRow → Option Bool
  unfolding any_in_effect
  is_full_lockout_active device =
      any_in_effect (λ row. schedule_is_active_for_device db now π row device)
        (λ row. schedule_applies_to_device db device row)
        (filter (λ (s : Schedule). s.lockout_all) db.schedules)
