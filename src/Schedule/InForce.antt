-- ===== src/Schedule/InForce.antt =====
-- common/schedule_eval.py, lines 146 to 202 and 238 to 254: which schedules are in force for a device,
-- and what that makes of a full lockout.
use opti_gate.Base.{ℕ, Option, some, Bool, true, false, ◌&&◌, ◌||◌, ◌==◌}
use opti_gate.Base.{List, [], ◌∷◌, filter, In, inl, inr, ◌⊎◌, ◌≡◌, sym, ap, ◌∙◌}
use opti_gate.Base.{In-filter, filter-In, >>=-eq-some, some_inj, Bool-cases, Option-cases, arith}
use opti_gate.Base.{subst, nat_eq, false-true}
use opti_gate.Tables.{Database, DeviceRow, Schedule, ScheduleOverride}
use opti_gate.Platform.{Platform}
use opti_gate.Matching.Axes.{Applies, schedule_applies_to_device_iff}
use opti_gate.Matching.Grants.{schedule_applies_to_device}
use opti_gate.Schedule.Clock.{schedule_is_active}
use opti_gate.Schedule.Overrides.{active_override_for_target, schedule_is_active_for_target}
use opti_gate.Schedule.Overrides.{schedule_is_active_for_device}
use opti_gate.Schedule.Lockout.{any_in_effect, is_full_lockout_active}
use opti_gate.Schedule.Effect.{Parses, any_in_effect_total, any_in_effect_sound, for_device_total}
use opti_gate.Schedule.Chosen.{IsChosen, HasNoOverride, active_override_for_target-IsChosen}
use opti_gate.Schedule.Chosen.{active_override_for_target-HasNoOverride}

module _ (db : Database) (now : ℕ) (user_id group_id device_id : Option ℕ) (π : Platform) where
  -- Whether the schedule is in force for the target: by the clock, where it is neither a mode nor
  -- a full lockout or where the target has no override; and else by the override's schedule.
  pub data IsInForce (row : Schedule) (b : Bool) : Type 0 where
    by_clock :
        ((row.is_mode || row.lockout_all) ≡ false) ⊎ HasNoOverride db now user_id group_id device_id
        → schedule_is_active π row now ≡ some b
        → IsInForce row b
    by_override :
        (o : ScheduleOverride)
        → (row.is_mode || row.lockout_all) ≡ true
        → IsChosen db now user_id group_id device_id o
        → (o.schedule_id == row.id) ≡ b
        → IsInForce row b

  pub schedule_is_active_for_target-IsInForce :
      (row : Schedule) (b : Bool)
      → schedule_is_active_for_target db now π row user_id group_id device_id ≡ some b
      → IsInForce row b
  unfolding schedule_is_active_for_target
  schedule_is_active_for_target-IsInForce row b h =
      elim (Bool-cases (row.is_mode || row.lockout_all)) [
        | inr e ↦ by_clock (inl e) (rw e at h)
        | inl e ↦
            elim (Option-cases (active_override_for_target db now user_id group_id device_id)) [
              | inl n ↦
                  by_clock
                    (inr (
                      active_override_for_target-HasNoOverride db now user_id group_id device_id n))
                    (rw n at (rw e at h))
              | inr (o, s) ↦
                  by_override o e
                    (active_override_for_target-IsChosen db now user_id group_id device_id o s)
                    (some_inj (rw s at (rw e at h)))
            ]
      ]

-- A check that says no has asked each schedule that applies, and each has said no.
pub any_in_effect-false :
    (active : Schedule → Option Bool) (applies : Schedule → Bool) (rows : List Schedule)
    → any_in_effect active applies rows ≡ some false
    → (row : Schedule) → In row rows
    → applies row ≡ true
    → active row ≡ some false
unfolding any_in_effect
any_in_effect-false active applies [] h row m t = absurd m
any_in_effect-false active applies (r ∷ rows) h row m t =
    let (a, e, k) = >>=-eq-some (active r) _ h in
    elim (Bool-cases (a && applies r)) [
      | inl y ↦ absurd (false-true (sym (some_inj (rw y at k))))
      | inr n ↦ elim m [
        | inl q ↦
            let t' = subst (λ z. applies z ≡ true) q t in
            subst (λ z. active z ≡ some false) (sym q)
              (e ∙ ap some (let w : a ≡ false = ground arith in w))
        | inr i ↦ any_in_effect-false active applies rows (rw n at k) row i t
      ]
    ]

module _ (π : Platform) (db : Database) (now : ℕ) (device : DeviceRow) where
  abbrev pub IsInForceFor : Schedule → Bool → Type 0
  IsInForceFor = IsInForce db now device.user_id device.group_id device.id π

  abbrev pub IsTargetOf : Schedule → Type 0
  IsTargetOf row =
      Applies row.is_global (λ u. In (row.id, u) db.schedule_users)
        (λ g. In (row.id, g) db.schedule_groups) (λ d. In (row.id, d) db.schedule_devices)
        device.user_id device.group_id device.id

  -- Where no schedule raises, the check of a device answers: yes only if some full lockout that
  -- targets the device is in force for it, and no only if none that targets it is.
  pub is_full_lockout_active-IsInForce :
      Parses π db now
      → (b : Bool) × (is_full_lockout_active π db now device ≡ some b)
        × (b ≡ true
            → (row : Schedule) × In row db.schedules
              × (row.lockout_all ≡ true)
              × IsTargetOf row
              × IsInForceFor row true)
        × (b ≡ false
            → (row : Schedule) → In row db.schedules
            → row.lockout_all ≡ true
            → IsTargetOf row
            → IsInForceFor row false)
  unfolding is_full_lockout_active schedule_is_active_for_device
  is_full_lockout_active-IsInForce parses =
      let active = λ (row : Schedule). schedule_is_active_for_device db now π row device in
      let applies = λ (row : Schedule). schedule_applies_to_device db device row in
      let test = λ (s : Schedule). s.lockout_all in
      let rows = filter test db.schedules in
      let (b, e) = any_in_effect_total active applies rows (λ r i.
        for_device_total π db now r device (parses r (filter-In test r db.schedules i).0)) in
      let force = λ (row : Schedule) (c : Bool) (h : active row ≡ some c).
        schedule_is_active_for_target-IsInForce db now device.user_id device.group_id device.id π
          row c h in
      (
        b,
        e,
        λ yes.
            let (r, i, x, y) = any_in_effect_sound active applies rows (e ∙ ap some yes) in
            let (i', l) = filter-In test r db.schedules i in
            (r, i', l, (schedule_applies_to_device_iff db device r).0 y, force r true x),
        λ no r i l t. force r false (
            any_in_effect-false active applies rows (e ∙ ap some no) r
              (In-filter test r db.schedules i l)
              ((schedule_applies_to_device_iff db device r).1 t)),
      )
