-- ===== src/Schedule/Effect.antt =====
-- Which schedules are in effect: the loops of Schedule/Lockout against the table, and what an
-- override does to them.
use opti_gate.Base.{ℕ, Option, some, Bool, true, false, ◌&&◌, ◌||◌, if◌then◌else◌}
use opti_gate.Base.{List, [], ◌∷◌, filter, sort_by, In, inl, inr, ◌⊎◌, ◌≡◌, refl}
use opti_gate.Base.{
  In-filter, filter-In, >>=-eq-some, some_inj, is_some, is_some-eq, Bool-cases, arith, sym,
}
use opti_gate.Base.{subst, ◌↔◌, sort_by-In, nat_eq}
use opti_gate.Tables.{Database, DeviceRow, Schedule, ScheduleOverride}
use opti_gate.Platform.{Platform}
use opti_gate.Matching.Grants.{schedule_applies_to_target, schedule_applies_to_device}
use opti_gate.Schedule.Clock.{schedule_is_active}
use opti_gate.Schedule.Overrides.{active_override_for_target, schedule_is_active_for_target}
use opti_gate.Schedule.Overrides.{schedule_is_active_for_device}
use opti_gate.Schedule.Lockout.{in_effect, any_in_effect, active_schedules_for_target}
use opti_gate.Schedule.Lockout.{is_full_lockout_active, severest_first}

module _ (active : Schedule → Option Bool) (applies : Schedule → Bool) where
  abbrev pub Answers : List Schedule → Type 0
  Answers rows = (row : Schedule) → In row rows → is_some (active row) ≡ true

  abbrev pub HasActive : List Schedule → Type 0
  HasActive rows = (row : Schedule) × In row rows × (active row ≡ some true) × (applies row ≡ true)

  pub any_in_effect_sound :
      (rows : List Schedule) → any_in_effect active applies rows ≡ some true → HasActive rows
  unfolding any_in_effect
  any_in_effect_sound [] h = cc
  any_in_effect_sound (row ∷ rows) h =
      let (a, e, k) = >>=-eq-some (active row) _ h in
      elim (Bool-cases (a && applies row)) [
        | inl t ↦ (row, inl refl, ground arith, ground arith)
        | inr f ↦ let (r, i, x, y) = any_in_effect_sound rows (rw f at k) in (r, inr i, x, y)
      ]

  pub any_in_effect_total :
      (rows : List Schedule)
      → Answers rows
      → (b : Bool) × (any_in_effect active applies rows ≡ some b)
  unfolding any_in_effect
  any_in_effect_total [] h = (false, refl)
  any_in_effect_total (row ∷ rows) h =
      let (b, e) = any_in_effect_total rows (λ r i. h r (inr i)) in
      let (c, k) = is_some-eq (active row) (h row (inl refl)) in
      (if c && applies row then true else b, ground arith)

  any_in_effect_complete :
      (rows : List Schedule)
      → Answers rows
      → HasActive rows
      → any_in_effect active applies rows ≡ some true
  unfolding any_in_effect
  any_in_effect_complete [] h (r, i, x, y) = absurd i
  any_in_effect_complete (row ∷ rows) h (r, inl i, x, y) =
      let x' = subst (λ z. active z ≡ some true) i x in
      let y' = subst (λ z. applies z ≡ true) i y in ground arith
  any_in_effect_complete (row ∷ rows) h (r, inr i, x, y) =
      let (c, k) = is_some-eq (active row) (h row (inl refl)) in
      ground (arith, any_in_effect_complete rows (λ r i. h r (inr i)) (r, i, x, y))

  kept :
      (r row : Schedule) (a : Bool) (rest out : List Schedule)
      → some (if a then r ∷ rest else rest) ≡ some out
      → In row out
      → ((row ≡ r) × (a ≡ true)) ⊎ In row rest
  kept r row true rest out h m = elim (subst (λ z. In row z) (sym (some_inj h)) m) [
    | inl e ↦ inl (e, refl)
    | inr i ↦ inr i
  ]
  kept r row false rest out h m = inr (subst (λ z. In row z) (sym (some_inj h)) m)

  in_effect_sound :
      (rows out : List Schedule) (row : Schedule)
      → in_effect applies active rows ≡ some out
      → In row out
      → In row rows × (applies row ≡ true) × (active row ≡ some true)
  unfolding in_effect
  in_effect_sound [] out row h m = absurd (subst (λ z. In row z) (sym (some_inj h)) m)
  in_effect_sound (r ∷ rows) out row h m = elim (Bool-cases (applies r)) [
    | inl t ↦
        let (a, e, k) = >>=-eq-some (active r) _ (rw t at h) in
        let (rest, e', k') = >>=-eq-some (in_effect applies active rows) _ k in
        elim (kept r row a rest out k' m) [
          | inl (q, b) ↦ (
            inl q,
            subst (λ z. applies z ≡ true) (sym q) t,
            subst (λ z. active z ≡ some true) (sym q) (rw b at e),
          )
          | inr i ↦ let (i', x, y) = in_effect_sound rows rest row e' i in (inr i', x, y)
        ]
    | inr f ↦ let (i, x, y) = in_effect_sound rows out row (rw f at h) m in (inr i, x, y)
  ]

module _ (π : Platform) (db : Database) (now : ℕ) where
  -- No schedule of the table has a text that `int` refuses, or an unknown zone.
  abbrev pub Parses : Type 0
  Parses = (s : Schedule) → In s db.schedules → is_some (schedule_is_active π s now) ≡ true

  for_target_total :
      (s : Schedule) (user_id group_id device_id : Option ℕ)
      → is_some (schedule_is_active π s now) ≡ true
      → is_some (schedule_is_active_for_target db now π s user_id group_id device_id) ≡ true
  unfolding schedule_is_active_for_target
  for_target_total s user_id group_id device_id h = ground arith

  pub for_device_total :
      (s : Schedule) (device : DeviceRow)
      → is_some (schedule_is_active π s now) ≡ true
      → is_some (schedule_is_active_for_device db now π s device) ≡ true
  unfolding schedule_is_active_for_device
  for_device_total s device h = for_target_total s device.user_id device.group_id device.id h

  -- Where every schedule parses, a device is in a full lockout exactly when some `lockout_all`
  -- schedule of the table targets it and, overrides considered, is active for it; and the check
  -- always gives an answer.
  pub is_full_lockout_active_iff :
      Parses
      → (device : DeviceRow)
      → ((b : Bool) × (is_full_lockout_active π db now device ≡ some b))
        × ((is_full_lockout_active π db now device ≡ some true) ↔ (
            (row : Schedule) × In row db.schedules
            × (row.lockout_all ≡ true)
            × (schedule_is_active_for_device db now π row device ≡ some true)
            × (schedule_applies_to_device db device row ≡ true)))
  unfolding is_full_lockout_active
  is_full_lockout_active_iff parses device =
      let active = λ (row : Schedule). schedule_is_active_for_device db now π row device in
      let applies = λ (row : Schedule). schedule_applies_to_device db device row in
      let rows = filter (λ (s : Schedule). s.lockout_all) db.schedules in
      let answers : Answers active applies rows = λ r i.
        for_device_total r device
          (parses r (filter-In (λ (s : Schedule). s.lockout_all) r db.schedules i).0) in
      (
        any_in_effect_total active applies rows answers,
        (
          λ h.
              let (r, i, x, y) = any_in_effect_sound active applies rows h in
              let (i', l) = filter-In (λ (s : Schedule). s.lockout_all) r db.schedules i in
              (r, i', l, x, y),
          λ (r, i, l, x, y).
              any_in_effect_complete active applies rows answers
                (r, In-filter (λ (s : Schedule). s.lockout_all) r db.schedules i l, x, y),
        ),
      )

  module _ (user_id group_id device_id : Option ℕ) (o : ScheduleOverride)
      (shifted : active_override_for_target db now user_id group_id device_id ≡ some o) where
    overridden :
        (row : Schedule)
        → (row.is_mode || row.lockout_all) ≡ true
        → schedule_is_active_for_target db now π row user_id group_id device_id ≡ some true
        → row.id ≡ o.schedule_id
    unfolding schedule_is_active_for_target
    overridden row e h = ground arith

    standing :
        (row : Schedule)
        → (row.is_mode || row.lockout_all) ≡ false
        → schedule_is_active_for_target db now π row user_id group_id device_id ≡ some true
        → schedule_is_active π row now ≡ some true
    unfolding schedule_is_active_for_target
    standing row e h = ground arith

    -- While a target is shifted, every schedule in effect for it is in the table and targets it;
    -- it is the one that the override names if it is a mode or a full lockout, and is active by
    -- the clock if it is neither.
    pub active_schedules_for_target_shifted :
        (out : List Schedule) (row : Schedule)
        → active_schedules_for_target π db now user_id group_id device_id ≡ some out
        → In row out
        → In row db.schedules
          × (schedule_applies_to_target db row user_id group_id device_id ≡ true)
          × ((row.is_mode || row.lockout_all) ≡ true → row.id ≡ o.schedule_id)
          × ((row.is_mode || row.lockout_all) ≡ false → schedule_is_active π row now ≡ some true)
    unfolding active_schedules_for_target
    active_schedules_for_target_shifted out row h m =
        let (i, x, y) =
          in_effect_sound
            (λ row. schedule_is_active_for_target db now π row user_id group_id device_id)
            (λ row. schedule_applies_to_target db row user_id group_id device_id)
            (sort_by severest_first db.schedules) out row h m in
        (
          sort_by-In severest_first row db.schedules i,
          x,
          λ e. overridden row e y,
          λ e. standing row e y,
        )
