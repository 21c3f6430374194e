-- ===== src/Schedule/Chosen.antt =====
-- common/schedule_eval.py, lines 79 to 143: which override is a target's.
use opti_gate.Base.{ℕ, ◌≤◌, ◌<◌, Option, some, none, true, ◌&&◌, ◌==◌}
use opti_gate.Base.{List, In, inl, inr, ◌⊎◌, ◌≡◌, refl, sym, ap, ◌∙◌, ltb}
use opti_gate.Base.{Option-cases, arith}
use opti_gate.Base.{nat_eq, IsOrder, first_where-some, first_where-none, false-true}
use opti_gate.Base.{none-some}
use opti_gate.Tables.{Database, ScheduleOverride, sql_eq}
use opti_gate.Schedule.Overrides.{newer, newest_override, or_next, given_id}
use opti_gate.Schedule.Overrides.{active_override_for_target}

newer-IsOrder : IsOrder newer
newer-IsOrder = record { total = λ a b h. ground arith; trans = λ a b c h k. ground arith }

module _ (rows : List ScheduleOverride) (now : ℕ) (axis : ScheduleOverride → Option ℕ) where
  -- The override is stored for the target on the axis, and has not expired.
  abbrev pub Stands : ℕ → ScheduleOverride → Type 0
  Stands i o = In o rows × (axis o ≡ some i) × (now < o.expires_at)

  -- The target has no override on the axis.
  abbrev pub HasNone : Option ℕ → Type 0
  HasNone target = (i : ℕ) (o : ScheduleOverride) → target ≡ some i → Stands i o → ⊥

  -- The override is the target's on the axis, and none of the target's was made later.
  abbrev pub IsNewest : Option ℕ → ScheduleOverride → Type 0
  IsNewest target o =
      (i : ℕ) × (target ≡ some i)
      × Stands i o
      × ((p : ScheduleOverride) → Stands i p → p.created_at ≤ o.created_at)

  stands_test :
      (i : ℕ) (o : ScheduleOverride)
      → axis o ≡ some i
      → now < o.expires_at
      → (sql_eq (axis o) i && ltb now o.expires_at) ≡ true
  stands_test i o e l = rw e (ground arith)

  test_stands :
      (i : ℕ) (o : ScheduleOverride)
      → (sql_eq (axis o) i && ltb now o.expires_at) ≡ true
      → (axis o ≡ some i) × (now < o.expires_at)
  test_stands i o h = elim (Option-cases (axis o)) [
    | inl n ↦ absurd (false-true (rw n at h))
    | inr (x, e) ↦
        let k : ((x == i) && ltb now o.expires_at) ≡ true = rw e at h in
        let same : x ≡ i = ground arith in (e ∙ ap some same, ground arith)
  ]

  newest_override-some :
      (target : Option ℕ) (o : ScheduleOverride)
      → given_id target (λ i. newest_override axis rows i now) ≡ some o
      → IsNewest target o
  unfolding newest_override
  newest_override-some none o h = absurd (none-some h)
  newest_override-some (some i) o h =
      let test = λ (o : ScheduleOverride). sql_eq (axis o) i && ltb now o.expires_at in
      let (m, t, f) = first_where-some newer newer-IsOrder test o rows h in
      let (e, l) = test_stands i o t in
      (i, refl, (m, e, l), λ p (n, e', l'). let k = f p n (stands_test i p e' l') in ground arith)

  newest_override-none :
      (target : Option ℕ)
      → given_id target (λ i. newest_override axis rows i now) ≡ none
      → HasNone target
  unfolding newest_override
  newest_override-none none h i o e s = absurd (none-some e)
  newest_override-none (some j) h i o e (m, a, l) =
      let test = λ (o : ScheduleOverride). sql_eq (axis o) j && ltb now o.expires_at in
      false-true
        (sym (first_where-none newer newer-IsOrder test o rows h m) ∙ stands_test j o (a ∙ sym e) l)

or_next-some :
    (a b : Option ScheduleOverride) (o : ScheduleOverride)
    → or_next a b ≡ some o
    → (a ≡ some o) ⊎ ((a ≡ none) × (b ≡ some o))
or_next-some none b o h = inr (refl, h)
or_next-some (some a) b o h = inl h

or_next-none : (a b : Option ScheduleOverride) → or_next a b ≡ none → (a ≡ none) × (b ≡ none)
or_next-none none b h = (refl, h)
or_next-none (some a) b h = absurd (none-some (sym h))

module _ (db : Database) (now : ℕ) (user_id group_id device_id : Option ℕ) where
  abbrev pub HasNoneOn : (ScheduleOverride → Option ℕ) → Option ℕ → Type 0
  HasNoneOn = HasNone db.schedule_overrides now

  abbrev pub IsNewestOn : (ScheduleOverride → Option ℕ) → Option ℕ → ScheduleOverride → Type 0
  IsNewestOn = IsNewest db.schedule_overrides now

  -- The override of the target: the newest of the device's, without one the newest of the user's,
  -- and without one the newest of the group's.
  pub data IsChosen (o : ScheduleOverride) : Type 0 where
    of_device : IsNewestOn (λ o. o.device_id) device_id o → IsChosen o
    of_user :
        HasNoneOn (λ o. o.device_id) device_id → IsNewestOn (λ o. o.user_id) user_id o → IsChosen o
    of_group :
        HasNoneOn (λ o. o.device_id) device_id
        → HasNoneOn (λ o. o.user_id) user_id
        → IsNewestOn (λ o. o.group_id) group_id o
        → IsChosen o

  abbrev pub HasNoOverride : Type 0
  HasNoOverride =
      HasNoneOn (λ o. o.device_id) device_id
      × HasNoneOn (λ o. o.user_id) user_id
      × HasNoneOn (λ o. o.group_id) group_id

  pub active_override_for_target-IsChosen :
      (o : ScheduleOverride)
      → active_override_for_target db now user_id group_id device_id ≡ some o
      → IsChosen o
  unfolding active_override_for_target
  active_override_for_target-IsChosen o h =
      let rows = db.schedule_overrides in
      elim (or_next-some _ _ o h) [
        | inl d ↦ of_device (newest_override-some rows now (λ o. o.device_id) device_id o d)
        | inr (n, k) ↦
            let n' = newest_override-none rows now (λ o. o.device_id) device_id n in
            elim (or_next-some _ _ o k) [
              | inl u ↦ of_user n' (newest_override-some rows now (λ o. o.user_id) user_id o u)
              | inr (m, g) ↦
                  of_group n' (newest_override-none rows now (λ o. o.user_id) user_id m)
                    (newest_override-some rows now (λ o. o.group_id) group_id o g)
            ]
      ]

  pub active_override_for_target-HasNoOverride :
      active_override_for_target db now user_id group_id device_id ≡ none → HasNoOverride
  unfolding active_override_for_target
  active_override_for_target-HasNoOverride h =
      let rows = db.schedule_overrides in
      let (d, k) = or_next-none _ _ h in
      let (u, g) = or_next-none _ _ k in
      (
        newest_override-none rows now (λ o. o.device_id) device_id d,
        newest_override-none rows now (λ o. o.user_id) user_id u,
        newest_override-none rows now (λ o. o.group_id) group_id g,
      )
