-- ===== src/Matching/Axes.antt =====
-- The four checks of Matching/Grants decide one relation: a rule reaches a device for everyone, or
-- through a link to its user, its group or the device itself.
use opti_gate.Base.{ℕ, Option, none, some, Bool, true, List, ◌≡◌, refl}
use opti_gate.Base.{◌↔◌, inl, inr, In, subst, any-In, any-find, sym, ◌∙◌, arith}
use opti_gate.Base.{is_some, Bool-cases, if◌then◌else◌, nat_eq, ◌==◌, ◌&&◌}
use opti_gate.Tables.{Database, DeviceRow, Domain, AllowlistEntry, Category, Schedule}
use opti_gate.Tables.{has_pair, has_pair_null}
use opti_gate.Matching.Grants.{given, device_domain_reason, device_allowlist_reason}
use opti_gate.Matching.Grants.{category_applies_to_device, schedule_applies_to_device}

module _ (is_global : Bool) (user group device : ℕ → Type 0) (user_id group_id id : Option ℕ) where
  -- The rule is for everyone, or a junction table links it on one axis.
  pub data Applies : Type 0 where
    everyone : is_global ≡ true → Applies
    by_user : (u : ℕ) → user_id ≡ some u → user u → Applies
    by_group : (g : ℕ) → group_id ≡ some g → group g → Applies
    by_device : (d : ℕ) → id ≡ some d → device d → Applies

pair_of_tests : (r : ℕ × ℕ) (a b : ℕ) → (r.0 == a && r.1 == b) ≡ true → r ≡ (a, b)
pair_of_tests (x, y) a b h = ground arith

pub has_pair_iff : (rows : List (ℕ × ℕ)) (a b : ℕ) → (has_pair rows a b ≡ true) ↔ In (a, b) rows
unfolding has_pair
has_pair_iff rows a b = (
  λ h.
      let r = any-find (λ (r : ℕ × ℕ). r.0 == a && r.1 == b) rows h in
      subst (λ q. In q rows) (pair_of_tests r.0 a b r.2) r.1,
  λ m. any-In (λ (r : ℕ × ℕ). r.0 == a && r.1 == b) (a, b) rows m (ground arith),
)

given-some :
    (o : Option ℕ) (test : ℕ → Bool)
    → given o test ≡ true
    → (x : ℕ) × (o ≡ some x) × (test x ≡ true)
given-some none test h = cc
given-some (some x) test h = (x, refl, h)

-- A test of a junction table, and what it finds there.
record Axis : Type 1 where
  test : ℕ → Bool
  Links : ℕ → Type 0
  test_iff : (x : ℕ) → (test x ≡ true) ↔ Links x

-- The junction table names the owner first.
abbrev owner_first : List (ℕ × ℕ) → ℕ → Axis
owner_first rows target = record {
  test = λ x. has_pair rows x target;
  Links = λ x. In (x, target) rows;
  test_iff = λ x. has_pair_iff rows x target;
}

-- The junction table names the rule first.
abbrev rule_first : List (ℕ × ℕ) → ℕ → Axis
rule_first rows target = record {
  test = λ x. has_pair rows target x;
  Links = λ x. In (target, x) rows;
  test_iff = λ x. has_pair_iff rows target x;
}

module _ (is_global : Bool) (u g d : Axis) (user_id group_id id : Option ℕ) where
  abbrev IsReached : Type 0
  IsReached = Applies is_global u.Links g.Links d.Links user_id group_id id

  -- The tests in the order in which the code makes them.
  abbrev first_of_axes : Bool
  first_of_axes =
      if is_global
      then true
      else if given user_id u.test
      then true
      else if given group_id g.test
      then true
      else given id d.test

  first_of_axes-IsReached : first_of_axes ≡ true → IsReached
  first_of_axes-IsReached h = elim (Bool-cases is_global) [
    | inl e ↦ everyone e
    | inr e ↦ elim (Bool-cases (given user_id u.test)) [
      | inl f ↦ let r = given-some user_id u.test f in by_user r.0 r.1 ((u.test_iff r.0).0 r.2)
      | inr f ↦ elim (Bool-cases (given group_id g.test)) [
        | inl k ↦ let r = given-some group_id g.test k in by_group r.0 r.1 ((g.test_iff r.0).0 r.2)
        | inr k ↦
            let r = given-some id d.test (rw (e, f, k) at h) in
            by_device r.0 r.1 ((d.test_iff r.0).0 r.2)
      ]
    ]
  ]

  IsReached-first_of_axes : IsReached → first_of_axes ≡ true
  IsReached-first_of_axes (everyone e) = rw e
  IsReached-first_of_axes (by_user x e l) = ground (arith, (u.test_iff x).1 l)
  IsReached-first_of_axes (by_group x e l) = ground (arith, (g.test_iff x).1 l)
  IsReached-first_of_axes (by_device x e l) = ground (arith, (d.test_iff x).1 l)

  reached_iff : (b : Bool) → b ≡ first_of_axes → (b ≡ true) ↔ IsReached
  reached_iff b e = (λ h. first_of_axes-IsReached (sym e ∙ h), λ h. e ∙ IsReached-first_of_axes h)

module _ (db : Database) (device : DeviceRow) where
  -- A device is authorized for a domain exactly when the domain is global, or `user_domains`,
  -- `group_domains` or `device_domains` links it to the device's user, its group or the device.
  pub device_domain_reason_iff :
      (domain : Domain)
      → (is_some (device_domain_reason db device domain) ≡ true)
        ↔ Applies domain.is_global
            (λ u. In (u, domain.id) db.user_domains)
            (λ g. In (g, domain.id) db.group_domains)
            (λ d. In (d, domain.id) db.device_domains)
            device.user_id
            device.group_id
            device.id
  unfolding device_domain_reason
  device_domain_reason_iff domain =
      reached_iff domain.is_global (owner_first db.user_domains domain.id)
        (owner_first db.group_domains domain.id) (owner_first db.device_domains domain.id)
        device.user_id device.group_id device.id _ (ground arith)

  -- The same of an allowlist entry and its three junction tables.
  pub device_allowlist_reason_iff :
      (entry : AllowlistEntry)
      → (is_some (device_allowlist_reason db device entry) ≡ true)
        ↔ Applies entry.is_global
            (λ u. In (u, entry.id) db.user_adguard_allowlist)
            (λ g. In (g, entry.id) db.group_adguard_allowlist)
            (λ d. In (d, entry.id) db.device_adguard_allowlist)
            device.user_id
            device.group_id
            device.id
  unfolding device_allowlist_reason
  device_allowlist_reason_iff entry =
      reached_iff entry.is_global (owner_first db.user_adguard_allowlist entry.id)
        (owner_first db.group_adguard_allowlist entry.id)
        (owner_first db.device_adguard_allowlist entry.id) device.user_id device.group_id device.id
        _ (ground arith)

  -- A category is blocked for a device exactly when it is global, or `category_users`,
  -- `category_groups` or `category_devices` links it to the device's user, group or the device.
  pub category_applies_to_device_iff :
      (category : Category)
      → (category_applies_to_device db device category ≡ true)
        ↔ Applies category.is_global
            (λ u. In (category.id, u) db.category_users)
            (λ g. In (category.id, g) db.category_groups)
            (λ d. In (category.id, d) db.category_devices)
            device.user_id
            device.group_id
            device.id
  unfolding category_applies_to_device has_pair_null
  category_applies_to_device_iff category =
      reached_iff category.is_global (rule_first db.category_users category.id)
        (rule_first db.category_groups category.id) (rule_first db.category_devices category.id)
        device.user_id device.group_id device.id _ (ground arith)

  -- A schedule targets a device exactly when it is global, or `schedule_users`, `schedule_groups`
  -- or `schedule_devices` links it to the device's user, its group or the device.
  pub schedule_applies_to_device_iff :
      (schedule : Schedule)
      → (schedule_applies_to_device db device schedule ≡ true)
        ↔ Applies schedule.is_global
            (λ u. In (schedule.id, u) db.schedule_users)
            (λ g. In (schedule.id, g) db.schedule_groups)
            (λ d. In (schedule.id, d) db.schedule_devices)
            device.user_id
            device.group_id
            device.id
  unfolding schedule_applies_to_device
  schedule_applies_to_device_iff schedule =
      reached_iff schedule.is_global (rule_first db.schedule_users schedule.id)
        (rule_first db.schedule_groups schedule.id) (rule_first db.schedule_devices schedule.id)
        device.user_id device.group_id device.id _ (ground arith)
