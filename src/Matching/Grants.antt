-- ===== src/Matching/Grants.antt =====
-- common/matching.py: who a domain, an allowlist entry, a category or a schedule applies to. Each
-- check goes through "everyone", the device's user, its group, and the device itself.
use opti_gate.Base.{ℕ, String, Option, none, some, Bool, true, false, if◌then◌else◌}
use opti_gate.Tables.{Database, DeviceRow, Domain, AllowlistEntry, Category, Schedule}
use opti_gate.Tables.{has_pair, has_pair_null}

-- `x is not None and test(x)`
abbrev pub given : Option ℕ → (ℕ → Bool) → Bool
given none test = false
given (some x) test = test x

module _ (db : Database) where
  unfoldable pub user_has_domain : ℕ → ℕ → Bool
  user_has_domain user_id domain_id = has_pair db.user_domains user_id domain_id

  unfoldable pub group_has_domain : ℕ → ℕ → Bool
  group_has_domain group_id domain_id = has_pair db.group_domains group_id domain_id

  -- The device's id is NULL for a binding whose device is gone, and then no row matches.
  unfoldable pub device_has_domain : Option ℕ → ℕ → Bool
  device_has_domain device_id domain_id =
      given device_id (λ d. has_pair db.device_domains d domain_id)

  -- The reason that authorizes `device` for `domain`, or none.
  unfoldable pub device_domain_reason : DeviceRow → Domain → Option String
  unfolding user_has_domain group_has_domain device_has_domain
  device_domain_reason device domain =
      if domain.is_global
      then some "global_domain"
      else if given device.user_id (λ u. user_has_domain u domain.id)
      then some "user_domain"
      else if given device.group_id (λ g. group_has_domain g domain.id)
      then some "group_domain"
      else if device_has_domain device.id domain.id
      then some "device_domain"
      else none

  unfoldable pub user_has_allowlist_entry : ℕ → ℕ → Bool
  user_has_allowlist_entry user_id allowlist_id =
      has_pair db.user_adguard_allowlist user_id allowlist_id

  unfoldable pub group_has_allowlist_entry : ℕ → ℕ → Bool
  group_has_allowlist_entry group_id allowlist_id =
      has_pair db.group_adguard_allowlist group_id allowlist_id

  unfoldable pub device_has_allowlist_entry : Option ℕ → ℕ → Bool
  device_has_allowlist_entry device_id allowlist_id =
      given device_id (λ d. has_pair db.device_adguard_allowlist d allowlist_id)

  unfoldable pub device_allowlist_reason : DeviceRow → AllowlistEntry → Option String
  unfolding user_has_allowlist_entry group_has_allowlist_entry device_has_allowlist_entry
  device_allowlist_reason device entry =
      if entry.is_global
      then some "global_allowlist"
      else if given device.user_id (λ u. user_has_allowlist_entry u entry.id)
      then some "user_allowlist"
      else if given device.group_id (λ g. group_has_allowlist_entry g entry.id)
      then some "group_allowlist"
      else if device_has_allowlist_entry device.id entry.id
      then some "device_allowlist"
      else none

  -- Whether `category` is blocked for `device`.
  unfoldable pub category_applies_to_device : DeviceRow → Category → Bool
  category_applies_to_device device category =
      if category.is_global
      then true
      else if given device.user_id (λ u. has_pair db.category_users category.id u)
      then true
      else if given device.group_id (λ g. has_pair db.category_groups category.id g)
      then true
      else has_pair_null db.category_devices category.id device.id

  -- Whether `schedule` targets the user, group or device. It says nothing of when.
  unfoldable pub schedule_applies_to_target :
      Schedule → (user_id group_id device_id : Option ℕ) → Bool
  schedule_applies_to_target schedule user_id group_id device_id =
      if schedule.is_global
      then true
      else if given user_id (λ u. has_pair db.schedule_users schedule.id u)
      then true
      else if given group_id (λ g. has_pair db.schedule_groups schedule.id g)
      then true
      else given device_id (λ d. has_pair db.schedule_devices schedule.id d)

  unfoldable pub schedule_applies_to_device : DeviceRow → Schedule → Bool
  unfolding schedule_applies_to_target
  schedule_applies_to_device device schedule =
      schedule_applies_to_target schedule device.user_id device.group_id device.id
