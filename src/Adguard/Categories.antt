-- ===== src/Adguard/Categories.antt =====
-- controller/adguard_sync.py, lines 634 to 811: the rules of the categories that are small enough for
-- custom rules, and the allow rules.
-- `eligible_devices` is always given, and `now` is the instant at which it is computed. none is an
-- exception, which a schedule's text may raise.
use opti_gate.Base.{ℕ, String, List, [], ◌∷◌, ◌++◌, Option, none, some, Bool, true, not}
use opti_gate.Base.{
  if◌then◌else◌, ◌&&◌, ◌||◌, ◌==◌, nat_eq, string_eq, filter, map, sort_by, leb, ltb,
}
use opti_gate.Base.{is_some, ◌>>=◌, length, contains, erase}
use opti_gate.Tables.{
  Database, Category, CategoryDomain, AllowlistEntry, PolicyRow, Schedule, has_pair,
}
use opti_gate.Platform.{Platform}
use opti_gate.Matching.Grants.{category_applies_to_device, schedule_applies_to_device}
use opti_gate.Matching.Grants.{device_allowlist_reason}
use opti_gate.Schedule.Overrides.{schedule_is_active_for_device}
use opti_gate.Schedule.Lockout.{any_in_effect}
use opti_gate.Adguard.Rule.{domain_rule, domain_rule_unscoped, domain_allow_rule}
use opti_gate.Adguard.Scoped.{scoped_rules}

-- `MAX_SCOPED_CATEGORY_DOMAINS` of common/matching.py.
abbrev pub max_scoped_category_domains : ℕ
max_scoped_category_domains = 5000

module _ (db : Database) where
  -- SELECT pattern FROM category_domains WHERE category_id = ?
  unfoldable pub category_patterns : ℕ → List String
  category_patterns category_id =
      map (λ (d : CategoryDomain). d.pattern)
        (filter (λ (d : CategoryDomain). d.category_id == category_id) db.category_domains)

  -- The overrides of the category, without backslashes.
  unfoldable pub overrides : ℕ → List String
  overrides category_id =
      map (λ (o : ℕ × String). erase b'\\' o.1)
        (filter (λ (o : ℕ × String). o.0 == category_id) db.category_overrides)

  unfoldable pub category_domain_patterns : ℕ → List String
  category_domain_patterns category_id =
      filter (λ pattern. not (contains (overrides category_id) (erase b'\\' pattern)))
        (category_patterns category_id)

  -- FROM schedule_categories sc JOIN schedules s … WHERE sc.category_id = ? AND s.lockout_all = 0
  unfoldable pub gating_schedules : ℕ → List Schedule
  gating_schedules category_id =
      filter
        (λ (s : Schedule). has_pair db.schedule_categories s.id category_id && not s.lockout_all)
        db.schedules

  unfoldable pub is_scoped : Category → Bool
  is_scoped category =
      let domain_count = length (category_patterns category.id) in
      not (domain_count == 0 || ltb max_scoped_category_domains domain_count)

  module _ (π : Platform) (now : ℕ) where
    -- The category itself applies, or a gating schedule that is active for the device does.
    unfoldable pub category_blocks : Category → PolicyRow → Option Bool
    category_blocks category row =
        if category_applies_to_device db row.device category
        then some true
        else any_in_effect (λ s. schedule_is_active_for_device db now π s row.device)
            (λ s. schedule_applies_to_device db row.device s) (gating_schedules category.id)

    -- `applicable_ips`
    unfoldable pub applicable : Category → List PolicyRow → Option (List String)
    applicable category [] = some []
    applicable category (row ∷ rows) =
        let rest = applicable category rows in
        do
          applies ← category_blocks category row
          ips ← rest
          some (if applies then row.ipv4_address ∷ ips else ips)

    -- The rules of one category for its applicable addresses.
    unfoldable pub category_rules :
        Option String → (eligible : ℕ) → List String → List String → List String
    category_rules block_page_ip eligible [] patterns = []
    category_rules block_page_ip eligible (ip ∷ ips) patterns =
        if length (ip ∷ ips) == eligible
        then map (λ pattern. domain_rule_unscoped pattern block_page_ip) patterns
        else map (λ pattern. domain_rule pattern (ip ∷ ips) block_page_ip) patterns

    -- A category without a pattern left is passed over before any schedule is evaluated.
    unfoldable pub rules_of_category :
        Option String → List PolicyRow → Category → List String → Option (List String)
    rules_of_category block_page_ip devices category [] = some []
    rules_of_category block_page_ip devices category (pattern ∷ patterns) = do
      ips ← applicable category devices
      some (category_rules block_page_ip (length devices) ips (pattern ∷ patterns))

    unfoldable pub category_loop :
        Option String → List PolicyRow → List Category → Option (List String)
    category_loop block_page_ip devices [] = some []
    category_loop block_page_ip devices (category ∷ categories) =
        let rest = category_loop block_page_ip devices categories in
        if is_scoped category
        then (do
          rules ←
              rules_of_category block_page_ip devices category
                (category_domain_patterns category.id)
          others ← rest
          some (rules ++ others))
        else rest

    unfoldable pub build_category_deny_rules : Option String → List PolicyRow → Option (List String)
    build_category_deny_rules block_page_ip [] = some []
    build_category_deny_rules block_page_ip (row ∷ rows) =
        category_loop block_page_ip (row ∷ rows) db.categories

  -- The rule of one entry, unscoped where it is for every eligible device.
  unfoldable pub allow_rule : (eligible : ℕ) → AllowlistEntry → List String → String
  allow_rule eligible entry ips =
      if length ips == eligible
      then domain_allow_rule entry.pattern none
      else domain_allow_rule entry.pattern (some ips)

  unfoldable pub is_allowed : AllowlistEntry → PolicyRow → Bool
  is_allowed entry row = is_some (device_allowlist_reason db row.device entry)

  unfoldable pub allow_rules : List PolicyRow → List AllowlistEntry → List String
  allow_rules devices = scoped_rules (allow_rule (length devices)) is_allowed devices

  unfoldable pub build_adguard_allow_rules : List PolicyRow → List String
  build_adguard_allow_rules [] = []
  build_adguard_allow_rules (row ∷ rows) =
      allow_rules (row ∷ rows)
        (sort_by (λ (a b : AllowlistEntry). leb a.id b.id) db.adguard_allowlist)
