-- ===== src/Examples/Dns.antt =====
-- The DNS rules of a household with a domain in mode bump that the child may not use, one that it
-- may, and a blocked category.
use opti_gate.Base.{
  String, List, [], ◌∷◌, ◌++◌, Option, none, some, Bool, true, false, ◌≡◌, refl, sym, ap,
}
use opti_gate.Base.{
  subst, inl, inr, In, all-in, IsFree, from_option, some_inj, filter, update_where, not, ◌==◌, ◌≤◌,
}
use opti_gate.Base.{string_eq, ℕ, length, arith, ◌↔◌, NoDup, map}
use opti_gate.Tables.{Database, Domain, Mode, Kind, Category, CategoryDomain, CategorySource}
use opti_gate.Tables.{AllowlistEntry, PolicyRow, row_of}
use opti_gate.Examples.Household.{platform, home, laptop, homework}
use opti_gate.Settings.{optigate_hostname}
use opti_gate.Adguard.Rule.{RuleParts, split_rule, rebuild_rule, domain_rule, domain_rule_unscoped}
use opti_gate.Adguard.RoundTrip.{split_rule-rebuild_rule}
use opti_gate.Adguard.Merge.{merge_duplicate_domain_rules}
use opti_gate.Adguard.Merging.{IsPlain}
use opti_gate.Adguard.Groups.{HasRule}
use opti_gate.Adguard.Merged.{merge_duplicate_domain_rules-HasRule, rule_key}
use opti_gate.Adguard.Devices.{fetch_eligible_devices}
use opti_gate.Adguard.Deny.{build_rules, build_ech_strip_rules, build_splice_deny_rules}
use opti_gate.Adguard.Denied.{deny_key, strip_key, HasPlainPatterns, HasPlainAddresses}
use opti_gate.Adguard.Denied.{build_rules-HasRule, build_ech_strip_rules-HasRule}
use opti_gate.Adguard.Categories.{build_category_deny_rules, build_adguard_allow_rules}
use opti_gate.Adguard.Allowed.{allow_key, build_adguard_allow_rules-HasRule}
use opti_gate.Adguard.Gated.{always, build_category_deny_rules-HasRule}
use opti_gate.Matching.Axes.{by_user}
use opti_gate.Adguard.Managed.{managed_rules}
use opti_gate.Adguard.Safety.{managed_rules-denies}
use opti_gate.Adguard.Baseline.{managed_rules-baseline}
use opti_gate.Adguard.Client.{AdguardClient, AdguardHome, IsDocumented, FilterList, is_rewrite}
use opti_gate.Adguard.Block.{marker_begin, marker_end, strip_managed_block}
use opti_gate.Adguard.Strip.{IsOutside, IsAbsent, block}
use opti_gate.Adguard.Sync.{sync_once}
use opti_gate.Adguard.Cycle.{sync_once-rules}
use opti_gate.Adguard.Rewrites.{sync_optigate_rewrite}
use opti_gate.Adguard.Named.{sync_optigate_rewrite-rewrites}

abbrev video : Domain
video = record {
  id = 2;
  pattern = "video";
  mode = Mode.bump;
  kind = Kind.generic;
  is_global = false;
}

abbrev course : Domain
course = record {
  id = 3;
  pattern = "course";
  mode = Mode.bump;
  kind = Kind.generic;
  is_global = false;
}

abbrev games : Category
games = record { id = 1; name = "games"; subscription_url = none; is_global = false }

abbrev chess : AllowlistEntry
chess = record { id = 1; pattern = "chess"; is_global = true }

abbrev filtered : Database
filtered = record home {
  domains = homework ∷ video ∷ course ∷ [];
  user_domains = (1, 1) ∷ (1, 3) ∷ [];
  categories = games ∷ [];
  category_domains =
      record { category_id = 1; pattern = "play"; source = CategorySource.manual } ∷ [];
  category_users = (1, 1) ∷ [];
  adguard_allowlist = chess ∷ [];
}

abbrev devices : List PolicyRow
devices = record { device = row_of laptop; group_ignored = false; ipv4_address = "10.0.0.10" } ∷ []

devices_are : fetch_eligible_devices filtered ≡ devices
unfolding fetch_eligible_devices opti_gate.Base.find? opti_gate.Base.str_leb
    opti_gate.Policy.Class.classify_device
devices_are = refl

abbrev patterns : HasPlainPatterns filtered
unfolding opti_gate.Base.has_char
patterns d m =
    all-in (λ (d : Domain). IsFree b'/' d.pattern) d filtered.domains (refl, (refl, (refl, tt))) m

abbrev addresses : HasPlainAddresses devices
unfolding opti_gate.Base.has_char
addresses row m =
    all-in (λ (row : PolicyRow). IsPlain row.ipv4_address) row devices ((refl, refl), tt) m

split_rule-rebuild_rule_example :
    split_rule
      (rebuild_rule (record { is_allow = true; body = "video"; client_ips = none; suffix = "" }))
    ≡ some (record { is_allow = true; body = "video"; client_ips = none; suffix = "" })
unfolding opti_gate.Base.has_char opti_gate.Base.drop_prefix
split_rule-rebuild_rule_example =
    split_rule-rebuild_rule
      (record { is_allow = true; body = "video"; client_ips = none; suffix = "" }) (refl, refl)

-- Two rules of one body for two devices.
abbrev twice : List String
twice =
    domain_rule "video" ("10.0.0.10" ∷ []) none ∷ domain_rule "video" ("10.0.0.11" ∷ []) none ∷ []

merge_duplicate_domain_rules-HasRule_example :
    NoDup (map rule_key (domain_rule "video" ("10.0.0.10" ∷ "10.0.0.11" ∷ []) none ∷ []))
unfolding opti_gate.Adguard.Merge.merge_duplicate_domain_rules opti_gate.Adguard.Merge.group_rules
    opti_gate.Adguard.Merge.add_to_group opti_gate.Adguard.Merge.merge_group
    opti_gate.Adguard.Merge.union_of opti_gate.Adguard.Merge.add_unseen
    opti_gate.Adguard.Rule.split_rule opti_gate.Adguard.Rule.split_parts
    opti_gate.Adguard.Rule.rebuild_rule opti_gate.Adguard.Rule.domain_rule
    opti_gate.Adguard.Rule.domain_rule_unscoped opti_gate.Adguard.Rule.domain_allow_rule
    opti_gate.Adguard.Rule.ech_strip_rule opti_gate.Adguard.Rule.rule_body
    opti_gate.Base.drop_prefix opti_gate.Base.cut opti_gate.Base.partition opti_gate.Base.split_on
    opti_gate.Base.push_head opti_gate.Base.join opti_gate.Base.contains
merge_duplicate_domain_rules-HasRule_example =
    (merge_duplicate_domain_rules-HasRule twice
      (domain_rule "video" ("10.0.0.10" ∷ "10.0.0.11" ∷ []) none ∷ []) refl).0

build_rules-HasRule_example :
    HasRule (build_rules filtered none devices) (deny_key "video" none) "10.0.0.10"
unfolding opti_gate.Matching.Grants.device_domain_reason row_of opti_gate.Tables.has_pair
    opti_gate.Base.any
build_rules-HasRule_example =
    (build_rules-HasRule filtered devices none patterns addresses (deny_key "video" none)
        "10.0.0.10").1
      (video, inr (inl refl), refl, refl, (_, inl refl, refl, inl refl))

build_ech_strip_rules-HasRule_example :
    HasRule (build_ech_strip_rules filtered devices) (strip_key "course") "10.0.0.10"
unfolding opti_gate.Matching.Grants.device_domain_reason row_of opti_gate.Tables.has_pair
    opti_gate.Base.any opti_gate.Policy.Class.bump_eligible opti_gate.Policy.Class.classify_device
build_ech_strip_rules-HasRule_example =
    (build_ech_strip_rules-HasRule filtered devices patterns addresses (strip_key "course")
        "10.0.0.10").1
      (course, inr (inr (inl refl)), refl, refl, (_, inl refl, refl, refl, refl))

-- The category "games" blocks its one pattern for the child's laptop.
build_category_deny_rules-HasRule_example :
    HasRule
      (from_option [] (build_category_deny_rules filtered platform 0 none devices))
      (deny_key "play" none)
      "10.0.0.10"
unfolding opti_gate.Base.has_char build_category_deny_rules
    opti_gate.Adguard.Categories.category_loop opti_gate.Adguard.Categories.is_scoped
    opti_gate.Adguard.Categories.category_patterns filter
    opti_gate.Adguard.Categories.rules_of_category
    opti_gate.Adguard.Categories.category_domain_patterns opti_gate.Base.contains
    opti_gate.Adguard.Categories.overrides opti_gate.Adguard.Categories.applicable
    opti_gate.Adguard.Categories.category_blocks
    opti_gate.Matching.Grants.category_applies_to_device row_of opti_gate.Tables.has_pair
    opti_gate.Base.any
build_category_deny_rules-HasRule_example =
    (build_category_deny_rules-HasRule filtered platform 0 devices none
        (from_option [] (build_category_deny_rules filtered platform 0 none devices))
        (λ d m.
          all-in (λ (d : CategoryDomain). IsFree b'/' d.pattern) d filtered.category_domains
            (refl, tt) m)
        addresses refl (deny_key "play" none) "10.0.0.10" (_, inl refl, refl)).1
      (
        games,
        inl refl,
        (
          (ground arith, ground arith),
          (_, (inl refl, refl, λ o m. absurd m), refl),
          (_, inl refl, always (by_user 1 refl (inl refl)), refl),
        ),
      )

build_adguard_allow_rules-HasRule_example :
    HasRule (build_adguard_allow_rules filtered devices) (allow_key "chess") "10.0.0.10"
unfolding opti_gate.Base.has_char opti_gate.Matching.Grants.device_allowlist_reason
build_adguard_allow_rules-HasRule_example =
    (build_adguard_allow_rules-HasRule filtered devices
        (λ d m.
          all-in (λ (d : AllowlistEntry). IsFree b'/' d.pattern) d filtered.adguard_allowlist
            (refl, tt) m)
        addresses (allow_key "chess") "10.0.0.10" (_, inl refl, refl)).1
      (chess, inl refl, refl, (_, inl refl, refl, refl))

abbrev managed : List String
managed = from_option [] (managed_rules platform filtered 0 none)

computed : managed_rules platform filtered 0 none ≡ some managed
unfolding managed_rules build_category_deny_rules fetch_eligible_devices opti_gate.Base.find?
    opti_gate.Base.str_leb opti_gate.Policy.Class.classify_device
    opti_gate.Adguard.Categories.category_loop opti_gate.Adguard.Categories.is_scoped
    opti_gate.Adguard.Categories.category_patterns opti_gate.Adguard.Categories.rules_of_category
    opti_gate.Adguard.Categories.category_domain_patterns opti_gate.Base.contains
    opti_gate.Adguard.Categories.overrides opti_gate.Adguard.Categories.applicable
    opti_gate.Adguard.Categories.category_blocks
    opti_gate.Matching.Grants.category_applies_to_device opti_gate.Tables.has_pair
    merge_duplicate_domain_rules build_rules opti_gate.Adguard.Deny.is_authorized
    opti_gate.Matching.Grants.device_domain_reason split_rule opti_gate.Base.drop_prefix domain_rule
    opti_gate.Base.cut opti_gate.Policy.Class.bump_eligible build_splice_deny_rules
    opti_gate.Adguard.Categories.category_rules domain_rule_unscoped
    opti_gate.Adguard.Block.build_anti_doh_rules build_ech_strip_rules
    opti_gate.Adguard.Deny.is_stripped opti_gate.Adguard.Rule.ech_strip_rule
    build_adguard_allow_rules opti_gate.Adguard.Categories.allow_rule
    opti_gate.Adguard.Categories.allow_rules opti_gate.Adguard.Categories.gating_schedules
    opti_gate.Adguard.Categories.is_allowed opti_gate.Adguard.Deny.build_domain_deny_rules
    opti_gate.Adguard.Deny.deny_rules opti_gate.Adguard.Deny.domains_in_mode
    opti_gate.Adguard.Deny.strip_rules opti_gate.Adguard.Devices.distinct
    opti_gate.Adguard.Devices.is_eligible opti_gate.Adguard.Merge.add_to_group
    opti_gate.Adguard.Merge.add_unseen opti_gate.Adguard.Merge.group_rules
    opti_gate.Adguard.Merge.merge_group opti_gate.Adguard.Merge.union_of
    opti_gate.Adguard.Rule.domain_allow_rule rebuild_rule opti_gate.Adguard.Rule.rule_body
    opti_gate.Adguard.Rule.split_parts opti_gate.Adguard.Scoped.addresses
    opti_gate.Adguard.Scoped.scoped_rules opti_gate.Base.any filter opti_gate.Base.first_where
    opti_gate.Base.insert opti_gate.Base.sort_by opti_gate.Base.erase opti_gate.Base.int_of
    opti_gate.Base.is_space opti_gate.Base.join opti_gate.Base.lower opti_gate.Base.lstrip
    opti_gate.Base.partition opti_gate.Base.push_head opti_gate.Base.rstrip_by
    opti_gate.Base.split_on opti_gate.Base.strip opti_gate.Matching.Grants.device_allowlist_reason
    opti_gate.Matching.Grants.device_has_allowlist_entry opti_gate.Matching.Grants.device_has_domain
    opti_gate.Matching.Grants.group_has_allowlist_entry opti_gate.Matching.Grants.group_has_domain
    opti_gate.Matching.Grants.schedule_applies_to_device
    opti_gate.Matching.Grants.schedule_applies_to_target
    opti_gate.Matching.Grants.user_has_allowlist_entry opti_gate.Matching.Grants.user_has_domain
    opti_gate.Policy.Sets.policy_row opti_gate.Policy.Sets.policy_rows
    opti_gate.Schedule.Clock.day_code opti_gate.Schedule.Clock.parse_hhmm
    opti_gate.Schedule.Clock.schedule_is_active opti_gate.Schedule.Clock.scheduled_days
    opti_gate.Schedule.Clock.window_is_active opti_gate.Schedule.Lockout.any_in_effect
    opti_gate.Schedule.Overrides.active_override_for_target
    opti_gate.Schedule.Overrides.newest_override
    opti_gate.Schedule.Overrides.schedule_is_active_for_device
    opti_gate.Schedule.Overrides.schedule_is_active_for_target opti_gate.Tables.device_by_id
    opti_gate.Tables.group_ignored_of opti_gate.Tables.join_device row_of
    opti_gate.Tables.row_of_join opti_gate.Tables.has_pair_null
computed = refl

managed_rules-denies_example : HasRule managed (deny_key "video" none) "10.0.0.10"
unfolding opti_gate.Matching.Grants.device_domain_reason row_of opti_gate.Tables.has_pair
    opti_gate.Base.any
managed_rules-denies_example =
    (managed_rules-denies platform filtered 0 none managed computed patterns
        (λ row m. addresses row (subst (In row) devices_are m))).1
      video _ (inr (inl refl)) (subst (In _) (sym devices_are) (inl refl)) (inl (refl, inl refl))

managed_rules-baseline_example : HasRule managed (deny_key "dns.google" none) "10.0.0.99"
managed_rules-baseline_example =
    (managed_rules-baseline platform filtered 0 none managed computed).0 "dns.google" "10.0.0.99"
      (inr (inr (inr (inl refl))))

-- A server that answers every request from what it holds.
abbrev memory : AdguardClient AdguardHome
memory = record {
  get_custom_rules = λ h. some h.user_rules;
  set_custom_rules = λ r h. (record h { user_rules = r }, some tt);
  get_filters_status = λ h. some h.filters;
  add_filter_url = λ name url h. (
    record h { filters = h.filters ++ (record { url = url; name = name; enabled = true } ∷ []) },
    some tt,
  );
  set_filter_url_enabled = λ url name enabled h. (
    record h {
      filters =
          update_where (λ (f : FilterList). f.url == url)
            (λ _. record { url = url; name = name; enabled = enabled }) h.filters;
    },
    some tt,
  );
  get_safesearch_status = λ h. some h.safesearch;
  set_safesearch_settings = λ c h. (record h { safesearch = c }, some tt);
  get_rewrites = λ h. some h.rewrites;
  add_rewrite = λ domain answer h. (
    record h { rewrites = h.rewrites ++ (record { domain = domain; answer = answer } ∷ []) },
    some tt,
  );
  delete_rewrite = λ domain answer h.
      (record h { rewrites = filter (λ r. not (is_rewrite domain answer r)) h.rewrites }, some tt);
}

holds :
    {A : Type 0} {s t : AdguardHome} {o p : Option A}
    → ◌≡◌ {A = AdguardHome × Option A} (s, o) (t, p)
    → t ≡ s
holds {A} e = ap (λ (x : AdguardHome × Option A). x.0) (sym e)

memory_law : IsDocumented memory (λ h. h)
memory_law = record {
  reads_rules = λ s r e. sym (some_inj e);
  sets_rules = λ r s t e. holds e;
  reads_filters = λ s r e. sym (some_inj e);
  adds_filter = λ name url s t e. holds e;
  sets_filter = λ url name enabled s t e. holds e;
  reads_safesearch = λ s r e. sym (some_inj e);
  sets_safesearch = λ r s t e. holds e;
  reads_rewrites = λ s r e. sym (some_inj e);
  adds_rewrite = λ domain answer s t e. holds e;
  deletes_rewrite = λ domain answer s t e. holds e;
}

-- A rule of the administrator's, and a block of an earlier cycle that was cut off.
abbrev server : AdguardHome
server = record {
  user_rules = "||ads.example^" ∷ marker_begin ∷ "/old/" ∷ marker_end ∷ "||late.example^" ∷ [];
  filters = [];
  safesearch = record { enabled = false; services = [] };
  rewrites = record { domain = "old.home"; answer = "10.0.0.2" } ∷ [];
}

abbrev cycle : AdguardHome × Option ℕ
cycle = sync_once platform filtered 0 memory none server

abbrev own_rules : List String
own_rules = "||ads.example^" ∷ "||late.example^" ∷ []

differ : (a b : String) → string_eq.same a b ≡ false → a ≡ b → ⊥
differ a b h e = let k = (string_eq.same_iff a b).1 e in cc

server-IsOutside : IsOutside server.user_rules own_rules
server-IsOutside =
    block ("||ads.example^" ∷ []) ("/old/" ∷ []) ("||late.example^" ∷ [])
      (λ m. elim m [ inl e ↦ differ marker_begin "||ads.example^" refl e | inr z ↦ z ])
      (λ m. elim m [ inl e ↦ differ marker_end "/old/" refl e | inr z ↦ z ])

own_rules-IsAbsent : IsAbsent marker_begin own_rules
own_rules-IsAbsent m = elim m [
  | inl e ↦ differ marker_begin "||ads.example^" refl e
  | inr n ↦ elim n [ inl e ↦ differ marker_begin "||late.example^" refl e | inr z ↦ z ]
]

sync_once-rules_example : IsOutside (cycle.0).user_rules own_rules
unfolding sync_once managed_rules build_category_deny_rules fetch_eligible_devices
    opti_gate.Base.find? opti_gate.Base.str_leb opti_gate.Policy.Class.classify_device
    opti_gate.Adguard.Categories.category_loop opti_gate.Adguard.Categories.is_scoped
    opti_gate.Adguard.Categories.category_patterns opti_gate.Adguard.Categories.rules_of_category
    opti_gate.Adguard.Categories.category_domain_patterns opti_gate.Base.contains
    opti_gate.Adguard.Categories.overrides opti_gate.Adguard.Categories.applicable
    opti_gate.Adguard.Categories.category_blocks
    opti_gate.Matching.Grants.category_applies_to_device opti_gate.Tables.has_pair
    merge_duplicate_domain_rules build_rules opti_gate.Adguard.Deny.is_authorized
    opti_gate.Matching.Grants.device_domain_reason split_rule opti_gate.Base.drop_prefix domain_rule
    opti_gate.Base.cut opti_gate.Policy.Class.bump_eligible build_splice_deny_rules
    opti_gate.Adguard.Categories.category_rules domain_rule_unscoped
    opti_gate.Adguard.Block.build_anti_doh_rules build_ech_strip_rules
    opti_gate.Adguard.Deny.is_stripped opti_gate.Adguard.Rule.ech_strip_rule
    build_adguard_allow_rules opti_gate.Adguard.Categories.allow_rules
    opti_gate.Adguard.Categories.is_allowed opti_gate.Matching.Grants.device_allowlist_reason
    opti_gate.Adguard.Categories.allow_rule opti_gate.Adguard.Rule.domain_allow_rule
    opti_gate.Adguard.Sync.push_rules opti_gate.Adguard.Sync.write_rules
    opti_gate.Adguard.Block.with_block opti_gate.Adguard.Merge.add_to_group strip_managed_block
    opti_gate.Adguard.Block.split_at rebuild_rule opti_gate.Base.join
    opti_gate.Adguard.Merge.add_unseen opti_gate.Base.split_on opti_gate.Base.partition
    opti_gate.Adguard.Sync.sync_category_subscriptions opti_gate.Adguard.Sync.sync_categories
    opti_gate.Adguard.Sync.over_threshold opti_gate.Adguard.Sync.sync_safesearch
    opti_gate.Adguard.Sync.switch_safesearch opti_gate.Adguard.Sync.safesearch_wanted
    opti_gate.Settings.get_setting sync_optigate_rewrite
sync_once-rules_example =
    (sync_once-rules memory (λ h. h) memory_law platform filtered 0 none server cycle.0
      (from_option 0 cycle.1) own_rules server-IsOutside own_rules-IsAbsent refl).5

abbrev renamed : AdguardHome × Option (Unit {0})
renamed = sync_optigate_rewrite memory filtered (some "10.0.0.1") server

sync_optigate_rewrite-rewrites_example :
    In (record { domain = optigate_hostname filtered; answer = "10.0.0.1" }) (renamed.0).rewrites
unfolding sync_optigate_rewrite opti_gate.Adguard.Rewrites.reconcile_rewrites
    opti_gate.Adguard.Client.for_each opti_gate.Adguard.Rewrites.ours filter
    opti_gate.Base.ends_with optigate_hostname opti_gate.Base.find? opti_gate.Base.any
sync_optigate_rewrite-rewrites_example =
    (sync_optigate_rewrite-rewrites memory (λ h. h) memory_law filtered "10.0.0.1" server renamed.0
      refl refl).0
