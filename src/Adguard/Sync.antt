-- ===== src/Adguard/Sync.antt =====
-- controller/adguard_sync.py, lines 813 to 1000: one cycle of the synchronisation.
use opti_gate.Base.{ℕ, String, List, [], ◌∷◌, Option, none, some, Bool, true, false, not}
use opti_gate.Base.{
  if◌then◌else◌, ◌&&◌, ◌==◌, list_eq, string_eq, nat_eq, bool_beq, option_eq, filter,
}
use opti_gate.Base.{is_empty, from_option, ltb, length}
use opti_gate.Tables.{Database, Category, Schedule, has_pair}
use opti_gate.Platform.{Platform}
use opti_gate.Settings.{get_setting}
use opti_gate.Schedule.Clock.{schedule_is_active}
use opti_gate.Schedule.Lockout.{any_in_effect}
use opti_gate.Adguard.Categories.{category_patterns, max_scoped_category_domains}
use opti_gate.Adguard.Block.{strip_managed_block, with_block}
use opti_gate.Adguard.Rewrites.{sync_optigate_rewrite}
use opti_gate.Adguard.Managed.{managed_rules}
use opti_gate.Adguard.Client.{Action, ◌>>=◌, done, attempt, ask, for_each, AdguardClient}
use opti_gate.Adguard.Client.{FilterList, SafeSearch}

abbrev later : Option FilterList → Option FilterList → Option FilterList
later none f = f
later (some g) f = some g

-- `current_filters.get(url)` of `{f["url"]: f for f in …}`: the last entry of the address.
unfoldable pub filter_of : List FilterList → String → Option FilterList
filter_of [] url = none
filter_of (f ∷ filters) url = later (filter_of filters url) (if f.url == url then some f else none)

unfoldable pub safesearch_wanted : Database → Bool
safesearch_wanted db = get_setting db "safesearch_enabled" (some "0") == some "1"

module _ (π : Platform) (db : Database) (now : ℕ) where
  -- The categories that are too large for custom rules.
  unfoldable pub over_threshold : List Category
  over_threshold =
      filter
        (λ (c : Category).
          not (is_empty (from_option "" c.subscription_url))
          && ltb max_scoped_category_domains (length (category_patterns db c.id)))
        db.categories

  unfoldable pub global_schedules : ℕ → List Schedule
  global_schedules category_id =
      filter
        (λ (s : Schedule).
          has_pair db.schedule_categories s.id category_id && not s.lockout_all && s.is_global)
        db.schedules

  unfoldable pub should_enable : Category → Option Bool
  should_enable category =
      if category.is_global
      then some true
      else any_in_effect (λ s. schedule_is_active π s now) (λ s. true)
          (global_schedules category.id)

  module _ {S : Type 0} (α : AdguardClient S) where
    -- Subscribe to a list that is not there, or flip the switch of one that disagrees.
    unfoldable pub reconcile_filter : String → String → Bool → Option FilterList → Action S Unit
    reconcile_filter name url enable none = do
      _ ← α.add_filter_url name url
      if not enable then α.set_filter_url_enabled url name false else done tt
    reconcile_filter name url enable (some existing) =
        if bool_beq existing.enabled enable
        then done tt
        else α.set_filter_url_enabled url name enable

    unfoldable pub sync_category : List FilterList → Category → Action S Unit
    sync_category current_filters category = do
      enable ← attempt (should_enable category)
      let url = from_option "" category.subscription_url
      reconcile_filter category.name url enable (filter_of current_filters url)

    unfoldable pub sync_categories : List Category → Action S Unit
    sync_categories [] = done tt
    sync_categories (category ∷ categories) = do
      current_filters ← ask α.get_filters_status
      for_each (sync_category current_filters) (category ∷ categories)

    unfoldable pub sync_category_subscriptions : Action S Unit
    sync_category_subscriptions = sync_categories over_threshold

    -- Only the master switch is changed.
    unfoldable pub switch_safesearch : Bool → SafeSearch → Action S Unit
    switch_safesearch desired current =
        if bool_beq current.enabled desired
        then done tt
        else α.set_safesearch_settings (record current { enabled = desired })

    unfoldable pub sync_safesearch : Action S Unit
    sync_safesearch = do
      current ← ask α.get_safesearch_status
      switch_safesearch (safesearch_wanted db) current

    -- Write the rules, if they differ from the current ones.
    unfoldable pub write_rules : (new_rules current : List String) → Action S Unit
    write_rules new_rules current =
        if new_rules == current then done tt else α.set_custom_rules new_rules

    unfoldable pub push_rules : List String → Action S Unit
    push_rules managed = do
      current ← ask α.get_custom_rules
      write_rules (with_block (strip_managed_block current) managed) current

    unfoldable pub sync_once : Option String → Action S ℕ
    sync_once block_page_ip = do
      managed ← attempt (managed_rules π db now block_page_ip)
      _ ← push_rules managed
      _ ← sync_category_subscriptions
      _ ← sync_safesearch
      _ ← sync_optigate_rewrite α db block_page_ip
      done (length managed)
