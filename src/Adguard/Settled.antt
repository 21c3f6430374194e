-- ===== src/Adguard/Settled.antt =====
-- Adguard/Sync: what a cycle leaves in the custom rules, and that the next one changes nothing.
use opti_gate.Base.{ℕ, String, List, [], ◌∷◌, Option, none, some, Bool, false, not, ◌==◌}
use opti_gate.Base.{◌≡◌, refl, sym, ap, ◌∙◌, inl, inr, Bool-cases}
use opti_gate.Base.{list_eq, string_eq, beq_refl, eq_of_beq, is_empty}
use opti_gate.Tables.{Database, Category}
use opti_gate.Platform.{Platform}
use opti_gate.Adguard.Client.{Action, ask, AdguardClient}
use opti_gate.Adguard.Client.{AdguardHome, IsDocumented, FilterList, Rewrite, is_rewrite}
use opti_gate.Adguard.Block.{strip_managed_block, with_block, marker_begin, marker_end}
use opti_gate.Adguard.Strip.{IsAbsent, strip_managed_block-with_block}
use opti_gate.Adguard.Keeps.{Keeps, after-inv, done-Keeps, attempt-Keeps, ask-Keeps, >>=-Keeps}
use opti_gate.Adguard.Keeps.{if-Keeps, for_each-Keeps}
use opti_gate.Adguard.Rewrites.{reconcile_rewrites, sync_optigate_rewrite}
use opti_gate.Adguard.Sync.{reconcile_filter, sync_category, sync_categories, sync_safesearch}
use opti_gate.Adguard.Sync.{
  sync_category_subscriptions, push_rules, switch_safesearch, safesearch_wanted, write_rules,
}
use opti_gate.Base.{bool_beq}

module _ {S : Type 0} (α : AdguardClient S) (home : S → AdguardHome)
    (law : IsDocumented α home) where
  abbrev rules : S → List String
  rules s = (home s).user_rules

  abbrev KeepsRules : {A : Type 0} → Action S A → Type 0
  KeepsRules = Keeps rules

  reconcile_rewrites-KeepsRules :
      (domain answer : String) (rows : List Rewrite)
      → KeepsRules (reconcile_rewrites α domain answer rows)
  unfolding reconcile_rewrites
  reconcile_rewrites-KeepsRules domain answer rows =
      >>=-Keeps rules _ _
        (for_each-Keeps rules _ rows (λ r.
          if-Keeps rules (not (is_rewrite domain answer r)) _ _
            (λ s t _ e. ap (λ z. z.user_rules) (law.deletes_rewrite r.domain r.answer s t e))
            (done-Keeps rules tt)))
        (λ _.
          if-Keeps rules _ _ _ (done-Keeps rules tt)
            (λ s t _ e. ap (λ z. z.user_rules) (law.adds_rewrite domain answer s t e)))

  pub sync_optigate_rewrite-KeepsRules :
      (db : Database) (block_page_ip : Option String)
      → KeepsRules (sync_optigate_rewrite α db block_page_ip)
  unfolding sync_optigate_rewrite
  sync_optigate_rewrite-KeepsRules db none = done-Keeps rules tt
  sync_optigate_rewrite-KeepsRules db (some ip) =
      if-Keeps rules (is_empty ip) _ _ (done-Keeps rules tt) (
        >>=-Keeps rules _ _ (ask-Keeps rules α.get_rewrites)
          (λ current. reconcile_rewrites-KeepsRules _ ip _))

  module _ (π : Platform) (db : Database) (now : ℕ) where
    reconcile_filter-KeepsRules :
        (name url : String) (enable : Bool) (existing : Option FilterList)
        → KeepsRules (reconcile_filter π db now α name url enable existing)
    unfolding reconcile_filter
    reconcile_filter-KeepsRules name url enable none =
        >>=-Keeps rules _ _ (λ s t _ e. ap (λ z. z.user_rules) (law.adds_filter name url s t e))
          (λ _.
            if-Keeps rules (not enable) _ _
              (λ s t _ e. ap (λ z. z.user_rules) (law.sets_filter url name false s t e))
              (done-Keeps rules tt))
    reconcile_filter-KeepsRules name url enable (some existing) =
        if-Keeps rules _ _ _ (done-Keeps rules tt)
          (λ s t _ e. ap (λ z. z.user_rules) (law.sets_filter url name enable s t e))

    sync_categories-KeepsRules :
        (categories : List Category) → KeepsRules (sync_categories π db now α categories)
    unfolding sync_categories sync_category
    sync_categories-KeepsRules [] = done-Keeps rules tt
    sync_categories-KeepsRules (c ∷ cs) =
        >>=-Keeps rules _ _ (ask-Keeps rules α.get_filters_status) (λ current.
          for_each-Keeps rules (sync_category π db now α current) (c ∷ cs) (λ d.
            >>=-Keeps rules _ _ (attempt-Keeps rules _)
              (λ enable. reconcile_filter-KeepsRules d.name _ enable _)))

    pub sync_category_subscriptions-KeepsRules : KeepsRules (sync_category_subscriptions π db now α)
    unfolding sync_category_subscriptions
    sync_category_subscriptions-KeepsRules = sync_categories-KeepsRules _

    pub sync_safesearch-KeepsRules : KeepsRules (sync_safesearch π db now α)
    unfolding sync_safesearch switch_safesearch
    sync_safesearch-KeepsRules =
        >>=-Keeps rules _ _ (ask-Keeps rules α.get_safesearch_status) (λ current.
          if-Keeps rules (bool_beq current.enabled (safesearch_wanted db)) _
            (α.set_safesearch_settings (record current { enabled = safesearch_wanted db }))
            (done-Keeps rules tt) (λ s t _ e. ap (λ z. z.user_rules) (law.sets_safesearch _ s t e)))

    -- What a push that came to an end leaves.
    pub push_rules-rules :
        (managed : List String) (s t : S)
        → push_rules π db now α managed s ≡ (t, some tt)
        → rules t ≡ with_block (strip_managed_block (rules s)) managed
    unfolding push_rules write_rules
    push_rules-rules managed s t h =
        let (u, current, e, k) = after-inv (ask α.get_custom_rules s) _ t tt h in
        let stays : u ≡ s = ap (λ (x : S × Option (List String)). x.0) (sym e) in
        let read = law.reads_rules s current (ap (λ (x : S × Option (List String)). x.1) e) in
        let new_rules = with_block (strip_managed_block current) managed in
        let result : rules t ≡ new_rules = elim (Bool-cases (new_rules == current)) [
          | inl q ↦
              let same : u ≡ t = ap (λ (x : S × Option Unit). x.0) (rw q at k) in
              ap rules (sym same ∙ stays) ∙ (sym read ∙ sym (eq_of_beq new_rules current q))
          | inr q ↦ ap (λ z. z.user_rules) (law.sets_rules new_rules u t (rw q at k))
        ] in
        result ∙ ap (λ z. with_block (strip_managed_block z) managed) read

    -- A push of the block that is there writes nothing.
    pub push_rules-settled :
        (preserved managed current : List String) (s : S)
        → IsAbsent marker_begin preserved
        → IsAbsent marker_end managed
        → rules s ≡ with_block preserved managed
        → α.get_custom_rules s ≡ some current
        → push_rules π db now α managed s ≡ (s, some tt)
    unfolding push_rules write_rules
    push_rules-settled preserved managed current s b f e r =
        let there : current ≡ with_block preserved managed = law.reads_rules s current r ∙ e in
        let kept : with_block (strip_managed_block current) managed ≡ current =
          ap (λ z. with_block (strip_managed_block z) managed) there
          ∙ (ap (λ z. with_block z managed) (strip_managed_block-with_block preserved managed b f)
              ∙ sym there) in
        rw (r, kept, beq_refl current) refl
