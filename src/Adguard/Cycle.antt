-- ===== src/Adguard/Cycle.antt =====
-- Adguard/Sync: one whole cycle.
use opti_gate.Base.{
  ℕ, String, List, [], ◌∷◌, ◌++◌, append-nil, arith, Option, none, some, length, ◌≤◌,
}
use opti_gate.Base.{drop_prefix, cut, ◌≡◌, refl, sym, ap, ◌∙◌, subst, >>=-eq-some, some_inj}
use opti_gate.Tables.{Database}
use opti_gate.Platform.{Platform}
use opti_gate.Adguard.Client.{attempt, AdguardClient, AdguardHome, IsDocumented}
use opti_gate.Adguard.Rule.{split_rule}
use opti_gate.Adguard.Merged.{merge_duplicate_domain_rules-read}
use opti_gate.Adguard.Devices.{fetch_eligible_devices}
use opti_gate.Adguard.Categories.{build_category_deny_rules}
use opti_gate.Adguard.Block.{strip_managed_block, with_block, marker_begin, marker_end}
use opti_gate.Adguard.Strip.{IsAbsent, IsOutside, block, strip_managed_block-IsOutside}
use opti_gate.Adguard.Keeps.{after-inv}
use opti_gate.Adguard.Settled.{push_rules-rules, push_rules-settled, sync_safesearch-KeepsRules}
use opti_gate.Adguard.Settled.{sync_category_subscriptions-KeepsRules}
use opti_gate.Adguard.Settled.{sync_optigate_rewrite-KeepsRules}
use opti_gate.Adguard.Rewrites.{sync_optigate_rewrite}
use opti_gate.Adguard.Managed.{managed_rules}
use opti_gate.Adguard.Baseline.{managed_rules-baseline}
use opti_gate.Adguard.Sync.{push_rules, sync_category_subscriptions, sync_safesearch, sync_once}

unreadable : split_rule marker_end ≡ none
unfolding split_rule drop_prefix cut
unreadable = refl

-- The end marker is none of the managed rules.
managed_rules-IsAbsent :
    (π : Platform) (db : Database) (now : ℕ) (block_page_ip : Option String) (managed : List String)
    → managed_rules π db now block_page_ip ≡ some managed
    → IsAbsent marker_end managed
unfolding managed_rules
managed_rules-IsAbsent π db now block_page_ip managed h m =
    let devices = fetch_eligible_devices db in
    let (category_rules, e, l) =
      >>=-eq-some (build_category_deny_rules db π now block_page_ip devices) _ h in
    let (p, q) = merge_duplicate_domain_rules-read _ managed l marker_end m in
    let u = unreadable in cc

with_block-cons :
    (preserved managed : List String)
    → 8 ≤ length managed
    → with_block preserved managed ≡ preserved ++ (marker_begin ∷ (managed ++ (marker_end ∷ [])))
unfolding with_block
with_block-cons preserved [] h = absurd (omega arith)
with_block-cons preserved (r ∷ managed) h = refl

-- A cycle that comes to an end has computed the block and returns its number of rules, at least
-- eight; it leaves the custom rules that stood outside the old block, in their order, then the
-- begin marker, the new block and the end marker, so that the same rules stand outside the block
-- as before; and pushing the same block once more writes nothing, where the rules can be read. It
-- is assumed that the server does what its interface documents, and that no begin marker stands
-- outside the old block. Rules between an old begin marker and its end marker are dropped, and where
-- no end marker follows, all rules behind the begin marker.
pub sync_once-rules :
    {S : Type 0} (α : AdguardClient S) (home : S → AdguardHome)
    → IsDocumented α home
    → (π : Platform) (db : Database) (now : ℕ) (block_page_ip : Option String) (s t : S) (n : ℕ)
      (outside : List String)
    → IsOutside (home s).user_rules outside
    → IsAbsent marker_begin outside
    → sync_once π db now α block_page_ip s ≡ (t, some n)
    → (managed : List String) × (managed_rules π db now block_page_ip ≡ some managed)
      × (n ≡ length managed)
      × (8 ≤ n)
      × ((home t).user_rules ≡ outside ++ (marker_begin ∷ (managed ++ (marker_end ∷ []))))
      × IsOutside (home t).user_rules outside
      × ((current : List String)
          → α.get_custom_rules t ≡ some current
          → push_rules π db now α managed t ≡ (t, some tt))
unfolding sync_once
sync_once-rules α home law π db now block_page_ip s t n outside o out h =
    let here_rules = strip_managed_block-IsOutside (home s).user_rules outside o in
    let b = subst (IsAbsent marker_begin) (sym here_rules) out in
    let preserved = strip_managed_block (home s).user_rules in
    let (s0, managed, e0, k0) =
      after-inv (attempt (managed_rules π db now block_page_ip) s) _ t n h in
    let (s1, _, e1, k1) = after-inv (push_rules π db now α managed s0) _ t n k0 in
    let (s2, _, e2, k2) = after-inv (sync_category_subscriptions π db now α s1) _ t n k1 in
    let (s3, _, e3, k3) = after-inv (sync_safesearch π db now α s2) _ t n k2 in
    let (s4, _, e4, k4) = after-inv (sync_optigate_rewrite α db block_page_ip s3) _ t n k3 in
    let computed = ap (λ (x : _ × Option (List String)). x.1) e0 in
    let here : s0 ≡ s = ap (λ x. x.0) (sym e0) in
    let last : s4 ≡ t = ap (λ x. x.0) k4 in
    let counted : n ≡ length managed = sym (some_inj (ap (λ x. x.1) k4)) in
    let r1 = push_rules-rules α home law π db now managed s0 s1 e1 in
    let r2 = sync_category_subscriptions-KeepsRules α home law π db now s1 s2 _ e2 in
    let r3 = sync_safesearch-KeepsRules α home law π db now s2 s3 _ e3 in
    let r4 = sync_optigate_rewrite-KeepsRules α home law db block_page_ip s3 s4 _ e4 in
    let result : (home t).user_rules ≡ with_block preserved managed =
      ap (λ z. (home z).user_rules) (sym last)
      ∙ (r4
          ∙ (r3
              ∙ (r2
                  ∙ (r1
                      ∙ ap (λ z. with_block (strip_managed_block (home z).user_rules) managed)
                          here)))) in
    let absent = managed_rules-IsAbsent π db now block_page_ip managed computed in
    let bound =
      subst (λ z. 8 ≤ z) (sym counted)
        (managed_rules-baseline π db now block_page_ip managed computed).1 in
    let shown =
      result
      ∙ ap (λ z. with_block z managed) here_rules
      ∙ with_block-cons outside managed (subst (λ z. 8 ≤ z) counted bound) in
    (
      managed,
      computed,
      counted,
      bound,
      shown,
      subst (λ z. IsOutside z outside) (sym shown)
          (subst (IsOutside _) (append-nil outside) (block outside managed [] out absent)),
      λ current r.
          push_rules-settled α home law π db now preserved managed current t b absent result r,
    )
