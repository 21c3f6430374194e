-- ===== src/Adguard/Merged.antt =====
-- Adguard/Merge: the merged list reaches the same addresses under each key, and has one rule a key.
use opti_gate.Base.{String, List, [], ◌∷◌, Option, none, some, map}
use opti_gate.Base.{◌≡◌, refl, sym, ap, ◌∙◌, subst, inl, inr, ◌↔◌}
use opti_gate.Base.{In, All, all-in, NoDup}
use opti_gate.Base.{>>=-eq-some, some_inj, string_eq}
use opti_gate.Base.{In-map, map-In}
use opti_gate.Adguard.Rule.{RuleParts, split_rule, rebuild_rule}
use opti_gate.Adguard.RoundTrip.{split_rule-rebuild_rule}
use opti_gate.Adguard.Merge.{RuleKey, key_of, RuleGroup, group_rules}
use opti_gate.Adguard.Merge.{merge_group, merge_duplicate_domain_rules}
use opti_gate.Adguard.Groups.{Reaches, HasRule, HasGroup}
use opti_gate.Adguard.Groups.{Reaches-union_of, group_rules-HasGroup}
use opti_gate.Adguard.Merging.{IsGood, keys, group_rules-IsGood, group_rules-NoDup}
use opti_gate.Adguard.Merging.{merge_group-IsWellFormed}

-- The key that the text of a rule has.
abbrev pub rule_key : String → Option RuleKey
rule_key rule = elim (split_rule rule) [ none ↦ none | some p ↦ some (key_of p) ]

rule_key-rebuild_rule :
    (g : RuleGroup) → IsGood g → rule_key (rebuild_rule (merge_group g)) ≡ some g.key
unfolding merge_group
rule_key-rebuild_rule g h =
    rw (rule_key, split_rule-rebuild_rule (merge_group g) (merge_group-IsWellFormed g h)) refl

merged_rules : List RuleGroup → List String
merged_rules = map (λ g. rebuild_rule (merge_group g))

key_listed :
    (k : RuleKey) (groups : List RuleGroup)
    → All IsGood groups
    → In (some k) (map rule_key (merged_rules groups))
    → In k (keys groups)
unfolding merged_rules
key_listed k [] good m = absurd m
key_listed k (g ∷ groups) good (inl e) = inl (some_inj (e ∙ rule_key-rebuild_rule g good.0))
key_listed k (g ∷ groups) good (inr m) = inr (key_listed k groups good.1 m)

merged_rules-NoDup :
    (groups : List RuleGroup)
    → All IsGood groups
    → NoDup (keys groups)
    → NoDup (map rule_key (merged_rules groups))
unfolding merged_rules
merged_rules-NoDup [] good n = tt
merged_rules-NoDup (g ∷ groups) good n = (
  λ m. n.0 (
      key_listed g.key groups good.1 (
        subst (λ z. In z (map rule_key (merged_rules groups))) (rule_key-rebuild_rule g good.0) m)),
  merged_rules-NoDup groups good.1 n.1,
)

module _ (groups : List RuleGroup) (good : All IsGood groups) where
  read_back :
      (g : RuleGroup)
      → In g groups
      → split_rule (rebuild_rule (merge_group g)) ≡ some (merge_group g)
  read_back g m =
      split_rule-rebuild_rule (merge_group g)
        (merge_group-IsWellFormed g (all-in IsGood g groups good m))

  HasRule-out :
      (key : RuleKey) (ip : String) → HasRule (merged_rules groups) key ip ↔ HasGroup groups key ip
  unfolding merge_group merged_rules
  HasRule-out key ip = (
    λ (rule, p, m, e, k, r).
        let (g, i, q) = map-In (λ g. rebuild_rule (merge_group g)) rule groups m in
        let same : merge_group g ≡ p =
          some_inj (sym (read_back g i) ∙ (ap split_rule (sym q) ∙ e)) in
        let r' = subst (λ z. Reaches z.client_ips ip) (sym same) r in
        elim ((Reaches-union_of ip g.client_lists []).0 r') [
          | inl z ↦ absurd z
          | inr l ↦ (g, i, ap key_of same ∙ k, l)
        ],
    λ (g, i, k, l). (
      rebuild_rule (merge_group g),
      merge_group g,
      In-map (λ g. rebuild_rule (merge_group g)) g groups i,
      read_back g i,
      k,
      (Reaches-union_of ip g.client_lists []).1 (inr l),
    ),
  )

-- Where the merging gives a list, no two of its rules have the same polarity, body and action, and
-- under each of these its rules reach exactly the addresses that the given rules reach.
pub merge_duplicate_domain_rules-HasRule :
    (rules merged : List String)
    → merge_duplicate_domain_rules rules ≡ some merged
    → NoDup (map rule_key merged)
      × ((key : RuleKey) (ip : String) → HasRule merged key ip ↔ HasRule rules key ip)
unfolding merge_duplicate_domain_rules merged_rules
merge_duplicate_domain_rules-HasRule rules merged h =
    let (groups, e, k) = >>=-eq-some (group_rules rules []) _ h in
    let good = group_rules-IsGood rules [] groups e tt in
    let distinct = merged_rules-NoDup groups good (group_rules-NoDup rules [] groups e tt) in
    subst
      (λ out.
        NoDup (map rule_key out)
        × ((key : RuleKey) (ip : String) → HasRule out key ip ↔ HasRule rules key ip))
      (some_inj k)
      (
        distinct,
        λ key ip.
            let (f, g) = HasRule-out groups good key ip in
            let (f', g') = group_rules-HasGroup ip key rules [] groups e in
            (λ m. elim (f' (f m)) [ inl z ↦ absurd z.1 | inr r ↦ r ], λ m. g (g' (inr m))),
      )

group_rules_total :
    (rules : List String) (groups : List RuleGroup)
    → ((rule : String) → In rule rules → (p : RuleParts) × (split_rule rule ≡ some p))
    → (out : List RuleGroup) × (group_rules rules groups ≡ some out)
unfolding group_rules
group_rules_total [] groups h = (groups, refl)
group_rules_total (rule ∷ rules) groups h =
    let (p, e) = h rule (inl refl) in rw e (group_rules_total rules _ (λ r m. h r (inr m)))

-- It gives a list wherever every rule can be taken apart.
pub merge_duplicate_domain_rules-total :
    (rules : List String)
    → ((rule : String) → In rule rules → (p : RuleParts) × (split_rule rule ≡ some p))
    → (merged : List String) × (merge_duplicate_domain_rules rules ≡ some merged)
unfolding merge_duplicate_domain_rules merged_rules
merge_duplicate_domain_rules-total rules h =
    let (groups, e) = group_rules_total rules [] h in (merged_rules groups, rw e refl)

-- Every rule that it gives can be taken apart again.
pub merge_duplicate_domain_rules-read :
    (rules merged : List String)
    → merge_duplicate_domain_rules rules ≡ some merged
    → (rule : String) → In rule merged
    → (p : RuleParts) × (split_rule rule ≡ some p)
unfolding merge_duplicate_domain_rules
merge_duplicate_domain_rules-read rules merged h rule m =
    let (groups, e, k) = >>=-eq-some (group_rules rules []) _ h in
    let good = group_rules-IsGood rules [] groups e tt in
    let (g, i, q) =
      map-In (λ g. rebuild_rule (merge_group g)) rule groups
        (subst (λ z. In rule z) (sym (some_inj k)) m) in
    (merge_group g, ap split_rule q ∙ read_back groups good g i)
