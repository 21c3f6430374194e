-- ===== src/Adguard/Merge.antt =====
-- controller/adguard_sync.py, lines 224 to 285: the rules that share a body, an action and a
-- polarity become one.
use opti_gate.Base.{String, List, [], ◌∷◌, ◌++◌, Option, none, some, Bool, map}
use opti_gate.Base.{if◌then◌else◌, ◌&&◌, ◌==◌, string_eq, bool_beq, ◌>>=◌, contains}
use opti_gate.Adguard.Rule.{RuleParts, split_rule, rebuild_rule}

-- `(is_allow, body, suffix)`
pub record RuleKey : Type 0 where
  pub is_allow : Bool
  pub body : String
  pub suffix : String

abbrev pub key_of : RuleParts → RuleKey
key_of p = record { is_allow = p.is_allow; body = p.body; suffix = p.suffix }

abbrev pub key_beq : RuleKey → RuleKey → Bool
key_beq a b = bool_beq a.is_allow b.is_allow && a.body == b.body && a.suffix == b.suffix

-- `order` and `by_key`: the groups in the order in which their keys were first seen.
pub record RuleGroup : Type 0 where
  pub key : RuleKey
  pub client_lists : List (Option (List String))

unfoldable pub add_to_group : RuleKey → Option (List String) → List RuleGroup → List RuleGroup
add_to_group key client_ips [] = record { key = key; client_lists = client_ips ∷ [] } ∷ []
add_to_group key client_ips (g ∷ groups) =
    let rest = add_to_group key client_ips groups in
    if key_beq key g.key
    then record g { client_lists = g.client_lists ++ (client_ips ∷ []) } ∷ groups
    else g ∷ rest

-- The first loop, which raises where a rule has no two slashes.
unfoldable pub group_rules : List String → List RuleGroup → Option (List RuleGroup)
group_rules [] groups = some groups
group_rules (rule ∷ rules) groups = do
  p ← split_rule rule
  group_rules rules (add_to_group (key_of p) p.client_ips groups)

-- `for ip in ips: if ip not in seen: …`
unfoldable pub add_unseen : List String → List String → List String
unfolding contains
add_unseen [] union = union
add_unseen (ip ∷ ips) union =
    add_unseen ips (if contains union ip then union else union ++ (ip ∷ []))

-- The union of the groups' clients; none, which is every client, wins outright.
unfoldable pub union_of : List (Option (List String)) → List String → Option (List String)
union_of [] union = some union
union_of (none ∷ lists) union = none
union_of (some ips ∷ lists) union = union_of lists (add_unseen ips union)

unfoldable pub merge_group : RuleGroup → RuleParts
unfolding union_of
merge_group g = record {
  is_allow = g.key.is_allow;
  body = g.key.body;
  client_ips = union_of g.client_lists [];
  suffix = g.key.suffix;
}

unfoldable pub merge_duplicate_domain_rules : List String → Option (List String)
unfolding group_rules merge_group
merge_duplicate_domain_rules rules = do
  groups ← group_rules rules []
  some (map (λ g. rebuild_rule (merge_group g)) groups)
