-- ===== src/Adguard/Rule.antt =====
-- controller/adguard_sync.py, lines 119 to 225 and 513 to 525: the text of one AdGuard rule, and its
-- parts.
use opti_gate.Base.{String, List, Option, none, some, Bool, true, false, if◌then◌else◌, ◌<>◌}
use opti_gate.Base.{◌>>=◌, is_empty, from_option, drop_prefix, cut, partition, split_on, join}

-- `(is_allow, body, client_ips, suffix)`
pub record RuleParts : Type 0 where
  pub is_allow : Bool
  pub body : String
  pub client_ips : Option (List String)
  pub suffix : String

-- The pattern, anchored as common/matching.py anchors it.
unfoldable pub rule_body : String → String
rule_body pattern = "(?i)(?:^|\\.)(?:" <> (pattern <> ")$")

-- `if block_page_ip: …`
abbrev pub rewrite_modifier : Option String → String → String
rewrite_modifier block_page_ip lead =
    let ip = from_option "" block_page_ip in
    if is_empty ip then "" else lead <> ("dnsrewrite=NOERROR;A;" <> ip)

unfoldable pub domain_rule : String → List String → Option String → String
unfolding rule_body
domain_rule pattern client_ips block_page_ip =
    "/"
    <> (rule_body pattern
        <> ("/$client=" <> (join "|" client_ips <> rewrite_modifier block_page_ip ",")))

unfoldable pub domain_rule_unscoped : String → Option String → String
unfolding rule_body
domain_rule_unscoped pattern block_page_ip =
    "/" <> (rule_body pattern <> ("/" <> rewrite_modifier block_page_ip "$"))

unfoldable pub domain_allow_rule : String → Option (List String) → String
unfolding rule_body
domain_allow_rule pattern none = "@@/" <> (rule_body pattern <> "/")
domain_allow_rule pattern (some client_ips) =
    "@@/" <> (rule_body pattern <> ("/$client=" <> join "|" client_ips))

unfoldable pub ech_strip_rule : String → List String → String
unfolding rule_body
ech_strip_rule pattern client_ips =
    "/" <> (rule_body pattern <> ("/$client=" <> (join "|" client_ips <> ",dnstype=HTTPS")))

-- What follows the leading "$", once `startswith("client=")` is decided.
abbrev pub split_clients : Bool → String → String → Option String → RuleParts
split_clients is_allow body modifiers none = record {
  is_allow = is_allow;
  body = body;
  client_ips = none;
  suffix = modifiers;
}
split_clients is_allow body modifiers (some rest) =
    let (client_part, suffix) = partition b',' rest in
    record {
      is_allow = is_allow;
      body = body;
      client_ips = some (split_on b'|' client_part);
      suffix = suffix;
    }

abbrev pub split_modifiers : Bool → String → String → RuleParts
split_modifiers is_allow body String.[] = record {
  is_allow = is_allow;
  body = body;
  client_ips = none;
  suffix = "";
}
split_modifiers is_allow body (String.◌∷◌ c modifiers) =
    split_clients is_allow body modifiers (drop_prefix "client=" modifiers)

-- `_, body, modifiers = rule.split("/", 2)`, which raises where a slash is missing.
unfoldable pub split_parts : Bool → String → Option RuleParts
split_parts is_allow rule = do
  first ← cut b'/' rule
  second ← cut b'/' first.1
  some (split_modifiers is_allow second.0 second.1)

abbrev split_polarity : String → Option String → Option RuleParts
split_polarity rule none = split_parts false rule
split_polarity rule (some rest) = split_parts true rest

unfoldable pub split_rule : String → Option RuleParts
unfolding split_parts
split_rule rule = split_polarity rule (drop_prefix "@@" rule)

abbrev pub modifiers_of : Option (List String) → String → String
modifiers_of none suffix = if is_empty suffix then "" else "$" <> suffix
modifiers_of (some client_ips) suffix =
    "$client=" <> (join "|" client_ips <> (if is_empty suffix then "" else "," <> suffix))

unfoldable pub rebuild_rule : RuleParts → String
rebuild_rule p =
    (if p.is_allow then "@@" else "")
    <> ("/" <> (p.body <> ("/" <> modifiers_of p.client_ips p.suffix)))
