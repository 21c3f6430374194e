-- ===== src/Adguard/Readings.antt =====
-- Adguard/Rule: what `_split_rule` reads in each kind of rule.
use opti_gate.Base.{String, List, Option, none, some, true, false, ◌<>◌}
use opti_gate.Base.{◌≡◌, refl, sym, ap, ◌∙◌, inl, inr, In, IsFree, has_char, has_char-append}
use opti_gate.Base.{append_empty, Bool-cases, is_empty, from_option, drop_prefix, join}
use opti_gate.Adguard.Rule.{rule_body, rewrite_modifier, domain_rule, split_rule}
use opti_gate.Adguard.Rule.{domain_rule_unscoped, domain_allow_rule, ech_strip_rule, rebuild_rule}
use opti_gate.Adguard.RoundTrip.{parts, AreClients, split_rule-rebuild_rule}
use opti_gate.Adguard.Merging.{IsPlain, clients-AreClients}

-- Clients that can be listed in a rule.
abbrev pub ArePlain : List String → Type 0
ArePlain ips = ((x : String) × In x ips) × ((x : String) → In x ips → IsPlain x)

rule_body-IsFree : (pattern : String) → IsFree b'/' pattern → IsFree b'/' (rule_body pattern)
unfolding rule_body has_char
rule_body-IsFree pattern f = rw (has_char-append b'/' pattern ")$", f) refl

-- `dnsrewrite=NOERROR;A;…`, or nothing.
abbrev pub rewrite_suffix : Option String → String
rewrite_suffix block_page_ip = rewrite_modifier block_page_ip ""

module _ (pattern : String) (free : IsFree b'/' pattern) (block_page_ip : Option String) where
  domain_rule-eq :
      (ips : List String)
      → domain_rule pattern ips block_page_ip
        ≡ rebuild_rule (parts false (rule_body pattern) (some ips) (rewrite_suffix block_page_ip))
  unfolding domain_rule rebuild_rule
  domain_rule-eq ips = elim (Bool-cases (is_empty (from_option "" block_page_ip))) [
    | inl e ↦ rw e refl
    | inr e ↦ rw e refl
  ]

  domain_rule_unscoped-eq :
      domain_rule_unscoped pattern block_page_ip
      ≡ rebuild_rule (parts false (rule_body pattern) none (rewrite_suffix block_page_ip))
  unfolding domain_rule_unscoped rebuild_rule
  domain_rule_unscoped-eq = elim (Bool-cases (is_empty (from_option "" block_page_ip))) [
    | inl e ↦ rw e refl
    | inr e ↦ rw e refl
  ]

  no_clients : AreClients none (rewrite_suffix block_page_ip)
  unfolding drop_prefix
  no_clients = elim (Bool-cases (is_empty (from_option "" block_page_ip))) [
    | inl e ↦ rw e refl
    | inr e ↦ rw e refl
  ]

  pub split_rule-domain_rule :
      (ips : List String)
      → ArePlain ips
      → split_rule (domain_rule pattern ips block_page_ip)
        ≡ some (parts false (rule_body pattern) (some ips) (rewrite_suffix block_page_ip))
  split_rule-domain_rule ips (m, h) =
      ap split_rule (domain_rule-eq ips)
      ∙ split_rule-rebuild_rule _ (rule_body-IsFree pattern free, clients-AreClients _ ips m h)

  pub split_rule-domain_rule_unscoped :
      split_rule (domain_rule_unscoped pattern block_page_ip)
      ≡ some (parts false (rule_body pattern) none (rewrite_suffix block_page_ip))
  split_rule-domain_rule_unscoped =
      ap split_rule domain_rule_unscoped-eq
      ∙ split_rule-rebuild_rule _ (rule_body-IsFree pattern free, no_clients)

module _ (pattern : String) (free : IsFree b'/' pattern) where
  pub split_rule-ech_strip_rule :
      (ips : List String)
      → ArePlain ips
      → split_rule (ech_strip_rule pattern ips)
        ≡ some (parts false (rule_body pattern) (some ips) "dnstype=HTTPS")
  unfolding ech_strip_rule rebuild_rule
  split_rule-ech_strip_rule ips (m, h) =
      split_rule-rebuild_rule (parts false (rule_body pattern) (some ips) "dnstype=HTTPS")
        (rule_body-IsFree pattern free, clients-AreClients _ ips m h)

  pub split_rule-domain_allow_rule :
      (ips : List String)
      → ArePlain ips
      → split_rule (domain_allow_rule pattern (some ips))
        ≡ some (parts true (rule_body pattern) (some ips) "")
  unfolding domain_allow_rule rebuild_rule
  split_rule-domain_allow_rule ips (m, h) =
      ap (λ z. split_rule ("@@/" <> (rule_body pattern <> ("/$client=" <> z))))
        (sym (append_empty (join "|" ips)))
      ∙ split_rule-rebuild_rule (parts true (rule_body pattern) (some ips) "")
          (rule_body-IsFree pattern free, clients-AreClients _ ips m h)

  pub split_rule-domain_allow_rule_unscoped :
      split_rule (domain_allow_rule pattern none) ≡ some (parts true (rule_body pattern) none "")
  unfolding domain_allow_rule rebuild_rule drop_prefix
  split_rule-domain_allow_rule_unscoped =
      split_rule-rebuild_rule (parts true (rule_body pattern) none "")
        (rule_body-IsFree pattern free, refl)
