-- ===== src/Adguard/Baseline.antt =====
-- Adguard/Block: the rules against the listed domains of DNS over HTTPS.
use opti_gate.Base.{ℕ, String, List, [], ◌∷◌, ◌++◌, Option, none, some, map, length}
use opti_gate.Base.{
  ◌≡◌, refl, sym, ap, subst, inl, inr, In, All, all-in, NoDup, ◌≤◌, In-map, map-In,
}
use opti_gate.Base.{IsFree, has_char, NoDup-length, NoDup-map, length-map, all_distinct-NoDup}
use opti_gate.Base.{string_eq}
use opti_gate.Base.{all_distinct}
use opti_gate.Tables.{Database}
use opti_gate.Platform.{Platform}
use opti_gate.Adguard.Rule.{domain_rule_unscoped, rule_body}
use opti_gate.Adguard.Merge.{RuleKey}
use opti_gate.Adguard.Groups.{HasRule}
use opti_gate.Adguard.Merged.{rule_key}
use opti_gate.Adguard.Readings.{split_rule-domain_rule_unscoped}
use opti_gate.Adguard.Denied.{deny_key}
use opti_gate.Adguard.Block.{build_anti_doh_rules, doh_canary_domains, doh_provider_domains}
use opti_gate.Adguard.Managed.{managed_rules}
use opti_gate.Adguard.Safety.{sources}

abbrev pub doh_domains : List String
doh_domains = doh_canary_domains ++ doh_provider_domains

doh_domains-IsFree : All (IsFree b'/') doh_domains
unfolding has_char
doh_domains-IsFree = (refl, (refl, (refl, (refl, (refl, (refl, (refl, (refl, tt))))))))

doh_key : String → Option RuleKey
doh_key d = some (deny_key d none)

body_of : Option RuleKey → String
body_of none = ""
body_of (some k) = k.body

doh_domains-NoDup : NoDup (map doh_key doh_domains)
unfolding doh_key body_of rule_body all_distinct
doh_domains-NoDup =
    NoDup-map body_of (map doh_key doh_domains)
      (all_distinct-NoDup (map body_of (map doh_key doh_domains)) refl)

build_anti_doh_rules-HasRule :
    (d ip : String) → In d doh_domains → HasRule build_anti_doh_rules (deny_key d none) ip
unfolding build_anti_doh_rules
build_anti_doh_rules-HasRule d ip m = (
  domain_rule_unscoped d none,
  _,
  In-map (λ d. domain_rule_unscoped d none) d doh_domains m,
  split_rule-domain_rule_unscoped d (all-in (IsFree b'/') d doh_domains doh_domains-IsFree m) none,
  refl,
  tt,
)

HasRule-rule_key :
    (rules : List String) (k : RuleKey) (ip : String)
    → HasRule rules k ip
    → In (some k) (map rule_key rules)
HasRule-rule_key rules k ip (rule, p, m, e, q, r) =
    subst (λ z. In z (map rule_key rules)) (rw (rule_key, e) (ap some q))
      (In-map rule_key rule rules m)

-- Wherever the block is computed, whatever the database and the merging, it has for the canary
-- domain and each of the seven listed providers of DNS over HTTPS a deny rule without a rewrite that
-- reaches every address, and so at least eight rules. An allow rule for one of them may override it.
pub managed_rules-baseline :
    (π : Platform) (db : Database) (now : ℕ) (block_page_ip : Option String) (managed : List String)
    → managed_rules π db now block_page_ip ≡ some managed
    → ((d ip : String)
        → In d (
            "use-application-dns.net" ∷ "cloudflare-dns.com" ∷ "mozilla.cloudflare-dns.com"
            ∷ "dns.google" ∷ "dns.quad9.net" ∷ "doh.opendns.com" ∷ "dns.nextdns.io"
            ∷ "doh.cleanbrowsing.org" ∷ [])
        → HasRule managed (deny_key d none) ip)
      × (8 ≤ length managed)
unfolding doh_key
managed_rules-baseline π db now block_page_ip managed h =
    let denied = λ (d ip : String) (m : In d doh_domains).
      (sources π db now block_page_ip managed h (deny_key d none) ip).one_of.1
        (inr (inr (inr (inl (build_anti_doh_rules-HasRule d ip m))))) in
    let bound =
      NoDup-length (map doh_key doh_domains) (map rule_key managed) doh_domains-NoDup (λ k i.
        let (d, m, e) = map-In doh_key k doh_domains i in
        subst (λ z. In z (map rule_key managed)) (sym e)
          (HasRule-rule_key managed (deny_key d none) "" (denied d "" m))) in
    (denied, subst (λ n. 8 ≤ n) (length-map rule_key managed) bound)
