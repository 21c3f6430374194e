-- ===== src/Adguard/Safety.antt =====
-- Adguard/Managed: what the managed block denies, whatever the other sources of rules add.
use opti_gate.Base.{ℕ, String, List, Option, some, false, map}
use opti_gate.Base.{◌≡◌, refl, inl, inr, ◌⊎◌, ◌↔◌, is_some, >>=-eq-some, In, NoDup}
use opti_gate.Tables.{Database, Domain, PolicyRow, splice, bump}
use opti_gate.Platform.{Platform}
use opti_gate.Matching.Grants.{device_domain_reason}
use opti_gate.Policy.Class.{bump_eligible}
use opti_gate.Adguard.Merge.{RuleKey}
use opti_gate.Adguard.Groups.{HasRule}
use opti_gate.Adguard.Merged.{rule_key, merge_duplicate_domain_rules-HasRule}
use opti_gate.Adguard.ScopedRules.{HasRule-append}
use opti_gate.Adguard.Devices.{fetch_eligible_devices}
use opti_gate.Adguard.Deny.{build_rules, build_splice_deny_rules, build_ech_strip_rules}
use opti_gate.Adguard.Denied.{deny_key, HasPlainPatterns, HasPlainAddresses, build_rules-HasRule}
use opti_gate.Adguard.Denied.{build_splice_deny_rules-HasRule}
use opti_gate.Adguard.Categories.{build_category_deny_rules, build_adguard_allow_rules}
use opti_gate.Adguard.Block.{build_anti_doh_rules}
use opti_gate.Adguard.Managed.{managed_rules}

-- One more source behind the first.
both : {P A B C : Type 0} → P ↔ (A ⊎ B) → B ↔ C → P ↔ (A ⊎ C)
both (f, g) (f', g') = (
  λ p. elim (f p) [ inl a ↦ inl a | inr b ↦ inr (f' b) ],
  λ m. elim m [ inl a ↦ g (inl a) | inr c ↦ g (inr (g' c)) ],
)

module _ (π : Platform) (db : Database) (now : ℕ) (block_page_ip : Option String)
    (managed : List String) (h : managed_rules π db now block_page_ip ≡ some managed) where
  abbrev devices : List PolicyRow
  devices = fetch_eligible_devices db

  -- A rule of one of the six sources, on an address.
  pub record Sources (k : RuleKey) (ip : String) : Type 0 where
    pub category_rules : List String
    pub computed : build_category_deny_rules db π now block_page_ip devices ≡ some category_rules
    pub one_of : HasRule managed k ip ↔ (
        HasRule (build_rules db block_page_ip devices) k ip
        ⊎ (HasRule (build_splice_deny_rules db block_page_ip devices) k ip
            ⊎ (HasRule category_rules k ip
                ⊎ (HasRule build_anti_doh_rules k ip
                    ⊎ (HasRule (build_ech_strip_rules db devices) k ip
                        ⊎ HasRule (build_adguard_allow_rules db devices) k ip)))))

  pub managed_rules-NoDup : NoDup (map rule_key managed)
  unfolding managed_rules
  managed_rules-NoDup =
      let (category_rules, e, l) =
        >>=-eq-some (build_category_deny_rules db π now block_page_ip devices) _ h in
      (merge_duplicate_domain_rules-HasRule _ managed l).0

  pub sources : (k : RuleKey) (ip : String) → Sources k ip
  unfolding managed_rules
  sources k ip =
      let (category_rules, e, l) =
        >>=-eq-some (build_category_deny_rules db π now block_page_ip devices) _ h in
      let merged = (merge_duplicate_domain_rules-HasRule _ managed l).1 k ip in
      let a = HasRule-append k ip in
      let (f, g) = both (a _ _) (both (a _ _) (both (a _ _) (both (a _ _) (a _ _)))) in
      record {
        category_rules = category_rules;
        computed = e;
        one_of = (λ m. f (merged.0 m), λ m. merged.1 (g m));
      }

  -- The block has one rule a key, and denies a domain in mode bump to the address of each eligible
  -- device which the domain is not assigned to or which is not eligible for bump, and one in mode
  -- splice to that of each which it is not assigned to. It is assumed that the block is computed,
  -- that no pattern of a domain has a slash and that no address has a comma or a bar.
  pub managed_rules-denies :
      HasPlainPatterns db
      → HasPlainAddresses (fetch_eligible_devices db)
      → NoDup (map rule_key managed)
        × ((d : Domain) (row : PolicyRow)
            → In d db.domains
            → In row (fetch_eligible_devices db)
            → ((d.mode ≡ bump)
                × ((is_some (device_domain_reason db row.device d) ≡ false)
                    ⊎ (bump_eligible row.device false ≡ false)))
              ⊎ ((d.mode ≡ splice) × (is_some (device_domain_reason db row.device d) ≡ false))
            → HasRule managed (deny_key d.pattern block_page_ip) row.ipv4_address)
  managed_rules-denies patterns plain = (
    managed_rules-NoDup,
    λ d row i j m.
        let k = deny_key d.pattern block_page_ip in
        let ip = row.ipv4_address in
        (sources k ip).one_of.1 (elim m [
          | inl (e, r) ↦ inl (
              (build_rules-HasRule db devices block_page_ip patterns plain k ip).1
                (d, i, e, refl, (row, j, refl, r)))
          | inr (e, r) ↦ inr (
              inl (
                (build_splice_deny_rules-HasRule db devices block_page_ip patterns plain k ip).1
                  (d, i, e, refl, (row, j, refl, r))))
        ]),
  )
