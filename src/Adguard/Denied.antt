-- ===== src/Adguard/Denied.antt =====
-- Adguard/Deny: which devices the deny rules and the rules that withhold a record reach.
use opti_gate.Base.{String, List, [], ◌∷◌, Option, Bool, true, false, not}
use opti_gate.Base.{◌≡◌, refl, sym, subst, inl, inr, ◌⊎◌, ◌↔◌, arith, is_some, Bool-cases}
use opti_gate.Base.{In, In-filter, filter-In, In-sort_by, sort_by-In, leb, IsFree}
use opti_gate.Tables.{Database, Domain, Mode, PolicyRow, splice, bump, trusted}
use opti_gate.Matching.Grants.{device_domain_reason}
use opti_gate.Policy.Class.{bump_eligible}
use opti_gate.Adguard.Rule.{rule_body, domain_rule, ech_strip_rule}
use opti_gate.Adguard.Merge.{RuleKey}
use opti_gate.Adguard.Merging.{IsPlain}
use opti_gate.Adguard.Groups.{HasRule}
use opti_gate.Adguard.Scoped.{addresses}
use opti_gate.Adguard.ScopedRules.{IsPicked, In-addresses, IsReadable, HasRule-scoped_rules}
use opti_gate.Adguard.Readings.{rewrite_suffix, split_rule-domain_rule}
use opti_gate.Adguard.Readings.{split_rule-ech_strip_rule}
use opti_gate.Adguard.Deny.{mode_beq, domains_in_mode, is_authorized, deny_rules, build_rules}
use opti_gate.Adguard.Deny.{build_domain_deny_rules, build_splice_deny_rules, is_stripped}
use opti_gate.Adguard.Deny.{strip_rules, build_ech_strip_rules}

-- The key of the deny rules of a pattern.
abbrev pub deny_key : String → Option String → RuleKey
deny_key pattern block_page_ip = record {
  is_allow = false;
  body = rule_body pattern;
  suffix = rewrite_suffix block_page_ip;
}

-- The key of the rules that withhold the HTTPS record of a pattern.
abbrev pub strip_key : String → RuleKey
strip_key pattern = record { is_allow = false; body = rule_body pattern; suffix = "dnstype=HTTPS" }

-- No address of the devices has a comma or a bar.
abbrev pub HasPlainAddresses : List PolicyRow → Type 0
HasPlainAddresses devices = (row : PolicyRow) → In row devices → IsPlain row.ipv4_address

-- No pattern of a domain has a slash.
abbrev pub HasPlainPatterns : Database → Type 0
HasPlainPatterns db = (d : Domain) → In d db.domains → IsFree b'/' d.pattern

pub addresses-IsPlain :
    (p : PolicyRow → Bool) (devices : List PolicyRow)
    → HasPlainAddresses devices
    → (x : String) → In x (addresses p devices)
    → IsPlain x
addresses-IsPlain p devices plain x m =
    let (row, i, _, e) = (In-addresses p devices x).0 m in subst IsPlain (sym e) (plain row i)

mode_beq-eq : (a b : Mode) → mode_beq a b ≡ true → a ≡ b
mode_beq-eq splice b h = ground arith
mode_beq-eq bump b h = ground arith
mode_beq-eq trusted b h = ground arith

mode_beq_refl : (a : Mode) → mode_beq a a ≡ true
mode_beq_refl splice = refl
mode_beq_refl bump = refl
mode_beq_refl trusted = refl

module _ (db : Database) where
  pub In-domains_in_mode :
      (mode : Mode) (d : Domain)
      → In d (domains_in_mode db mode) ↔ (In d db.domains × (d.mode ≡ mode))
  unfolding domains_in_mode
  In-domains_in_mode mode d =
      let test = λ (d : Domain). mode_beq d.mode mode in
      let before = λ (a b : Domain). leb a.id b.id in
      (
        λ m.
            let (i, e) = filter-In test d db.domains (sort_by-In before d _ m) in
            (i, mode_beq-eq d.mode mode e),
        λ (i, e). In-sort_by before d _ (
            In-filter test d db.domains i
              (subst (λ z. mode_beq d.mode z ≡ true) e (mode_beq_refl d.mode))),
      )

  module _ (patterns : HasPlainPatterns db) (devices : List PolicyRow)
      (plain : HasPlainAddresses devices) where
    pub deny_rules-IsReadable :
        (require_bump_eligible : Bool) (block_page_ip : Option String) (d : Domain)
        → In d db.domains
        → IsReadable
            (λ (d : Domain) ips. domain_rule d.pattern ips block_page_ip)
            (λ d row. not (is_authorized db require_bump_eligible d row))
            devices
            (λ d. deny_key d.pattern block_page_ip)
            (λ ip. Unit)
            d
    deny_rules-IsReadable require_bump_eligible block_page_ip d m n =
        let test = λ (row : PolicyRow). not (is_authorized db require_bump_eligible d row) in
        (
          _,
          split_rule-domain_rule d.pattern (patterns d m) block_page_ip (addresses test devices)
              (n, addresses-IsPlain test devices plain),
          refl,
          λ ip _. (λ i. i, λ i. i),
        )

    pub strip_rules-IsReadable :
        (d : Domain)
        → In d db.domains
        → IsReadable
            (λ (d : Domain) ips. ech_strip_rule d.pattern ips)
            (is_stripped db)
            devices
            (λ d. strip_key d.pattern)
            (λ ip. Unit)
            d
    strip_rules-IsReadable d m n = (
      _,
      split_rule-ech_strip_rule d.pattern (patterns d m) (addresses (is_stripped db d) devices)
          (n, addresses-IsPlain (is_stripped db d) devices plain),
      refl,
      λ ip _. (λ i. i, λ i. i),
    )

    In-mode : (mode : Mode) (d : Domain) → In d (domains_in_mode db mode) → In d db.domains
    In-mode mode d m = ((In-domains_in_mode mode d).0 m).0

  abbrev IsDomainFor :
      (Domain → PolicyRow → Bool)
      → (Domain → RuleKey)
      → Mode
      → List PolicyRow
      → RuleKey
      → String
      → Type 0
  IsDomainFor picks key mode devices k ip =
      (d : Domain) × In d db.domains × (d.mode ≡ mode) × (key d ≡ k) × IsPicked (picks d) devices ip

  In-table :
      (picks : Domain → PolicyRow → Bool) (key : Domain → RuleKey) (mode : Mode)
      (devices : List PolicyRow) (k : RuleKey) (ip : String) (P : Type 0)
      → P ↔ (
          (d : Domain) × In d (domains_in_mode db mode)
          × (key d ≡ k)
          × IsPicked (picks d) devices ip)
      → P ↔ IsDomainFor picks key mode devices k ip
  In-table picks key mode devices k ip P (f, g) = (
    λ m. let (d, i, e, h) = f m in let (j, l) = (In-domains_in_mode mode d).0 i in (d, j, l, e, h),
    λ (d, j, l, e, h). g (d, (In-domains_in_mode mode d).1 (j, l), e, h),
  )

  build_domain_deny_rules-HasRule :
      (devices : List PolicyRow) (mode : Mode) (flag : Bool) (block_page_ip : Option String)
      → HasPlainPatterns db
      → HasPlainAddresses devices
      → (k : RuleKey) (ip : String)
      → HasRule (build_domain_deny_rules db mode flag block_page_ip devices) k ip
        ↔ IsDomainFor
            (λ d row. not (is_authorized db flag d row))
            (λ d. deny_key d.pattern block_page_ip)
            mode
            devices
            k
            ip
  unfolding build_domain_deny_rules deny_rules
  build_domain_deny_rules-HasRule [] mode flag block_page_ip patterns plain k ip =
      (λ m. absurd m.2, λ (d, i, e, q, (row, j, h, a)). absurd j)
  build_domain_deny_rules-HasRule (row ∷ rows) mode flag block_page_ip patterns plain k ip =
      In-table (λ d row. not (is_authorized db flag d row)) (λ d. deny_key d.pattern block_page_ip)
        mode (row ∷ rows) k ip _
        (HasRule-scoped_rules (λ (d : Domain) ips. domain_rule d.pattern ips block_page_ip)
          (λ d row. not (is_authorized db flag d row)) (row ∷ rows)
          (λ d. deny_key d.pattern block_page_ip) (λ ip. Unit) (domains_in_mode db mode)
          (λ d m.
            deny_rules-IsReadable patterns (row ∷ rows) plain flag block_page_ip d
              (In-mode patterns (row ∷ rows) plain mode d m))
          k ip tt)

  refused :
      (d : Domain) (row : PolicyRow)
      → (not (is_authorized db true d row) ≡ true) ↔ (
          (is_some (device_domain_reason db row.device d) ≡ false)
          ⊎ (bump_eligible row.device false ≡ false))
  unfolding is_authorized
  refused d row = (
    λ h. elim (Bool-cases (is_some (device_domain_reason db row.device d))) [
      | inl e ↦ inr (ground arith)
      | inr e ↦ inl e
    ],
    λ m. elim m [ inl e ↦ ground arith | inr e ↦ ground arith ],
  )

  -- A rule of `build_rules` denies an address under a key exactly when the key is that of a domain
  -- in mode bump and the address that of an eligible device which the domain is not assigned to, or
  -- which is not eligible for bump. It is assumed that no pattern of a domain has a slash and no
  -- address a comma or a bar.
  pub build_rules-HasRule :
      (devices : List PolicyRow) (block_page_ip : Option String)
      → HasPlainPatterns db
      → HasPlainAddresses devices
      → (k : RuleKey) (ip : String)
      → HasRule (build_rules db block_page_ip devices) k ip ↔ (
          (d : Domain) × In d db.domains
          × (d.mode ≡ bump)
          × (deny_key d.pattern block_page_ip ≡ k)
          × ((row : PolicyRow) × In row devices
              × (ip ≡ row.ipv4_address)
              × ((is_some (device_domain_reason db row.device d) ≡ false)
                  ⊎ (bump_eligible row.device false ≡ false))))
  unfolding build_rules
  build_rules-HasRule devices block_page_ip patterns plain k ip =
      let (f, g) =
        build_domain_deny_rules-HasRule devices bump true block_page_ip patterns plain k ip in
      (
        λ m.
            let (d, i, e, q, (row, j, h, a)) = f m in
            (d, i, e, q, (row, j, a, (refused d row).0 h)),
        λ (d, i, e, q, (row, j, a, h)). g (d, i, e, q, (row, j, (refused d row).1 h, a)),
      )

  refused_splice :
      (d : Domain) (row : PolicyRow)
      → (not (is_authorized db false d row) ≡ true)
        ↔ (is_some (device_domain_reason db row.device d) ≡ false)
  unfolding is_authorized
  refused_splice d row = (λ h. ground arith, λ e. ground arith)

  -- A rule of `build_splice_deny_rules` denies an address under a key exactly when the key is that
  -- of a domain in mode splice and the address that of an eligible device which the domain is not
  -- assigned to. It is assumed that no pattern has a slash and no address a comma or a bar.
  pub build_splice_deny_rules-HasRule :
      (devices : List PolicyRow) (block_page_ip : Option String)
      → HasPlainPatterns db
      → HasPlainAddresses devices
      → (k : RuleKey) (ip : String)
      → HasRule (build_splice_deny_rules db block_page_ip devices) k ip ↔ (
          (d : Domain) × In d db.domains
          × (d.mode ≡ splice)
          × (deny_key d.pattern block_page_ip ≡ k)
          × ((row : PolicyRow) × In row devices
              × (ip ≡ row.ipv4_address)
              × (is_some (device_domain_reason db row.device d) ≡ false)))
  unfolding build_splice_deny_rules
  build_splice_deny_rules-HasRule devices block_page_ip patterns plain k ip =
      let (f, g) =
        build_domain_deny_rules-HasRule devices splice false block_page_ip patterns plain k ip in
      (
        λ m.
            let (d, i, e, q, (row, j, h, a)) = f m in
            (d, i, e, q, (row, j, a, (refused_splice d row).0 h)),
        λ (d, i, e, q, (row, j, a, h)). g (d, i, e, q, (row, j, (refused_splice d row).1 h, a)),
      )

  stripped :
      (d : Domain) (row : PolicyRow)
      → (is_stripped db d row ≡ true) ↔ (
          (is_some (device_domain_reason db row.device d) ≡ true)
          × (bump_eligible row.device false ≡ true))
  unfolding is_stripped
  stripped d row = (λ h. (ground arith, ground arith), λ (a, b). ground arith)

  -- A rule of `build_ech_strip_rules` withholds the HTTPS record from an address under a key exactly
  -- when the key is that of a domain in mode bump and the address that of an eligible device which
  -- is eligible for bump and which the domain is assigned to. It is assumed that no pattern has a
  -- slash and no address a comma or a bar.
  pub build_ech_strip_rules-HasRule :
      (devices : List PolicyRow)
      → HasPlainPatterns db
      → HasPlainAddresses devices
      → (k : RuleKey) (ip : String)
      → HasRule (build_ech_strip_rules db devices) k ip ↔ (
          (d : Domain) × In d db.domains
          × (d.mode ≡ bump)
          × (strip_key d.pattern ≡ k)
          × ((row : PolicyRow) × In row devices
              × (ip ≡ row.ipv4_address)
              × (is_some (device_domain_reason db row.device d) ≡ true)
              × (bump_eligible row.device false ≡ true)))
  unfolding build_ech_strip_rules strip_rules
  build_ech_strip_rules-HasRule [] patterns plain k ip =
      (λ m. absurd m.2, λ (d, i, e, q, (row, j, a, b, c)). absurd j)
  build_ech_strip_rules-HasRule (r ∷ rows) patterns plain k ip =
      let (f, g) =
        In-table (is_stripped db) (λ d. strip_key d.pattern) bump (r ∷ rows) k ip _
          (HasRule-scoped_rules (λ (d : Domain) ips. ech_strip_rule d.pattern ips) (is_stripped db)
            (r ∷ rows) (λ d. strip_key d.pattern) (λ ip. Unit) (domains_in_mode db bump)
            (λ d m.
              strip_rules-IsReadable patterns (r ∷ rows) plain d
                (In-mode patterns (r ∷ rows) plain bump d m))
            k ip tt) in
      (
        λ m.
            let (d, i, e, q, (row, j, h, a)) = f m in
            let (x, y) = (stripped d row).0 h in (d, i, e, q, (row, j, a, x, y)),
        λ (d, i, e, q, (row, j, a, x, y)). g (d, i, e, q, (row, j, (stripped d row).1 (x, y), a)),
      )
