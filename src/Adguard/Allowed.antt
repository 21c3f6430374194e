-- ===== src/Adguard/Allowed.antt =====
-- Adguard/Categories: which devices the allow rules reach.
use opti_gate.Base.{String, List, [], ◌∷◌, none, some, Bool, true, ◌≤◌, ◌==◌}
use opti_gate.Base.{◌≡◌, refl, inl, inr, ◌↔◌, arith, is_some, Bool-cases}
use opti_gate.Base.{
  In, sort_by, In-sort_by, sort_by-In, leb, IsFree, length, filter, nat_eq, eq_of_beq,
}
use opti_gate.Tables.{Database, AllowlistEntry, PolicyRow}
use opti_gate.Matching.Grants.{device_allowlist_reason}
use opti_gate.Adguard.Rule.{rule_body}
use opti_gate.Adguard.RoundTrip.{parts}
use opti_gate.Adguard.Merge.{RuleKey}
use opti_gate.Adguard.Groups.{HasRule}
use opti_gate.Adguard.Scoped.{addresses}
use opti_gate.Adguard.ScopedRules.{In-addresses, IsReadable, HasRule-scoped_rules}
use opti_gate.Adguard.Readings.{split_rule-domain_allow_rule, split_rule-domain_allow_rule_unscoped}
use opti_gate.Adguard.Denied.{HasPlainAddresses, addresses-IsPlain}
use opti_gate.Adguard.Categories.{allow_rule, is_allowed, allow_rules, build_adguard_allow_rules}

-- The key of the allow rule of a pattern.
abbrev pub allow_key : String → RuleKey
allow_key pattern = record { is_allow = true; body = rule_body pattern; suffix = "" }

-- The address of one of the devices.
abbrev pub IsAddressOf : List PolicyRow → String → Type 0
IsAddressOf devices ip = (row : PolicyRow) × In row devices × (ip ≡ row.ipv4_address)

module _ (p : PolicyRow → Bool) where
  length-addresses : (rows : List PolicyRow) → length (addresses p rows) ≤ length rows
  unfolding addresses filter
  length-addresses [] = ground arith
  length-addresses (row ∷ rows) = elim (Bool-cases (p row)) [
    | inl e ↦ let h = length-addresses rows in rw e (ground arith)
    | inr e ↦ let h = length-addresses rows in rw e (ground arith)
  ]

  -- As many addresses as rows: the test picks every row.
  pub addresses-all :
      (rows : List PolicyRow)
      → length (addresses p rows) ≡ length rows
      → (row : PolicyRow) → In row rows
      → p row ≡ true
  unfolding addresses filter
  addresses-all [] h row m = absurd m
  addresses-all (r ∷ rows) h row m = elim (Bool-cases (p r)) [
    | inl e ↦ elim m [
      | inl q ↦ rw q e
      | inr i ↦ addresses-all rows (let k = rw e at h in omega arith) row i
    ]
    | inr e ↦ let k = length-addresses rows in let h' = rw e at h in absurd (omega arith)
  ]

-- No pattern of the allowlist has a slash.
abbrev pub HasPlainEntries : Database → Type 0
HasPlainEntries db =
    (entry : AllowlistEntry) → In entry db.adguard_allowlist → IsFree b'/' entry.pattern

module _ (db : Database) (devices : List PolicyRow) (plain : HasPlainAddresses devices) where
  allow_rules-IsReadable :
      (entry : AllowlistEntry)
      → IsFree b'/' entry.pattern
      → IsReadable
          (allow_rule db (length devices))
          (is_allowed db)
          devices
          (λ entry. allow_key entry.pattern)
          (IsAddressOf devices)
          entry
  unfolding allow_rule
  allow_rules-IsReadable entry free n =
      let test = is_allowed db entry in
      let ips = addresses test devices in
      elim (Bool-cases (length ips == length devices)) [
        | inl e ↦
            let every = addresses-all test devices (eq_of_beq (length ips) (length devices) e) in
            rw e (
              parts true (rule_body entry.pattern) none "",
              split_rule-domain_allow_rule_unscoped entry.pattern free,
              refl,
              λ ip (row, i, q).
                  (λ _. (In-addresses test devices ip).1 (row, i, every row i, q), λ _. tt),
            )
        | inr e ↦ rw e (
          parts true (rule_body entry.pattern) (some ips) "",
          split_rule-domain_allow_rule entry.pattern free ips
              (n, addresses-IsPlain test devices plain),
          refl,
          λ ip _. (λ i. i, λ i. i),
        )
      ]

-- For an address of an eligible device, a rule of `build_adguard_allow_rules` allows it under a key
-- exactly when the key is that of an allowlist entry and the address that of an eligible device
-- which the entry is for. It is assumed that no pattern has a slash and no address a comma or a bar.
pub build_adguard_allow_rules-HasRule :
    (db : Database) (devices : List PolicyRow)
    → HasPlainEntries db
    → HasPlainAddresses devices
    → (k : RuleKey) (ip : String) → IsAddressOf devices ip
    → HasRule (build_adguard_allow_rules db devices) k ip ↔ (
        (entry : AllowlistEntry) × In entry db.adguard_allowlist
        × (allow_key entry.pattern ≡ k)
        × ((row : PolicyRow) × In row devices
            × (is_some (device_allowlist_reason db row.device entry) ≡ true)
            × (ip ≡ row.ipv4_address)))
unfolding build_adguard_allow_rules allow_rules is_allowed
build_adguard_allow_rules-HasRule db [] patterns plain k ip (row, i, q) = absurd i
build_adguard_allow_rules-HasRule db (r ∷ rows) patterns plain k ip known =
    let before = λ (a b : AllowlistEntry). leb a.id b.id in
    let (f, g) =
      HasRule-scoped_rules (allow_rule db (length (r ∷ rows))) (is_allowed db) (r ∷ rows)
        (λ entry. allow_key entry.pattern) (IsAddressOf (r ∷ rows))
        (sort_by before db.adguard_allowlist)
        (λ entry m.
          allow_rules-IsReadable db (r ∷ rows) plain entry
            (patterns entry (sort_by-In before entry _ m)))
        k ip known in
    (
      λ m. let (entry, i, e, h) = f m in (entry, sort_by-In before entry _ i, e, h),
      λ (entry, i, e, h). g (entry, In-sort_by before entry _ i, e, h),
    )
