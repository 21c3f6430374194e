-- ===== src/Adguard/Blocked.antt =====
-- Adguard/Categories: which devices the rules of a category reach.
use opti_gate.Base.{ℕ, String, List, [], ◌∷◌, Option, none, some, true, ◌==◌}
use opti_gate.Base.{◌≡◌, refl, sym, ap, ◌∙◌, subst, inl, inr, ◌↔◌}
use opti_gate.Base.{In, IsFree, length, nat_eq, eq_of_beq, Bool-cases}
use opti_gate.Base.{>>=-eq-some, some_inj, string_eq}
use opti_gate.Tables.{Database, Category, PolicyRow}
use opti_gate.Platform.{Platform}
use opti_gate.Adguard.Rule.{domain_rule, domain_rule_unscoped}
use opti_gate.Adguard.Merge.{RuleKey}
use opti_gate.Adguard.Groups.{HasRule}
use opti_gate.Adguard.ScopedRules.{In-addresses, HasRule-append}
use opti_gate.Adguard.Readings.{split_rule-domain_rule}
use opti_gate.Adguard.Readings.{split_rule-domain_rule_unscoped}
use opti_gate.Adguard.Denied.{deny_key, HasPlainAddresses, addresses-IsPlain}
use opti_gate.Adguard.Allowed.{IsAddressOf, addresses-all}
use opti_gate.Adguard.Categories.{category_domain_patterns, is_scoped}
use opti_gate.Adguard.Categories.{category_blocks, applicable, category_rules, rules_of_category}
use opti_gate.Adguard.Categories.{category_loop, build_category_deny_rules}
use opti_gate.Adguard.Applicable.{HasPlainCategories, category_domain_patterns-IsFree}
use opti_gate.Adguard.Applicable.{false-true, HasRule-map, blocks, blocks_iff, applicable-addresses}

module _ (db : Database) (π : Platform) (now : ℕ) (devices : List PolicyRow)
    (block_page_ip : Option String) where
  -- The category is small enough, has the pattern, and blocks a device at the address.
  abbrev pub IsBlocked : Category → RuleKey → String → Type 0
  IsBlocked category k ip =
      (is_scoped db category ≡ true)
      × ((pattern : String) × In pattern (category_domain_patterns db category.id)
          × (deny_key pattern block_page_ip ≡ k))
      × ((row : PolicyRow) × In row devices
          × (category_blocks db π now category row ≡ some true)
          × (ip ≡ row.ipv4_address))

module _ (db : Database) (π : Platform) (now : ℕ) where
  module _ (devices : List PolicyRow) (plain : HasPlainAddresses devices)
      (block_page_ip : Option String) where
    category_rules-HasRule :
        (category : Category) (patterns ips : List String)
        → applicable db π now category devices ≡ some ips
        → ((pattern : String) → In pattern patterns → IsFree b'/' pattern)
        → (k : RuleKey) (ip : String) → IsAddressOf devices ip
        → HasRule (category_rules db π now block_page_ip (length devices) ips patterns) k ip ↔ (
            (pattern : String) × In pattern patterns
            × (deny_key pattern block_page_ip ≡ k)
            × In ip ips)
    unfolding category_rules
    category_rules-HasRule category patterns [] e free k ip known =
        (λ m. absurd m.2, λ m. absurd m.3)
    category_rules-HasRule category patterns (x ∷ xs) e free k ip known =
        let ips = x ∷ xs in
        let same = applicable-addresses db π now category devices ips e in
        elim (Bool-cases (length ips == length devices)) [
          | inl t ↦
              let full = ap length (sym same) ∙ eq_of_beq (length ips) (length devices) t in
              let (row, i, q) = known in
              let every = addresses-all (blocks db π now category) devices full row i in
              let reached =
                subst (In ip) (sym same)
                  ((In-addresses (blocks db π now category) devices ip).1 (row, i, every, q)) in
              let (f, g) =
                HasRule-map block_page_ip (λ pattern. domain_rule_unscoped pattern block_page_ip)
                  none patterns
                  (λ pattern m.
                    split_rule-domain_rule_unscoped pattern (free pattern m) block_page_ip)
                  k ip in
              rw t (
                λ m. let (pattern, j, e, _) = f m in (pattern, j, e, reached),
                λ (pattern, j, e, _). g (pattern, j, e, tt),
              )
          | inr t ↦ rw t (
              HasRule-map block_page_ip (λ pattern. domain_rule pattern ips block_page_ip)
                (some ips) patterns
                (λ pattern m. split_rule-domain_rule pattern (free pattern m) block_page_ip ips (
                  (x, inl refl),
                  λ y l.
                      addresses-IsPlain (blocks db π now category) devices plain y
                        (subst (In y) same l),
                ))
                k ip)
        ]

    rules_of_category-HasRule :
        (category : Category) (patterns rules : List String)
        → rules_of_category db π now block_page_ip devices category patterns ≡ some rules
        → ((pattern : String) → In pattern patterns → IsFree b'/' pattern)
        → (k : RuleKey) (ip : String) → IsAddressOf devices ip
        → HasRule rules k ip ↔ (
            ((pattern : String) × In pattern patterns × (deny_key pattern block_page_ip ≡ k))
            × ((row : PolicyRow) × In row devices
                × (category_blocks db π now category row ≡ some true)
                × (ip ≡ row.ipv4_address)))
    unfolding rules_of_category
    rules_of_category-HasRule category [] rules h free k ip known =
        (λ m. absurd (subst (λ z. HasRule z k ip) (sym (some_inj h)) m).2, λ m. absurd m.0.1)
    rules_of_category-HasRule category (q ∷ qs) rules h free k ip known =
        let (ips, e, l) = >>=-eq-some (applicable db π now category devices) _ h in
        let (f, g) = category_rules-HasRule category (q ∷ qs) ips e free k ip known in
        let same = applicable-addresses db π now category devices ips e in
        let a = In-addresses (blocks db π now category) devices ip in
        (
          λ m.
              let (pattern, i, s, r) = f (subst (λ z. HasRule z k ip) (sym (some_inj l)) m) in
              let (row, j, b, t) = a.0 (subst (In ip) same r) in
              ((pattern, i, s), (row, j, (blocks_iff db π now category row).0 b, t)),
          λ ((pattern, i, s), (row, j, b, t)).
              subst (λ z. HasRule z k ip) (some_inj l)
                (g (
                  pattern,
                  i,
                  s,
                  subst (In ip) (sym same)
                      (a.1 (row, j, (blocks_iff db π now category row).1 b, t)),
                )),
        )

    category_loop-HasRule :
        (plain_patterns : HasPlainCategories db) (categories : List Category) (rules : List String)
        → category_loop db π now block_page_ip devices categories ≡ some rules
        → (k : RuleKey) (ip : String) → IsAddressOf devices ip
        → HasRule rules k ip
          ↔ ((c : Category) × In c categories × IsBlocked db π now devices block_page_ip c k ip)
    unfolding category_loop
    category_loop-HasRule plain_patterns [] rules h k ip known =
        (λ m. absurd (subst (λ z. HasRule z k ip) (sym (some_inj h)) m).2, λ m. absurd m.1)
    category_loop-HasRule plain_patterns (c ∷ cs) rules h k ip known =
        elim (Bool-cases (is_scoped db c)) [
          | inl t ↦
              let (first, e, l) =
                >>=-eq-some
                  (rules_of_category db π now block_page_ip devices c
                    (category_domain_patterns db c.id))
                  _ (rw t at h) in
              let (others, e', l') =
                >>=-eq-some (category_loop db π now block_page_ip devices cs) _ l in
              let (f, g) =
                rules_of_category-HasRule c (category_domain_patterns db c.id) first e
                  (category_domain_patterns-IsFree db c.id plain_patterns) k ip known in
              let (f', g') = category_loop-HasRule plain_patterns cs others e' k ip known in
              let both = HasRule-append k ip first others in
              let q = some_inj l' in
              (
                λ m. elim (both.0 (subst (λ z. HasRule z k ip) (sym q) m)) [
                  | inl i ↦ let (x, y) = f i in (c, inl refl, (t, x, y))
                  | inr i ↦ let (d, j, x) = f' i in (d, inr j, x)
                ],
                λ (d, j, x).
                    subst (λ z. HasRule z k ip) q
                      (both.1 (elim j [
                        | inl r ↦
                            let (_, y, z) =
                              subst (λ w. IsBlocked db π now devices block_page_ip w k ip) r x in
                            inl (g (y, z))
                        | inr i ↦ inr (g' (d, i, x))
                      ])),
              )
          | inr t ↦
              let (f', g') = category_loop-HasRule plain_patterns cs rules (rw t at h) k ip known in
              (
                λ m. let (d, j, x) = f' m in (d, inr j, x),
                λ (d, j, x). elim j [
                  | inl r ↦ absurd (
                      false-true t
                        (subst (λ w. IsBlocked db π now devices block_page_ip w k ip) r x).0)
                  | inr i ↦ g' (d, i, x)
                ],
              )
        ]

-- Where no schedule raises, a category rule denies the address of an eligible device under a key
-- exactly when some category has at most 5000 patterns, has that key's pattern, not overridden, and
-- blocks a device at the address: the category applies to the device, or a gating schedule does
-- that is active for it. It is assumed that no pattern has a slash and no address a comma or a bar.
pub build_category_deny_rules-IsBlocked :
    (db : Database) (π : Platform) (now : ℕ) (devices : List PolicyRow)
    (block_page_ip : Option String) (rules : List String)
    → HasPlainCategories db
    → HasPlainAddresses devices
    → build_category_deny_rules db π now block_page_ip devices ≡ some rules
    → (k : RuleKey) (ip : String) → IsAddressOf devices ip
    → HasRule rules k ip
      ↔ ((c : Category) × In c db.categories × IsBlocked db π now devices block_page_ip c k ip)
unfolding build_category_deny_rules
build_category_deny_rules-IsBlocked db π now [] block_page_ip rules patterns plain h k ip
      (row, i, q) =
    absurd i
build_category_deny_rules-IsBlocked db π now (r ∷ rows) block_page_ip rules patterns plain h k ip
      known =
    category_loop-HasRule db π now (r ∷ rows) plain block_page_ip patterns db.categories rules h k
      ip known
