-- ===== src/Adguard/Applicable.antt =====
-- Adguard/Categories: the applicable addresses of a category are those that a test picks.
use opti_gate.Base.{ℕ, String, List, [], ◌∷◌, Option, some, Bool, true, false, not, ◌==◌}
use opti_gate.Base.{◌≡◌, refl, sym, ap, ◌∙◌, subst, inl, inr, ◌↔◌, arith, from_option}
use opti_gate.Base.{In, map-In, filter-In, IsFree, map, nat_eq}
use opti_gate.Base.{if◌then◌else◌, >>=-eq-some, some_inj, filter, erase, contains, string_eq}
use opti_gate.Tables.{Database, Category, CategoryDomain, PolicyRow}
use opti_gate.Platform.{Platform}
use opti_gate.Adguard.Rule.{rule_body, split_rule}
use opti_gate.Adguard.RoundTrip.{parts}
use opti_gate.Adguard.Merge.{RuleKey}
use opti_gate.Adguard.Groups.{Reaches, HasRule}
use opti_gate.Adguard.Scoped.{addresses}
use opti_gate.Adguard.ScopedRules.{HasRule-cons}
use opti_gate.Adguard.Readings.{rewrite_suffix}
use opti_gate.Adguard.Denied.{deny_key}
use opti_gate.Adguard.Categories.{category_patterns, category_domain_patterns, overrides}
use opti_gate.Adguard.Categories.{category_blocks, applicable}

-- No pattern of a category has a slash.
abbrev pub HasPlainCategories : Database → Type 0
HasPlainCategories db = (d : CategoryDomain) → In d db.category_domains → IsFree b'/' d.pattern

pub category_domain_patterns-IsFree :
    (db : Database) (i : ℕ)
    → HasPlainCategories db
    → (pattern : String) → In pattern (category_domain_patterns db i)
    → IsFree b'/' pattern
unfolding category_domain_patterns category_patterns
category_domain_patterns-IsFree db i plain pattern m =
    let test = λ (pattern : String). not (contains (overrides db i) (erase b'\\' pattern)) in
    let (j, _) = filter-In test pattern (category_patterns db i) m in
    let (d, l, e) = map-In (λ (d : CategoryDomain). d.pattern) pattern _ j in
    let (l', _) = filter-In (λ (d : CategoryDomain). d.category_id == i) d db.category_domains l in
    subst (IsFree b'/') (sym e) (plain d l')

pub false-true : {b : Bool} → b ≡ false → b ≡ true → ⊥
false-true h k = cc

module _ (block_page_ip : Option String) (make : String → String)
    (clients : Option (List String)) where
  -- Rules of one kind, one for each pattern.
  pub HasRule-map :
      (patterns : List String)
      → ((pattern : String)
          → In pattern patterns
          → split_rule (make pattern)
            ≡ some (parts false (rule_body pattern) clients (rewrite_suffix block_page_ip)))
      → (k : RuleKey) (ip : String)
      → HasRule (map make patterns) k ip ↔ (
          (pattern : String) × In pattern patterns
          × (deny_key pattern block_page_ip ≡ k)
          × Reaches clients ip)
  HasRule-map [] h k ip = (λ m. absurd m.2, λ m. absurd m.1)
  HasRule-map (pattern ∷ patterns) h k ip =
      let c = HasRule-cons k ip (make pattern) _ (map make patterns) (h pattern (inl refl)) in
      let (f, g) = HasRule-map patterns (λ q i. h q (inr i)) k ip in
      (
        λ m. elim (c.0 m) [
          | inl (e, r) ↦ (pattern, inl refl, e, r)
          | inr i ↦ let (q, j, e, r) = f i in (q, inr j, e, r)
        ],
        λ (q, i, e, r). c.1 (elim i [
          | inl s ↦ inl (subst (λ z. deny_key z block_page_ip ≡ k) s e, r)
          | inr j ↦ inr (g (q, j, e, r))
        ]),
      )

module _ (db : Database) (π : Platform) (now : ℕ) where
  -- The test of a category, where no schedule raises.
  abbrev pub blocks : Category → PolicyRow → Bool
  blocks category row = from_option false (category_blocks db π now category row)

  pub blocks_iff :
      (category : Category) (row : PolicyRow)
      → (blocks category row ≡ true) ↔ (category_blocks db π now category row ≡ some true)
  blocks_iff category row = ground arith

  applicable_step :
      (category : Category) (row : PolicyRow) (b : Bool) (rows : List PolicyRow)
      (rest ips : List String)
      → category_blocks db π now category row ≡ some b
      → some (if b then row.ipv4_address ∷ rest else rest) ≡ some ips
      → rest ≡ addresses (blocks category) rows
      → ips ≡ addresses (blocks category) (row ∷ rows)
  unfolding addresses filter
  applicable_step category row true rows rest ips e h ih =
      rw e (sym (some_inj h) ∙ ap (◌∷◌ row.ipv4_address) ih)
  applicable_step category row false rows rest ips e h ih = rw e (sym (some_inj h) ∙ ih)

  pub applicable-addresses :
      (category : Category) (rows : List PolicyRow) (ips : List String)
      → applicable db π now category rows ≡ some ips
      → ips ≡ addresses (blocks category) rows
  unfolding applicable addresses
  applicable-addresses category [] ips h = sym (some_inj h)
  applicable-addresses category (row ∷ rows) ips h =
      let (b, e, k) = >>=-eq-some (category_blocks db π now category row) _ h in
      let (rest, e', k') = >>=-eq-some (applicable db π now category rows) _ k in
      applicable_step category row b rows rest ips e k' (applicable-addresses category rows rest e')
