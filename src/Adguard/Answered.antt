-- ===== src/Adguard/Answered.antt =====
-- Adguard/Categories: where rules are computed, no device's schedules have raised.
use opti_gate.Base.{ℕ, String, List, [], ◌∷◌, Option, some, Bool, true}
use opti_gate.Base.{◌≡◌, sym, ◌∙◌, subst, inl, inr, nat_eq}
use opti_gate.Base.{In}
use opti_gate.Base.{string_eq, >>=-eq-some, Bool-cases, false-true}
use opti_gate.Tables.{Database, Category, PolicyRow}
use opti_gate.Platform.{Platform}
use opti_gate.Adguard.Categories.{category_domain_patterns}
use opti_gate.Adguard.Categories.{is_scoped, category_blocks, applicable}
use opti_gate.Adguard.Categories.{rules_of_category, category_loop, build_category_deny_rules}

module _ (db : Database) (π : Platform) (now : ℕ) where
  -- Where the rules are computed, each device was asked about each category with patterns.
  applicable-answers :
      (c : Category) (rows : List PolicyRow) (ips : List String)
      → applicable db π now c rows ≡ some ips
      → (row : PolicyRow) → In row rows
      → (b : Bool) × (category_blocks db π now c row ≡ some b)
  unfolding applicable
  applicable-answers c [] ips h row m = absurd m
  applicable-answers c (r ∷ rows) ips h row m =
      let (b, e, k) = >>=-eq-some (category_blocks db π now c r) _ h in
      let (rest, e', _) = >>=-eq-some (applicable db π now c rows) _ k in
      elim m [
        | inl q ↦ (b, subst (λ z. category_blocks db π now c z ≡ some b) (sym q) e)
        | inr i ↦ applicable-answers c rows rest e' row i
      ]

  rules_of_category-answers :
      (block_page_ip : Option String) (devices : List PolicyRow) (c : Category)
      (patterns rules : List String)
      → rules_of_category db π now block_page_ip devices c patterns ≡ some rules
      → (pattern : String) → In pattern patterns
      → (row : PolicyRow) → In row devices
      → (b : Bool) × (category_blocks db π now c row ≡ some b)
  unfolding rules_of_category
  rules_of_category-answers block_page_ip devices c [] rules h pattern i row m = absurd i
  rules_of_category-answers block_page_ip devices c (q ∷ qs) rules h pattern i row m =
      let (ips, e, _) = >>=-eq-some (applicable db π now c devices) _ h in
      applicable-answers c devices ips e row m

  category_loop-answers :
      (block_page_ip : Option String) (devices : List PolicyRow) (categories : List Category)
      (rules : List String)
      → category_loop db π now block_page_ip devices categories ≡ some rules
      → (c : Category) → In c categories
      → is_scoped db c ≡ true
      → (pattern : String) → In pattern (category_domain_patterns db c.id)
      → (row : PolicyRow) → In row devices
      → (b : Bool) × (category_blocks db π now c row ≡ some b)
  unfolding category_loop
  category_loop-answers block_page_ip devices [] rules h c i t pattern p row m = absurd i
  category_loop-answers block_page_ip devices (d ∷ ds) rules h c i t pattern p row m =
      elim (Bool-cases (is_scoped db d)) [
        | inl x ↦
            let (first, e, l) =
              >>=-eq-some
                (rules_of_category db π now block_page_ip devices d
                  (category_domain_patterns db d.id))
                _ (rw x at h) in
            let (others, e', _) =
              >>=-eq-some (category_loop db π now block_page_ip devices ds) _ l in
            elim i [
              | inl q ↦
                  let e'' =
                    subst
                      (λ z.
                        rules_of_category db π now block_page_ip devices z
                          (category_domain_patterns db z.id)
                        ≡ some first)
                      (sym q) e in
                  rules_of_category-answers block_page_ip devices c _ first e'' pattern p row m
              | inr j ↦
                  category_loop-answers block_page_ip devices ds others e' c j t pattern p row m
            ]
        | inr x ↦ elim i [
          | inl q ↦ absurd (false-true (sym x ∙ subst (λ z. is_scoped db z ≡ true) q t))
          | inr j ↦
              category_loop-answers block_page_ip devices ds rules (rw x at h) c j t pattern p row m
        ]
      ]

  pub build_category_deny_rules-answers :
      (block_page_ip : Option String) (devices : List PolicyRow) (rules : List String)
      → build_category_deny_rules db π now block_page_ip devices ≡ some rules
      → (c : Category) → In c db.categories
      → is_scoped db c ≡ true
      → (pattern : String) → In pattern (category_domain_patterns db c.id)
      → (row : PolicyRow) → In row devices
      → (b : Bool) × (category_blocks db π now c row ≡ some b)
  unfolding build_category_deny_rules
  build_category_deny_rules-answers block_page_ip [] rules h c i t pattern p row m = absurd m
  build_category_deny_rules-answers block_page_ip (r ∷ rs) rules h c i t pattern p row m =
      category_loop-answers block_page_ip (r ∷ rs) db.categories rules h c i t pattern p row m
