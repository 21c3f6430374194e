-- ===== src/Adguard/ScopedRules.antt =====
-- Adguard/Scoped: whom the rules of the shared loop reach.
use opti_gate.Base.{String, List, [], ◌∷◌, ◌++◌, some, Bool, true, map, filter}
use opti_gate.Base.{◌≡◌, refl, sym, ap, ◌∙◌, subst, inl, inr, ◌⊎◌, ◌↔◌, some_inj}
use opti_gate.Base.{In, In-map, map-In, In-filter, filter-In, In-append_left, In-append_right}
use opti_gate.Base.{append-In}
use opti_gate.Tables.{PolicyRow}
use opti_gate.Adguard.Rule.{RuleParts, split_rule}
use opti_gate.Adguard.Merge.{RuleKey, key_of}
use opti_gate.Adguard.Groups.{Reaches, HasRule}
use opti_gate.Adguard.Scoped.{addresses, unless_empty, scoped_rules}

module _ (k : RuleKey) (ip : String) where
  pub HasRule-append :
      (xs ys : List String) → HasRule (xs ++ ys) k ip ↔ (HasRule xs k ip ⊎ HasRule ys k ip)
  HasRule-append xs ys = (
    λ (r, p, m, e, f, c). elim (append-In r xs ys m) [
      | inl i ↦ inl (r, p, i, e, f, c)
      | inr i ↦ inr (r, p, i, e, f, c)
    ],
    λ m. elim m [
      | inl (r, p, i, e, f, c) ↦ (r, p, In-append_left r xs ys i, e, f, c)
      | inr (r, p, i, e, f, c) ↦ (r, p, In-append_right r xs ys i, e, f, c)
    ],
  )

  pub HasRule-cons :
      (rule : String) (p : RuleParts) (rules : List String)
      → split_rule rule ≡ some p
      → HasRule (rule ∷ rules) k ip
        ↔ (((key_of p ≡ k) × Reaches p.client_ips ip) ⊎ HasRule rules k ip)
  HasRule-cons rule p rules e = (
    λ (r, q, m, e', f, c). elim m [
      | inl i ↦
          let same : q ≡ p = some_inj (sym e' ∙ (ap split_rule i ∙ e)) in
          inl (subst (λ z. (key_of z ≡ k) × Reaches z.client_ips ip) same (f, c))
      | inr i ↦ inr (r, q, i, e', f, c)
    ],
    λ m. elim m [
      | inl (f, c) ↦ (rule, p, inl refl, e, f, c)
      | inr (r, q, i, e', f, c) ↦ (r, q, inr i, e', f, c)
    ],
  )

-- A picked row has the address.
abbrev pub IsPicked : (PolicyRow → Bool) → List PolicyRow → String → Type 0
IsPicked p rows ip = (row : PolicyRow) × In row rows × (p row ≡ true) × (ip ≡ row.ipv4_address)

pub In-addresses :
    (p : PolicyRow → Bool) (rows : List PolicyRow) (ip : String)
    → In ip (addresses p rows) ↔ IsPicked p rows ip
unfolding addresses
In-addresses p rows ip = (
  λ m.
      let (row, i, e) = map-In (λ (row : PolicyRow). row.ipv4_address) ip (filter p rows) m in
      let (j, f) = filter-In p row rows i in (row, j, f, e),
  λ (row, i, f, e).
      subst (λ z. In z (map (λ (row : PolicyRow). row.ipv4_address) (filter p rows))) (sym e)
        (In-map (λ (row : PolicyRow). row.ipv4_address) row (filter p rows)
          (In-filter p row rows i f)),
)

module _ {A : Type 0} (make : A → List String → String) (picks : A → PolicyRow → Bool)
    (devices : List PolicyRow) (key : A → RuleKey) (IsKnown : String → Type 0) where
  -- The rule of an entry is read with the entry's key, and reaches the addresses that it is for.
  abbrev pub IsReadable : A → Type 0
  IsReadable a =
      let ips = addresses (picks a) devices in
      ((x : String) × In x ips)
      → (p : RuleParts) × (split_rule (make a ips) ≡ some p)
        × (key_of p ≡ key a)
        × ((ip : String) → IsKnown ip → Reaches p.client_ips ip ↔ In ip ips)

  abbrev pub IsFor : List A → RuleKey → String → Type 0
  IsFor entries k ip = (a : A) × In a entries × (key a ≡ k) × IsPicked (picks a) devices ip

  IsFor-cons :
      (a : A) (entries : List A) (k : RuleKey) (ip : String)
      → IsFor (a ∷ entries) k ip
        ↔ (((key a ≡ k) × In ip (addresses (picks a) devices)) ⊎ IsFor entries k ip)
  IsFor-cons a entries k ip = (
    λ (b, m, e, f). elim m [
      | inl i ↦ inl (
          subst (λ z. (key z ≡ k) × In ip (addresses (picks z) devices)) i
            (e, (In-addresses (picks b) devices ip).1 f))
      | inr i ↦ inr (b, i, e, f)
    ],
    λ m. elim m [
      | inl (e, i) ↦ (a, inl refl, e, (In-addresses (picks a) devices ip).0 i)
      | inr (b, i, e, f) ↦ (b, inr i, e, f)
    ],
  )

  one_rule :
      (a : A) (ips rest : List String) (k : RuleKey) (ip : String)
      → (((x : String) × In x ips)
          → (p : RuleParts) × (split_rule (make a ips) ≡ some p)
            × (key_of p ≡ key a)
            × (Reaches p.client_ips ip ↔ In ip ips))
      → HasRule (unless_empty (make a) ips rest) k ip
        ↔ (((key a ≡ k) × In ip ips) ⊎ HasRule rest k ip)
  one_rule a [] rest k ip h = (inr, λ m. elim m [ inl (e, z) ↦ absurd z | inr i ↦ i ])
  one_rule a (x ∷ xs) rest k ip h =
      let (p, e, q, r) = h (x, inl refl) in
      let c = HasRule-cons k ip (make a (x ∷ xs)) p rest e in
      (
        λ m. elim (c.0 m) [ inl (f, i) ↦ inl (sym q ∙ f, r.0 i) | inr i ↦ inr i ],
        λ m. c.1 (elim m [ inl (f, i) ↦ inl (q ∙ f, r.1 i) | inr i ↦ inr i ]),
      )

  pub HasRule-scoped_rules :
      (entries : List A)
      → ((a : A) → In a entries → IsReadable a)
      → (k : RuleKey) (ip : String) → IsKnown ip
      → HasRule (scoped_rules make picks devices entries) k ip ↔ IsFor entries k ip
  unfolding scoped_rules
  HasRule-scoped_rules [] h k ip known = (λ m. absurd m.2, λ m. absurd m.1)
  HasRule-scoped_rules (a ∷ entries) h k ip known =
      let rest = scoped_rules make picks devices entries in
      let one =
        one_rule a (addresses (picks a) devices) rest k ip
          (λ n. let (p, e, q, r) = h a (inl refl) n in (p, e, q, r ip known)) in
      let split = IsFor-cons a entries k ip in
      let ih = HasRule-scoped_rules entries (λ b m. h b (inr m)) k ip known in
      (
        λ m. split.1 (elim (one.0 m) [ inl i ↦ inl i | inr i ↦ inr (ih.0 i) ]),
        λ m. one.1 (elim (split.0 m) [ inl i ↦ inl i | inr i ↦ inr (ih.1 i) ]),
      )

  unless_empty-In :
      (a : A) (ips rest : List String) (rule : String)
      → In rule (unless_empty (make a) ips rest)
      → (((x : String) × In x ips) × (rule ≡ make a ips)) ⊎ In rule rest
  unless_empty-In a [] rest rule m = inr m
  unless_empty-In a (x ∷ xs) rest rule (inl e) = inl ((x, inl refl), e)
  unless_empty-In a (x ∷ xs) rest rule (inr i) = inr i

  -- Every rule of the loop can be read.
  pub scoped_rules-read :
      (entries : List A)
      → ((a : A) → In a entries → IsReadable a)
      → (rule : String) → In rule (scoped_rules make picks devices entries)
      → (p : RuleParts) × (split_rule rule ≡ some p)
  unfolding scoped_rules
  scoped_rules-read [] h rule m = absurd m
  scoped_rules-read (a ∷ entries) h rule m =
      elim (unless_empty-In a (addresses (picks a) devices) _ rule m) [
        | inl (n, e) ↦ let (p, r, _, _) = h a (inl refl) n in (p, ap split_rule e ∙ r)
        | inr i ↦ scoped_rules-read entries (λ b j. h b (inr j)) rule i
      ]
