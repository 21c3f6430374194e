-- ===== src/Adguard/Groups.antt =====
-- Adguard/Merge: the addresses that the groups of rules reach are those that the rules reach.
use opti_gate.Base.{String, List, [], ◌∷◌, ◌++◌, Option, none, some, true}
use opti_gate.Base.{◌≡◌, refl, sym, ap, ◌∙◌, subst, inl, inr, ◌⊎◌, ◌↔◌, arith}
use opti_gate.Base.{In, In-append_left, In-append_right, append-In, contains}
use opti_gate.Base.{Bool-cases, >>=-eq-some, some_inj, contains-In, string_eq}
use opti_gate.Base.{eq_of_beq, beq_refl}
use opti_gate.Adguard.Rule.{RuleParts, split_rule}
use opti_gate.Adguard.Merge.{RuleKey, key_of, key_beq, RuleGroup, add_to_group, group_rules}
use opti_gate.Adguard.Merge.{add_unseen, union_of}

-- A rule's clients include the address; a rule without clients is for all.
abbrev pub Reaches : Option (List String) → String → Type 0
Reaches none ip = Unit
Reaches (some ips) ip = In ip ips

-- Some rule of the list has the key and reaches the address.
abbrev pub HasRule : List String → RuleKey → String → Type 0
HasRule rules key ip =
    (rule : String) × (p : RuleParts) × In rule rules
    × (split_rule rule ≡ some p)
    × (key_of p ≡ key)
    × Reaches p.client_ips ip

abbrev pub HasList : List (Option (List String)) → String → Type 0
HasList lists ip = (l : Option (List String)) × In l lists × Reaches l ip

abbrev pub HasGroup : List RuleGroup → RuleKey → String → Type 0
HasGroup groups key ip = (g : RuleGroup) × In g groups × (g.key ≡ key) × HasList g.client_lists ip

pub key_beq-eq : (a b : RuleKey) → key_beq a b ≡ true → a ≡ b
key_beq-eq a b h =
    let e : a.is_allow ≡ b.is_allow = ground arith in
    let f : a.body ≡ b.body = eq_of_beq a.body b.body (ground arith) in
    let k : a.suffix ≡ b.suffix = eq_of_beq a.suffix b.suffix (ground arith) in
    λ i. record { is_allow = e i; body = f i; suffix = k i }

pub key_beq_refl : (a : RuleKey) → key_beq a a ≡ true
key_beq_refl a = ground (arith, beq_refl a.body, beq_refl a.suffix)

module _ (ip : String) where
  pub In-add_unseen : (ips u : List String) → In ip (add_unseen ips u) ↔ (In ip ips ⊎ In ip u)
  unfolding add_unseen
  In-add_unseen [] u = (inr, λ m. elim m [ inl e ↦ absurd e | inr i ↦ i ])
  In-add_unseen (x ∷ ips) u = elim (Bool-cases (contains u x)) [
    | inl e ↦
        let (f, g) = In-add_unseen ips u in
        rw e (
          λ m. elim (f m) [ inl i ↦ inl (inr i) | inr i ↦ inr i ],
          λ m. elim m [
            | inl (inl q) ↦ g (inr (subst (λ z. In z u) (sym q) (contains-In x u e)))
            | inl (inr i) ↦ g (inl i)
            | inr i ↦ g (inr i)
          ],
        )
    | inr e ↦
        let (f, g) = In-add_unseen ips (u ++ (x ∷ [])) in
        rw e (
          λ m. elim (f m) [
            | inl i ↦ inl (inr i)
            | inr i ↦ elim (append-In ip u (x ∷ []) i) [
              | inl j ↦ inr j
              | inr (inl q) ↦ inl (inl q)
              | inr (inr z) ↦ absurd z
            ]
          ],
          λ m. elim m [
            | inl (inl q) ↦ g (inr (In-append_right ip u (x ∷ []) (inl q)))
            | inl (inr i) ↦ g (inl i)
            | inr i ↦ g (inr (In-append_left ip u (x ∷ []) i))
          ],
        )
  ]

  pub Reaches-union_of :
      (lists : List (Option (List String))) (u : List String)
      → Reaches (union_of lists u) ip ↔ (In ip u ⊎ HasList lists ip)
  unfolding union_of
  Reaches-union_of [] u = (inl, λ m. elim m [ inl i ↦ i | inr (l, i, r) ↦ absurd i ])
  Reaches-union_of (none ∷ lists) u = (λ m. inr (none, inl refl, tt), λ m. tt)
  Reaches-union_of (some ips ∷ lists) u =
      let (f, g) = Reaches-union_of lists (add_unseen ips u) in
      let (f', g') = In-add_unseen ips u in
      (
        λ m. elim (f m) [
          | inl i ↦ elim (f' i) [ inl j ↦ inr (some ips, inl refl, j) | inr j ↦ inl j ]
          | inr (l, i, r) ↦ inr (l, inr i, r)
        ],
        λ m. elim m [
          | inl i ↦ g (inl (g' (inr i)))
          | inr (l, inl q, r) ↦ g (inl (g' (inl (subst (λ z. Reaches z ip) q r))))
          | inr (l, inr i, r) ↦ g (inr (l, i, r))
        ],
      )

  module _ (key : RuleKey) where
    HasGroup-cons :
        (x : RuleGroup) (groups : List RuleGroup)
        → HasGroup (x ∷ groups) key ip
          ↔ (((x.key ≡ key) × HasList x.client_lists ip) ⊎ HasGroup groups key ip)
    HasGroup-cons x groups = (
      λ (g, m, e, h). elim m [
        | inl q ↦ inl (subst (λ z. (z.key ≡ key) × HasList z.client_lists ip) q (e, h))
        | inr i ↦ inr (g, i, e, h)
      ],
      λ m. elim m [ inl (e, h) ↦ (x, inl refl, e, h) | inr (g, i, e, h) ↦ (g, inr i, e, h) ],
    )

    HasList-append :
        (lists : List (Option (List String))) (l : Option (List String))
        → HasList (lists ++ (l ∷ [])) ip ↔ (HasList lists ip ⊎ Reaches l ip)
    HasList-append lists l = (
      λ (x, m, r). elim (append-In x lists (l ∷ []) m) [
        | inl i ↦ inl (x, i, r)
        | inr (inl q) ↦ inr (subst (λ z. Reaches z ip) q r)
        | inr (inr z) ↦ absurd z
      ],
      λ m. elim m [
        | inl (x, i, r) ↦ (x, In-append_left x lists (l ∷ []) i, r)
        | inr r ↦ (l, In-append_right l lists (l ∷ []) (inl refl), r)
      ],
    )

    add_to_group-HasGroup :
        (k : RuleKey) (l : Option (List String)) (groups : List RuleGroup)
        → HasGroup (add_to_group k l groups) key ip
        → HasGroup groups key ip ⊎ ((k ≡ key) × Reaches l ip)
    unfolding add_to_group
    add_to_group-HasGroup k l [] h = elim ((HasGroup-cons _ []).0 h) [
      | inl (e, m) ↦ elim ((HasList-append [] l).0 m) [
        | inl (x, z, r) ↦ absurd z
        | inr r ↦ inr (e, r)
      ]
      | inr z ↦ inl z
    ]
    add_to_group-HasGroup k l (g ∷ groups) h = elim (Bool-cases (key_beq k g.key)) [
      | inl e ↦ elim ((HasGroup-cons _ groups).0 (rw e at h)) [
        | inl (e', m) ↦ elim ((HasList-append g.client_lists l).0 m) [
          | inl i ↦ inl ((HasGroup-cons g groups).1 (inl (e', i)))
          | inr r ↦ inr (key_beq-eq k g.key e ∙ e', r)
        ]
        | inr z ↦ inl ((HasGroup-cons g groups).1 (inr z))
      ]
      | inr e ↦ elim ((HasGroup-cons g _).0 (rw e at h)) [
        | inl x ↦ inl ((HasGroup-cons g groups).1 (inl x))
        | inr z ↦ elim (add_to_group-HasGroup k l groups z) [
          | inl y ↦ inl ((HasGroup-cons g groups).1 (inr y))
          | inr y ↦ inr y
        ]
      ]
    ]

    HasGroup-add_to_group :
        (k : RuleKey) (l : Option (List String)) (groups : List RuleGroup)
        → HasGroup groups key ip ⊎ ((k ≡ key) × Reaches l ip)
        → HasGroup (add_to_group k l groups) key ip
    unfolding add_to_group
    HasGroup-add_to_group k l [] h = elim h [
      | inl z ↦ absurd z.1
      | inr (e, r) ↦ (HasGroup-cons _ []).1 (inl (e, (l, inl refl, r)))
    ]
    HasGroup-add_to_group k l (g ∷ groups) h = elim (Bool-cases (key_beq k g.key)) [
      | inl e ↦ rw e (
          (HasGroup-cons _ groups).1 (elim h [
            | inl y ↦ elim ((HasGroup-cons g groups).0 y) [
              | inl (e', m) ↦ inl (e', (HasList-append g.client_lists l).1 (inl m))
              | inr z ↦ inr z
            ]
            | inr (e', r) ↦
                inl (sym (key_beq-eq k g.key e) ∙ e', (HasList-append g.client_lists l).1 (inr r))
          ]))
      | inr e ↦ rw e (
          (HasGroup-cons g _).1 (elim h [
            | inl y ↦ elim ((HasGroup-cons g groups).0 y) [
              | inl x ↦ inl x
              | inr z ↦ inr (HasGroup-add_to_group k l groups (inl z))
            ]
            | inr y ↦ inr (HasGroup-add_to_group k l groups (inr y))
          ]))
    ]

    pub group_rules-HasGroup :
        (rules : List String) (groups out : List RuleGroup)
        → group_rules rules groups ≡ some out
        → HasGroup out key ip ↔ (HasGroup groups key ip ⊎ HasRule rules key ip)
    unfolding group_rules
    group_rules-HasGroup [] groups out h =
        let q = some_inj h in
        (
          λ m. inl (subst (λ z. HasGroup z key ip) (sym q) m),
          λ m. elim m [ inl y ↦ subst (λ z. HasGroup z key ip) q y | inr y ↦ absurd y.2 ],
        )
    group_rules-HasGroup (rule ∷ rules) groups out h =
        let (p, e, k) = >>=-eq-some (split_rule rule) _ h in
        let added = add_to_group (key_of p) p.client_ips groups in
        let (f, g) = group_rules-HasGroup rules added out k in
        (
          λ m. elim (f m) [
            | inl y ↦ elim (add_to_group-HasGroup (key_of p) p.client_ips groups y) [
              | inl z ↦ inl z
              | inr (e', r) ↦ inr (rule, p, inl refl, e, e', r)
            ]
            | inr (s, q, i, e', e'', r) ↦ inr (s, q, inr i, e', e'', r)
          ],
          λ m. g (elim m [
            | inl y ↦ inl (HasGroup-add_to_group (key_of p) p.client_ips groups (inl y))
            | inr (s, q, inl i, e', e'', r) ↦
                let same : p ≡ q = some_inj (sym e ∙ (ap split_rule (sym i) ∙ e')) in
                inl (
                  HasGroup-add_to_group (key_of p) p.client_ips groups (
                    inr (
                      subst (λ z. (key_of z ≡ key) × Reaches z.client_ips ip) (sym same) (e'', r))))
            | inr (s, q, inr i, e', e'', r) ↦ inr (s, q, i, e', e'', r)
          ]),
        )
