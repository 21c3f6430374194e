-- ===== src/Poisoning/Freshest.antt =====
-- The target list against the bindings: one target for each MAC address in scope, at the address
-- that was seen last.
use opti_gate.Base.{String, Bool, true, false, string_eq, ◌≤◌}
use opti_gate.Base.{List, [], ◌∷◌, filter, sort_by, contains, In, All, all-in}
use opti_gate.Base.{
  inl, inr, ◌⊎◌, ◌≡◌, ◌≢◌, refl, sym, ◌∙◌, ap, subst, arith, Bool-cases, map, NoDup,
}
use opti_gate.Base.{
  IsSorted, IsOrder, sort_by-IsSorted, In-sort_by, sort_by-In, In-filter, filter-In,
}
use opti_gate.Base.{contains-In, In-contains, map-In}
use opti_gate.Tables.{Database, Binding}
use opti_gate.Poisoning.Targets.{
  Target, is_in_scope, fresher, take_freshest, db_backed_desired_state,
}

fresher-IsOrder : IsOrder fresher
fresher-IsOrder = record { total = λ a b h. ground arith; trans = λ a b c h k. ground arith }

abbrev pub target_of : Binding → Target
target_of b = record { ip = b.ipv4_address; mac = b.mac_address }

-- The binding is listed, makes the target, and no listed binding of its MAC was seen later.
pub record IsFreshest (rows : List Binding) (t : Target) (b : Binding) : Type 0 where
  pub listed : In b rows
  pub makes : t ≡ target_of b
  pub latest :
      (c : Binding) → In c rows → c.mac_address ≡ b.mac_address → c.last_seen_at ≤ b.last_seen_at

-- A later row's freshest binding stays so behind a row of another MAC.
IsFreshest-cons :
    (rows : List Binding) (t : Target) (b c : Binding)
    → c.mac_address ≢ t.mac
    → IsFreshest rows t b
    → IsFreshest (c ∷ rows) t b
IsFreshest-cons rows t b c other f = record {
  listed = inr f.listed;
  makes = f.makes;
  latest = λ d m e. elim m [
    | inl q ↦ absurd (
        other (
          ap (λ (z : Binding). z.mac_address) (sym q)
          ∙ e
          ∙ ap (λ (z : Target). z.mac) (sym f.makes)))
    | inr r ↦ f.latest d r e
  ];
}

IsFreshest-head :
    (rows : List Binding) (b : Binding)
    → All (λ c. fresher b c ≡ true) rows
    → IsFreshest (b ∷ rows) (target_of b) b
IsFreshest-head rows b s = record {
  listed = inl refl;
  makes = refl;
  latest = λ d m e. elim m [
    | inl q ↦ rw q (omega arith)
    | inr r ↦ let f = all-in (λ c. fresher b c ≡ true) d rows s r in ground arith
  ];
}

-- A MAC that is taken differs from one that is not.
taken_ne :
    (seen : List String) (x y : String) → contains seen x ≡ true → contains seen y ≡ false → x ≢ y
taken_ne seen x y h k e = cc (ap (contains seen) e)

contains_head : (x : String) (seen : List String) → contains (x ∷ seen) x ≡ true
contains_head x seen = In-contains x (x ∷ seen) (inl refl)

not_taken :
    (x : String) (seen : List String) (y : String)
    → contains (x ∷ seen) y ≡ false
    → contains seen y ≡ false
unfolding contains
not_taken x seen y h = ground arith

take_freshest-IsFreshest :
    (seen : List String) (rows : List Binding) (t : Target)
    → IsSorted fresher rows
    → In t (take_freshest seen rows)
    → (contains seen t.mac ≡ false) × ((b : Binding) × IsFreshest rows t b)
unfolding take_freshest
take_freshest-IsFreshest seen [] t s m = absurd m
take_freshest-IsFreshest seen (b ∷ rows) t s m = elim (Bool-cases (contains seen b.mac_address)) [
  | inl old ↦
      let (u, r) = take_freshest-IsFreshest seen rows t s.1 (rw old at m) in
      (u, (r.0, IsFreshest-cons rows t r.0 b (taken_ne seen b.mac_address t.mac old u) r.1))
  | inr new ↦ elim (rw new at m) [
    | inl e ↦ (
      subst (λ (z : Target). contains seen z.mac ≡ false) (sym e) new,
      (b, subst (λ z. IsFreshest (b ∷ rows) z b) (sym e) (IsFreshest-head rows b s.0)),
    )
    | inr r ↦
        let (u, f) = take_freshest-IsFreshest (b.mac_address ∷ seen) rows t s.1 r in
        let other : b.mac_address ≢ t.mac =
          taken_ne (b.mac_address ∷ seen) b.mac_address t.mac (contains_head b.mac_address seen)
            u in
        (not_taken b.mac_address seen t.mac u, (f.0, IsFreshest-cons rows t f.0 b other f.1))
  ]
]

-- No MAC is taken twice.
take_freshest-NoDup :
    (seen : List String) (rows : List Binding)
    → IsSorted fresher rows
    → NoDup (map (λ (t : Target). t.mac) (take_freshest seen rows))
unfolding take_freshest
take_freshest-NoDup seen [] s = tt
take_freshest-NoDup seen (b ∷ rows) s = elim (Bool-cases (contains seen b.mac_address)) [
  | inl old ↦ rw old (take_freshest-NoDup seen rows s.1)
  | inr new ↦ rw new (
    λ m.
        let (t, i, e) = map-In (λ (t : Target). t.mac) b.mac_address _ m in
        let (u, f) = take_freshest-IsFreshest (b.mac_address ∷ seen) rows t s.1 i in
        taken_ne (b.mac_address ∷ seen) b.mac_address t.mac (contains_head b.mac_address seen) u e,
    take_freshest-NoDup (b.mac_address ∷ seen) rows s.1,
  )
]

-- Every row's MAC is taken, or was before.
take_freshest_complete :
    (seen : List String) (rows : List Binding) (b : Binding)
    → In b rows
    → (contains seen b.mac_address ≡ true)
      ⊎ ((t : Target) × In t (take_freshest seen rows) × (t.mac ≡ b.mac_address))
unfolding take_freshest
take_freshest_complete seen [] b m = absurd m
take_freshest_complete seen (c ∷ rows) b m = elim (Bool-cases (contains seen c.mac_address)) [
  | inl old ↦
      rw old (elim m [ inl e ↦ inl (rw e old) | inr r ↦ take_freshest_complete seen rows b r ])
  | inr new ↦ rw new (elim m [
    | inl e ↦ inr (target_of c, inl refl, ap (λ (z : Binding). z.mac_address) (sym e))
    | inr r ↦ elim (take_freshest_complete (c.mac_address ∷ seen) rows b r) [
      | inl h ↦ elim (contains-In b.mac_address (c.mac_address ∷ seen) h) [
        | inl e ↦ inr (target_of c, inl refl, sym e)
        | inr i ↦ inl (In-contains b.mac_address seen i)
      ]
      | inr (t, i, e) ↦ inr (t, inr i, e)
    ]
  ])
]

module _ (db : Database) (gateway : Target) (full_duplex : Bool) where
  abbrev pub state_targets : List Target
  state_targets = (db_backed_desired_state db gateway full_duplex).targets

  -- Each target is at the address of a binding in scope, and no binding in scope of the same MAC
  -- was seen later; each binding in scope has a target of its MAC; and no MAC has two targets.
  pub db_backed_desired_state_freshest :
      ((t : Target)
        → In t state_targets
        → (b : Binding) × In b db.device_bindings
          × (is_in_scope db b ≡ true)
          × (t ≡ target_of b)
          × ((c : Binding)
              → In c db.device_bindings
              → is_in_scope db c ≡ true
              → c.mac_address ≡ b.mac_address
              → c.last_seen_at ≤ b.last_seen_at))
      × ((b : Binding)
          → In b db.device_bindings
          → is_in_scope db b ≡ true
          → (t : Target) × In t state_targets × (t.mac ≡ b.mac_address))
      × NoDup (map (λ (t : Target). t.mac) state_targets)
  unfolding db_backed_desired_state
  db_backed_desired_state_freshest =
      let kept = filter (is_in_scope db) db.device_bindings in
      let rows = sort_by fresher kept in
      let sorted = sort_by-IsSorted fresher fresher-IsOrder kept in
      let into = λ (b : Binding) (i : In b db.device_bindings) (h : is_in_scope db b ≡ true).
        In-sort_by fresher b kept (In-filter (is_in_scope db) b db.device_bindings i h) in
      (
        λ t m.
            let (b, f) = (take_freshest-IsFreshest [] rows t sorted m).1 in
            let (i, h) =
              filter-In (is_in_scope db) b db.device_bindings
                (sort_by-In fresher b kept f.listed) in
            (b, i, h, f.makes, λ c j k e. f.latest c (into c j k) e),
        λ b i h. elim (take_freshest_complete [] rows b (into b i h)) [
          | inl c ↦ absurd (contains-In b.mac_address [] c)
          | inr r ↦ r
        ],
        take_freshest-NoDup [] rows sorted,
      )
