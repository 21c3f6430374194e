-- ===== src/Identity/Unique.antt =====
-- common/identity.py, lines 24 to 237: who holds an address after an observation. Every observation
-- commits or rolls back as a whole (BEGIN IMMEDIATE), so that concurrent observations are a
-- sequence of these steps.
use opti_gate.Base.{ℕ, String, none, some, List, [], ◌∷◌, ◌++◌, Bool, true, false}
use opti_gate.Base.{nat_eq, string_eq, find?, any, update_where}
use opti_gate.Base.{◌≡◌, refl, sym, ◌∙◌, ap, inl, inr, arith, Option-cases, In, append-In, subst}
use opti_gate.Base.{any-eq-is_some-find?, find?-In, eq_of_beq, beq_refl, In-append_right}
use opti_gate.Base.{In-update_where_kept, In-update_where_picked, is_some, ◌≢◌}
use opti_gate.Tables.{Database, Binding, HasUniqueAddresses}
use opti_gate.Platform.{Platform}
use opti_gate.Matching.Lan.{ip_in_configured_lan}
use opti_gate.Identity.Bindings.{is_pair, has_id, reactivated, release_ip}
use opti_gate.Identity.Bindings.{
  observe_new, is_known_source, record_binding, record_binding_locked, observe_again,
}
use opti_gate.Identity.Released.{release_ip-In, release_mac-In}
use opti_gate.Identity.Observed.{observe_new-outcome, released, DeviceOutcome}

not-found : (p : Binding → Bool) (rows : List Binding) → any p rows ≡ false → find? p rows ≡ none
not-found p rows h = elim (Option-cases (find? p rows)) [
  | inl e ↦ e
  | inr (b, e) ↦
      absurd
        (let q : any p rows ≡ true = any-eq-is_some-find? p rows ∙ ap is_some e in ground arith)
]

single : (x b : Binding) → In x (b ∷ []) → x ≡ b
single x b (inl e) = e
single x b (inr r) = absurd r

module _ (π : Platform) (db : Database) (mac ip source : String) (now : ℕ) where
  record_binding-new :
      ip_in_configured_lan π db ip ≡ true
      → any (is_pair mac ip) db.device_bindings ≡ false
      → record_binding π db mac ip source now ≡ observe_new db mac ip source now
  unfolding record_binding record_binding_locked
  record_binding-new l k =
      rw (l, record_binding_locked, not-found (is_pair mac ip) db.device_bindings k) refl

  released-In :
      HasUniqueAddresses db
      → (b : Binding) → In b (released db mac ip source now).device_bindings
      → b.active ≡ true
      → In b db.device_bindings × (b.ipv4_address ≡ ip → ⊥)
  unfolding released
  released-In u b m h =
      release_ip-In db mac ip source now u b
        (release_mac-In (release_ip db mac ip source now) mac ip source now b m h) h

  HasUniqueAddresses-added :
      HasUniqueAddresses db
      → (db' : Database) (b : Binding)
      → db'.device_bindings ≡ (released db mac ip source now).device_bindings ++ (b ∷ [])
      → b.ipv4_address ≡ ip
      → HasUniqueAddresses db'
  HasUniqueAddresses-added u db' b l e x y mx my ax ay q =
      elim (append-In x _ (b ∷ []) (subst (In x) l mx)) [
        | inl i ↦ elim (append-In y _ (b ∷ []) (subst (In y) l my)) [
          | inl j ↦ u x y (released-In u x i ax).0 (released-In u y j ay).0 ax ay q
          | inr j ↦ absurd (
              (released-In u x i ax).1
                (q ∙ ap (λ (z : Binding). z.ipv4_address) (single y b j) ∙ e))
        ]
        | inr i ↦ elim (append-In y _ (b ∷ []) (subst (In y) l my)) [
          | inl j ↦ absurd (
              (released-In u y j ay).1
                (sym q ∙ ap (λ (z : Binding). z.ipv4_address) (single x b i) ∙ e))
          | inr j ↦ single x b i ∙ sym (single y b j)
        ]
      ]

  -- On the configured network, an observation by a known source of a pair that is not stored is
  -- committed, keeps the addresses unique, and makes the observed MAC the address's one holder.
  pub record_binding-HasUniqueAddresses :
      ip_in_configured_lan π db ip ≡ true
      → is_known_source source ≡ true
      → any (is_pair mac ip) db.device_bindings ≡ false
      → HasUniqueAddresses db
      → (db' : Database) × (record_binding π db mac ip source now ≡ some db')
        × HasUniqueAddresses db'
        × ((b : Binding) × In b db'.device_bindings
            × (b.active ≡ true)
            × (b.ipv4_address ≡ ip)
            × (b.mac_address ≡ mac))
  record_binding-HasUniqueAddresses l s k u =
      let (db', b, o, r, f, d) = observe_new-outcome db mac ip source now s k in
      (
        db',
        record_binding-new l k ∙ o,
        HasUniqueAddresses-added u db' b r f.1,
        (b, subst (In b) (sym r) (In-append_right b _ (b ∷ []) (inl refl)), f.2, f.1, f.0),
      )

  -- On the configured network, an observation by a known source of a pair that is not stored adds
  -- a device, without any right, for a MAC that no stored device and no stored binding has, and
  -- otherwise, where one has it, no device.
  pub record_binding-DeviceOutcome :
      ip_in_configured_lan π db ip ≡ true
      → is_known_source source ≡ true
      → any (is_pair mac ip) db.device_bindings ≡ false
      → (db' : Database) × (b : Binding) × (record_binding π db mac ip source now ≡ some db')
        × In b db'.device_bindings
        × (b.mac_address ≡ mac)
        × DeviceOutcome db.devices db.device_bindings mac db'.devices b.device_id
  record_binding-DeviceOutcome l s k =
      let (db', b, o, r, f, d) = observe_new-outcome db mac ip source now s k in
      (
        db',
        b,
        record_binding-new l k ∙ o,
        subst (In b) (sym r) (In-append_right b _ (b ∷ []) (inl refl)),
        f.0,
        d,
      )

  -- Where the pair is stored (in binding b) and another binding of the address is active, an
  -- observation of the pair on the configured network by a known source commits two active
  -- bindings of the address: the conflict is not handled.
  pub record_binding-conflict :
      (a b : Binding)
      → ip_in_configured_lan π db ip ≡ true
      → is_known_source source ≡ true
      → find? (is_pair mac ip) db.device_bindings ≡ some b
      → In a db.device_bindings
      → a.active ≡ true
      → a.ipv4_address ≡ ip
      → a.id ≢ b.id
      → (db' : Database) × (record_binding π db mac ip source now ≡ some db')
        × (HasUniqueAddresses db' → ⊥)
  unfolding record_binding record_binding_locked observe_again has_id reactivated is_pair
  record_binding-conflict a b l s e m h q n =
      let (i, p) = find?-In (is_pair mac ip) b db.device_bindings e in
      let k : has_id b.id a ≡ false = ground (arith, n) in
      (
        record db {
          device_bindings = update_where (has_id b.id) (reactivated now source) db.device_bindings;
        },
        rw (record_binding, l, record_binding_locked, e, observe_again, s) refl,
        λ u. n (
            ap (λ (z : Binding). z.id)
              (u a (reactivated now source b)
                (In-update_where_kept (has_id b.id) (reactivated now source) a _ m k)
                (In-update_where_picked (has_id b.id) (reactivated now source) b _ i
                  (beq_refl b.id))
                h refl (q ∙ sym (eq_of_beq b.ipv4_address ip (ground arith))))),
      )

  -- Off the configured network an observation changes nothing.
  pub record_binding_off_lan :
      ip_in_configured_lan π db ip ≡ false → record_binding π db mac ip source now ≡ some db
  unfolding record_binding
  record_binding_off_lan l = rw l refl
