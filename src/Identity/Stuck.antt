-- ===== src/Identity/Stuck.antt =====
-- common/device_identity.py, lines 63 to 146: when the lookup of a device raises.
use opti_gate.Base.{ℕ, String, none, some, true, any, any-In, any-find}
use opti_gate.Base.{◌≡◌, refl, sym, ◌∙◌, arith, Option-cases, Bool-cases, In, ◌==◌}
use opti_gate.Base.{string_eq, eq_of_beq, beq_refl, none-some, false-true, find?}
use opti_gate.Base.{first_where-none, any-eq-is_some-find?, find?-In, is_some-eq, inl, inr}
use opti_gate.Tables.{Database, Binding, Device, join_device}
use opti_gate.Identity.Bindings.{holds_ip, create_pending_device}
use opti_gate.Identity.Resolve.{newest_first, owner_of_ip, is_orphaned, orphaned_binding, is_healed}
use opti_gate.Identity.Resolve.{healed_device, heal, resolve_device}
use opti_gate.Identity.Healing.{newest_first-IsOrder, owner_of_ip-none, owner_of_ip-some}
use opti_gate.Identity.Healing.{fields-is_owned}
use opti_gate.Identity.Resolved.{orphaned-In, healed-In}

module _ (db : Database) (ip : String) where
  -- An active binding of the address that has no device.
  abbrev pub IsOrphan : Binding → Type 0
  IsOrphan a =
      In a db.device_bindings × (a.active ≡ true) × (a.ipv4_address ≡ ip) × (a.device_id ≡ none)

  -- No active binding of the address has a device.
  abbrev pub HasNoOwner : Type 0
  HasNoOwner =
      (b : Binding)
      → In b db.device_bindings
      → b.active ≡ true
      → b.ipv4_address ≡ ip
      → join_device db.devices b.device_id ≡ none

  -- There is a device of the MAC, and no binding of the MAC has a device.
  abbrev pub IsStuck : Binding → Type 0
  IsStuck a =
      ((d : Device) × In d db.devices × (d.mac_address ≡ a.mac_address))
      × ((b : Binding)
          → In b db.device_bindings
          → b.mac_address ≡ a.mac_address
          → join_device db.devices b.device_id ≡ none)

  owner-none : owner_of_ip db ip ≡ none → HasNoOwner
  unfolding holds_ip
  owner-none h b m a e = elim (Option-cases (join_device db.devices b.device_id)) [
    | inl n ↦ n
    | inr (d, j) ↦ absurd (
        false-true (
          sym (owner_of_ip-none db ip h b m) ∙ fields-is_owned db ip b d (rw (e, beq_refl ip) a) j))
  ]

  none-owner : HasNoOwner → owner_of_ip db ip ≡ none
  unfolding holds_ip
  none-owner h = elim (Option-cases (owner_of_ip db ip)) [
    | inl n ↦ n
    | inr (d, e) ↦
        let (b, m, k, j) = owner_of_ip-some db ip d e in
        absurd
          (none-some (sym (h b m (ground arith) (eq_of_beq b.ipv4_address ip (ground arith))) ∙ j))
  ]

  no_orphan : orphaned_binding db ip ≡ none → (a : Binding) → IsOrphan a → ⊥
  unfolding orphaned_binding is_orphaned holds_ip
  no_orphan h a (m, t, e, n) = false-true (
      sym (
        first_where-none newest_first newest_first-IsOrder (is_orphaned ip) a db.device_bindings h
          m)
      ∙ rw (e, beq_refl ip, t, n) refl)

  orphaned_binding-IsOrphan : (a : Binding) → orphaned_binding db ip ≡ some a → IsOrphan a
  unfolding holds_ip
  orphaned_binding-IsOrphan a h =
      let (m, k, n) = orphaned-In db ip a h in
      (
        m,
        ground arith,
        eq_of_beq a.ipv4_address ip (ground arith),
        elim (Option-cases a.device_id) [
          | inl e ↦ e
          | inr (x, e) ↦ absurd (false-true (sym (rw e at n)))
        ],
      )

  not_healed :
      (a : Binding)
      → healed_device db a.mac_address ≡ none
      → (b : Binding) → In b db.device_bindings
      → b.mac_address ≡ a.mac_address
      → join_device db.devices b.device_id ≡ none
  unfolding healed_device is_healed
  not_healed a h b m e = elim (Option-cases (join_device db.devices b.device_id)) [
    | inl n ↦ n
    | inr (d, j) ↦
        let test = is_healed db a.mac_address in
        let here : test b ≡ true = rw (e, beq_refl a.mac_address, j) refl in
        elim (Option-cases (find? test db.device_bindings)) [
          | inl n ↦ absurd (
              false-true (
                sym (any-eq-is_some-find? test db.device_bindings ∙ rw n refl)
                ∙ any-In test b db.device_bindings m here))
          | inr (c, k) ↦
              let (_, t) = find?-In test c db.device_bindings k in
              let (x, y) = is_some-eq (join_device db.devices c.device_id) (ground arith) in
              absurd (none-some (sym (rw (healed_device, k) at h) ∙ y))
        ]
  ]

  stuck-healed : (a : Binding) → IsStuck a → healed_device db a.mac_address ≡ none
  stuck-healed a (_, f) = elim (Option-cases (healed_device db a.mac_address)) [
    | inl n ↦ n
    | inr (d, e) ↦
        let (b, m, q, j) = healed-In db a.mac_address d e in absurd (none-some (sym (f b m q) ∙ j))
  ]

  heal-none : (a : Binding) (now : ℕ) → heal db a.mac_address now ≡ none → IsStuck a
  unfolding heal create_pending_device
  heal-none a now h = elim (Option-cases (healed_device db a.mac_address)) [
    | inr (d, e) ↦ absurd (none-some (sym (rw (heal, e) at h)))
    | inl e ↦
        let same = λ (d : Device). d.mac_address == a.mac_address in
        elim (Bool-cases (any same db.devices)) [
          | inl t ↦
              let (d, m, k) = any-find same db.devices t in
              ((d, m, eq_of_beq d.mac_address a.mac_address k), not_healed a e)
          | inr t ↦ absurd (none-some (sym (rw (heal, e, create_pending_device, t) at h)))
        ]
  ]

  stuck-heal : (a : Binding) (now : ℕ) → IsStuck a → heal db a.mac_address now ≡ none
  unfolding heal create_pending_device
  stuck-heal a now s =
      let same = λ (d : Device). d.mac_address == a.mac_address in
      let (d, m, e) = s.0 in
      let here : same d ≡ true = rw e (beq_refl a.mac_address) in
      rw (heal, stuck-healed a s, create_pending_device, any-In same d db.devices m here) refl

  -- A lookup raises only where no active binding of the address has a device, an active binding of
  -- it has none, a device of that binding's MAC exists, and no binding of the MAC has a device; and it
  -- does raise where this holds of every active binding of the address without a device, and there
  -- is one. A device that an administrator deleted and added again is in this state.
  pub resolve_device-none :
      (now : ℕ)
      → (resolve_device db ip now ≡ none → HasNoOwner × ((a : Binding) × IsOrphan a × IsStuck a))
        × (HasNoOwner
            → ((a : Binding) × IsOrphan a)
            → ((c : Binding) → IsOrphan c → IsStuck c)
            → resolve_device db ip now ≡ none)
  unfolding resolve_device
  resolve_device-none now = (
    λ h. elim (Option-cases (owner_of_ip db ip)) [
      | inr (d, e) ↦ absurd (none-some (sym (rw (resolve_device, e) at h)))
      | inl e ↦ elim (Option-cases (orphaned_binding db ip)) [
        | inl n ↦ absurd (none-some (sym (rw (resolve_device, e, n) at h)))
        | inr (a, o) ↦ (
          owner-none e,
          (a, orphaned_binding-IsOrphan a o, heal-none a now (rw (resolve_device, e, o) at h)),
        )
      ]
    ],
    λ free (a, orphan) stuck. elim (Option-cases (orphaned_binding db ip)) [
      | inl n ↦ absurd (no_orphan n a orphan)
      | inr (c, o) ↦
          rw (resolve_device, none-owner free, o)
            (stuck-heal c now (stuck c (orphaned_binding-IsOrphan c o)))
    ],
  )
