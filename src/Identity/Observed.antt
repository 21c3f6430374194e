-- ===== src/Identity/Observed.antt =====
-- common/identity.py, lines 119 to 237: what one observation does to the bindings and the devices.
use opti_gate.Base.{ℕ, String, Option, none, some, List, [], ◌∷◌, ◌++◌, Bool, true, false}
use opti_gate.Base.{◌==◌, nat_eq, string_eq, find?, any}
use opti_gate.Base.{◌≡◌, refl, sym, ◌∙◌, ap, inl, inr, arith, Bool-cases, Option-cases, subst}
use opti_gate.Base.{any-eq-is_some-find?, map, ◌⊎◌, any-In, find?-In, none-some}
use opti_gate.Tables.{Database, Binding, Device}
use opti_gate.Identity.Events.{next_id, record_event, log_event}
use opti_gate.Identity.Bindings.{
  deactivated, is_pair, holds_mac, release_ip, release_mac, mac_conflict, mac_device,
}
use opti_gate.Identity.Bindings.{
  identify, pending_device, insert_binding, new_binding, announce, observe_new, is_known_source,
}
use opti_gate.Identity.Bindings.{create_pending_device, existing_device_id_for_mac}
use opti_gate.Identity.Bindings.{mac_has_any_prior_binding}
use opti_gate.Identity.Released.{release_ip-any, release_mac-any, is_pair-deactivated}
use opti_gate.Identity.Released.{release_ip-devices, release_mac-devices}

-- The binding that an observation adds.
abbrev IsBindingOf : Binding → String → String → Option ℕ → Type 0
IsBindingOf b mac ip device =
    (b.mac_address ≡ mac) × (b.ipv4_address ≡ ip) × (b.active ≡ true) × (b.device_id ≡ device)

announce-bindings :
    (device : Option ℕ) (made : Bool) (mac ip source : String) (now : ℕ) (db : Database)
    → (announce db device made mac ip source now).device_bindings ≡ db.device_bindings
unfolding announce record_event log_event
announce-bindings device true mac ip source now db = refl
announce-bindings none false mac ip source now db = refl
announce-bindings (some i) false mac ip source now db = refl

announce-devices :
    (device : Option ℕ) (made : Bool) (mac ip source : String) (now : ℕ) (db : Database)
    → (announce db device made mac ip source now).devices ≡ db.devices
unfolding announce record_event log_event
announce-devices device true mac ip source now db = refl
announce-devices none false mac ip source now db = refl
announce-devices (some i) false mac ip source now db = refl

-- The device a MAC gets in its first observation: in PREAUTH, with nothing granted.
abbrev pub IsMade : List Device → List Device → String → Option ℕ → Type 0
IsMade devices devices' mac device =
    (d : Device) × (devices' ≡ devices ++ (d ∷ []))
    × (d.mac_address ≡ mac)
    × (d.is_authenticated ≡ false)
    × (d.ignored ≡ false)
    × (d.bypass_login ≡ false)
    × (d.bump_enabled ≡ false)
    × (d.user_id ≡ none)
    × (d.group_id ≡ none)
    × (device ≡ some d.id)

existing-none-any :
    (db : Database) (mac : String)
    → existing_device_id_for_mac db mac ≡ none
    → any (λ (d : Device). d.mac_address == mac) db.devices ≡ false
unfolding existing_device_id_for_mac
existing-none-any db mac h =
    elim (Option-cases (find? (λ (d : Device). d.mac_address == mac) db.devices)) [
      | inl e ↦ any-eq-is_some-find? (λ (d : Device). d.mac_address == mac) db.devices ∙ rw e refl
      | inr (d, e) ↦ absurd (let q = rw (existing_device_id_for_mac, e) at h in ground arith)
    ]

existing-some-any :
    (db : Database) (mac : String) (i : ℕ)
    → existing_device_id_for_mac db mac ≡ some i
    → any (λ (d : Device). d.mac_address == mac) db.devices ≡ true
unfolding existing_device_id_for_mac
existing-some-any db mac i h =
    elim (Option-cases (find? (λ (d : Device). d.mac_address == mac) db.devices)) [
      | inl e ↦ absurd (let q = rw (existing_device_id_for_mac, e) at h in ground arith)
      | inr (d, e) ↦
          any-eq-is_some-find? (λ (d : Device). d.mac_address == mac) db.devices ∙ rw e refl
    ]

-- The binding whose device is taken over has the MAC.
mac_device-any :
    (db : Database) (mac : String) (i : ℕ)
    → mac_device (mac_conflict db mac) ≡ some i
    → any (λ (b : Binding). b.mac_address == mac) db.device_bindings ≡ true
unfolding mac_conflict holds_mac mac_device
mac_device-any db mac i h = elim (Option-cases (find? (holds_mac mac) db.device_bindings)) [
  | inl e ↦ absurd (let q = rw (mac_conflict, e) at h in none-some q)
  | inr (b, e) ↦
      let (m, k) = find?-In (holds_mac mac) b db.device_bindings e in
      any-In (λ (b : Binding). b.mac_address == mac) b db.device_bindings m (ground arith)
]

create_pending_device-IsMade :
    (db : Database) (mac : String) (now : ℕ)
    → any (λ (d : Device). d.mac_address == mac) db.devices ≡ false
    → (r : Database × ℕ) × (create_pending_device db mac now ≡ some r)
      × (r.0.device_bindings ≡ db.device_bindings)
      × IsMade db.devices r.0.devices mac (some r.1)
unfolding create_pending_device pending_device
create_pending_device-IsMade db mac now h =
    let i = next_id (map (λ (d : Device). d.id) db.devices) in
    let d = pending_device i mac now in
    (
      (record db { devices = db.devices ++ (d ∷ []) }, i),
      rw (create_pending_device, h) refl,
      refl,
      (d, refl, refl, refl, refl, refl, refl, refl, refl, refl),
    )

-- A device or a binding had the MAC, and no device is made; or neither had, and one is made for it.
pub data DeviceOutcome (devices : List Device) (bindings : List Binding) (mac : String)
    (devices' : List Device) (device : Option ℕ) : Type 0 where
  known :
      ((any (λ (d : Device). d.mac_address == mac) devices ≡ true)
        ⊎ (any (λ (b : Binding). b.mac_address == mac) bindings ≡ true))
      → devices' ≡ devices
      → DeviceOutcome devices bindings mac devices' device
  made :
      any (λ (d : Device). d.mac_address == mac) devices ≡ false
      → any (λ (b : Binding). b.mac_address == mac) bindings ≡ false
      → IsMade devices devices' mac device
      → DeviceOutcome devices bindings mac devices' device

module _ (db : Database) (mac : String) (now : ℕ) where
  -- The step never fails: the UNIQUE constraint was excluded by the query before it.
  identify-outcome :
      (device : Option ℕ)
      → ((i : ℕ)
          → device ≡ some i
          → any (λ (b : Binding). b.mac_address == mac) db.device_bindings ≡ true)
      → (r : Database × Option ℕ × Bool) × (identify db device mac now ≡ some r)
        × (r.0.device_bindings ≡ db.device_bindings)
        × DeviceOutcome db.devices db.device_bindings mac r.0.devices r.1
  unfolding identify create_pending_device mac_has_any_prior_binding
  identify-outcome (some i) held = ((db, some i, false), refl, refl, known (inr (held i refl)) refl)
  identify-outcome none held = elim (Option-cases (existing_device_id_for_mac db mac)) [
    | inr (i, e) ↦ (
      (db, some i, false),
      rw (identify, e) refl,
      refl,
      known (inl (existing-some-any db mac i e)) refl,
    )
    | inl e ↦ elim (Bool-cases (any (λ (b : Binding). b.mac_address == mac) db.device_bindings)) [
      | inl k ↦ ((db, none, false), rw (identify, e, k) refl, refl, known (inr k) refl)
      | inr k ↦
          let (r, q, l, m) = create_pending_device-IsMade db mac now (existing-none-any db mac e) in
          (
            (r.0, some r.1, true),
            rw (identify, e, k, q) refl,
            l,
            made (existing-none-any db mac e) k m,
          )
    ]
  ]

module _ (db : Database) (mac ip source : String) (now : ℕ) where
  insert_binding-some :
      (device : Option ℕ)
      → is_known_source source ≡ true
      → any (is_pair mac ip) db.device_bindings ≡ false
      → (b : Binding) × (insert_binding db device mac ip source now
          ≡ some (record db { device_bindings = db.device_bindings ++ (b ∷ []) }))
        × IsBindingOf b mac ip device
  unfolding insert_binding new_binding
  insert_binding-some device h k = (
    new_binding db device mac ip source now,
    rw (insert_binding, h, k) refl,
    (refl, refl, refl, refl),
  )

module _ (db : Database) (mac ip source : String) (now : ℕ) where
  -- What the conflict handling leaves.
  unfoldable pub released : Database
  released = release_mac (release_ip db mac ip source now) mac ip source now

  released-devices : released.devices ≡ db.devices
  unfolding released
  released-devices =
      release_mac-devices (release_ip db mac ip source now) mac ip source now
      ∙ release_ip-devices db mac ip source now

  released-any :
      (p : Binding → Bool)
      → ((b : Binding) → p (deactivated b) ≡ p b)
      → any p released.device_bindings ≡ any p db.device_bindings
  unfolding released
  released-any p h =
      release_mac-any (release_ip db mac ip source now) mac ip source now p h
      ∙ release_ip-any db mac ip source now p h

  -- The device is the same seen from before the conflict handling.
  outcome_before :
      (devices : List Device) (device : Option ℕ)
      → DeviceOutcome released.devices released.device_bindings mac devices device
      → DeviceOutcome db.devices db.device_bindings mac devices device
  unfolding deactivated
  outcome_before devices device (known had e) =
      let p = λ (d : Device). d.mac_address == mac in
      let q = λ (b : Binding). b.mac_address == mac in
      known
        (elim had [
          | inl x ↦ inl (subst (λ ds. any p ds ≡ true) released-devices x)
          | inr x ↦ inr (sym (released-any q (λ b. refl)) ∙ x)
        ])
        (e ∙ released-devices)
  outcome_before devices device (made e k m) =
      let p = λ (d : Device). d.mac_address == mac in
      let q = λ (b : Binding). b.mac_address == mac in
      made (subst (λ ds. any p ds ≡ false) released-devices e)
        (sym (released-any q (λ b. refl)) ∙ k)
        (subst (λ ds. IsMade ds devices mac device) released-devices m)

  -- Every branch of an observation of a pair that is not stored ends in a commit, with one more
  -- binding than the conflict handling left, and at most one more device.
  pub observe_new-outcome :
      is_known_source source ≡ true
      → any (is_pair mac ip) db.device_bindings ≡ false
      → (db' : Database) × (b : Binding) × (observe_new db mac ip source now ≡ some db')
        × (db'.device_bindings ≡ released.device_bindings ++ (b ∷ []))
        × ((b.mac_address ≡ mac) × (b.ipv4_address ≡ ip) × (b.active ≡ true))
        × DeviceOutcome db.devices db.device_bindings mac db'.devices b.device_id
  unfolding observe_new released deactivated
  observe_new-outcome h k =
      let db₁ = release_ip db mac ip source now in
      let c = mac_device (mac_conflict db₁ mac) in
      let (r, q, l, o) = identify-outcome released mac now c (λ i e.
        let q = λ (b : Binding). b.mac_address == mac in
        released-any q (λ b. refl)
        ∙ sym (release_ip-any db mac ip source now q (λ b. refl))
        ∙ mac_device-any db₁ mac i e) in
      let fresh : any (is_pair mac ip) r.0.device_bindings ≡ false =
        ap (any (is_pair mac ip)) l
        ∙ released-any (is_pair mac ip) (is_pair-deactivated mac ip)
        ∙ k in
      let (b, s, f) = insert_binding-some r.0 mac ip source now r.1 h fresh in
      let db₄ : Database = record r.0 { device_bindings = r.0.device_bindings ++ (b ∷ []) } in
      (
        announce db₄ r.1 r.2 mac ip source now,
        b,
        rw (q, s) refl,
        announce-bindings r.1 r.2 mac ip source now db₄ ∙ ap (λ z. z ++ (b ∷ [])) l,
        (f.0, f.1, f.2),
        subst (λ z. DeviceOutcome db.devices db.device_bindings mac z b.device_id)
            (sym (announce-devices r.1 r.2 mac ip source now db₄))
            (subst (DeviceOutcome db.devices db.device_bindings mac r.0.devices) (sym f.3)
              (outcome_before r.0.devices r.1 o)),
      )
