-- ===== src/Identity/Resolved.antt =====
-- common/device_identity.py, lines 63 to 146: whose device it is that is found.
use opti_gate.Base.{ℕ, String, Option, none, some, true, false, List, [], ◌∷◌, ◌++◌, map}
use opti_gate.Base.{◌==◌, nat_eq, string_eq, find?, update_where, is_some, any}
use opti_gate.Base.{◌≡◌, refl, sym, ◌∙◌, ap, inl, inr, arith, Bool-cases, Option-cases, In, subst}
use opti_gate.Base.{first_where-some, find?-In, eq_of_beq, beq_refl, some_inj}
use opti_gate.Base.{In-update_where_picked}
use opti_gate.Tables.{Database, Binding, Device, device_by_id, join_device}
use opti_gate.Identity.Events.{next_id}
use opti_gate.Identity.Bindings.{holds_ip, create_pending_device, pending_device}
use opti_gate.Identity.Resolve.{newest_first, owner_of_ip, is_orphaned, orphaned_binding, is_healed}
use opti_gate.Identity.Resolve.{healed_device, is_adoptable, adopted, adopt, heal, resolve_device}
use opti_gate.Identity.Released.{holds_ip-fields}
use opti_gate.Identity.Healing.{newest_first-IsOrder, device_by_id-made}
use opti_gate.Identity.Healing.{owner_of_ip-some}

-- `d.* … WHERE d.id = ?` of a device that was found by its id.
device_by_id_self :
    (ds : List Device) (i : ℕ) (d : Device)
    → device_by_id ds i ≡ some d
    → device_by_id ds d.id ≡ some d
unfolding device_by_id
device_by_id_self ds i d h =
    let q : d.id ≡ i = eq_of_beq d.id i (find?-In (λ (z : Device). z.id == i) d ds h).1 in
    subst (λ j. device_by_id ds j ≡ some d) (sym q) h

pub join_device_self :
    (ds : List Device) (o : Option ℕ) (d : Device)
    → join_device ds o ≡ some d
    → device_by_id ds d.id ≡ some d
unfolding join_device
join_device_self ds none d h = absurd (ground arith)
join_device_self ds (some i) d h = device_by_id_self ds i d h

-- An orphaned binding that the query returns.
pub orphaned-In :
    (db : Database) (ip : String) (a : Binding)
    → orphaned_binding db ip ≡ some a
    → In a db.device_bindings × (holds_ip ip a ≡ true) × (is_some a.device_id ≡ false)
unfolding orphaned_binding is_orphaned
orphaned-In db ip a h =
    let (m, k, f) =
      first_where-some newest_first newest_first-IsOrder (is_orphaned ip) a db.device_bindings h in
    (m, ground arith, ground arith)

pub healed-In :
    (db : Database) (mac : String) (d : Device)
    → healed_device db mac ≡ some d
    → (b : Binding) × In b db.device_bindings
      × (b.mac_address ≡ mac)
      × (join_device db.devices b.device_id ≡ some d)
unfolding healed_device is_healed
healed-In db mac d h = elim (Option-cases (find? (is_healed db mac) db.device_bindings)) [
  | inl e ↦ absurd (let q = rw (healed_device, e) at h in ground arith)
  | inr (b, e) ↦
      let (m, k) = find?-In (is_healed db mac) b db.device_bindings e in
      (b, m, eq_of_beq b.mac_address mac (ground arith), rw (healed_device, e) at h)
]

-- The device was made for the orphan, and every binding of the MAC without a device has it.
abbrev pub IsAdopted : Database → String → ℕ → Database → Device → Type 0
IsAdopted db mac now db' d =
    let i = next_id (map (λ (z : Device). z.id) db.devices) in
    (d ≡ pending_device i mac now)
    × (db'.devices ≡ db.devices ++ (d ∷ []))
    × (db'.device_bindings ≡ update_where (is_adoptable mac) (adopted i) db.device_bindings)
    × (device_by_id db'.devices i ≡ some d)

pub data Resolution (db : Database) (ip : String) (now : ℕ) (db' : Database) (d : Device)
    : Type 0 where
  found : owner_of_ip db ip ≡ some d → db' ≡ db → Resolution db ip now db' d
  healed :
      (a : Binding)
      → owner_of_ip db ip ≡ none
      → orphaned_binding db ip ≡ some a
      → healed_device db a.mac_address ≡ some d
      → db' ≡ db
      → Resolution db ip now db' d
  made :
      (a : Binding)
      → owner_of_ip db ip ≡ none
      → orphaned_binding db ip ≡ some a
      → healed_device db a.mac_address ≡ none
      → IsAdopted db a.mac_address now db' d
      → Resolution db ip now db' d

module _ (db : Database) (ip : String) (now : ℕ) (db' : Database) (d : Device) where
  heal-made :
      (mac : String)
      → healed_device db mac ≡ none
      → heal db mac now ≡ some (db', some d)
      → IsAdopted db mac now db' d
  unfolding heal create_pending_device adopt
  heal-made mac e h = elim (Bool-cases (any (λ (z : Device). z.mac_address == mac) db.devices)) [
    | inl k ↦ absurd (let q = rw (heal, e, create_pending_device, k) at h in ground arith)
    | inr k ↦
        let i = next_id (map (λ (z : Device). z.id) db.devices) in
        let w = device_by_id-made db.devices mac now in
        let q = some_inj (rw (heal, e, create_pending_device, k, w) at h) in
        let q₀ = ap (λ (z : Database × Option Device). z.0) q in
        let q₁ : pending_device i mac now ≡ d =
          some_inj (ap (λ (z : Database × Option Device). z.1) q) in
        (
          sym q₁,
          ap (λ (z : Database). z.devices) (sym q₀) ∙ ap (λ z. db.devices ++ (z ∷ [])) q₁,
          ap (λ (z : Database). z.device_bindings) (sym q₀),
          subst (λ (z : Database). device_by_id z.devices i ≡ some d) q₀ (w ∙ ap some q₁),
        )
  ]

  pub resolve_device-Resolution :
      resolve_device db ip now ≡ some (db', some d) → Resolution db ip now db' d
  unfolding resolve_device heal
  resolve_device-Resolution h = elim (Option-cases (owner_of_ip db ip)) [
    | inr (x, e) ↦
        let q = some_inj (rw (resolve_device, e) at h) in
        found (e ∙ ap (λ (z : Database × Option Device). z.1) q)
          (sym (ap (λ (z : Database × Option Device). z.0) q))
    | inl e ↦ elim (Option-cases (orphaned_binding db ip)) [
      | inl o ↦ absurd (
          let q = some_inj (rw (resolve_device, e, o) at h) in
          let q' = ap (λ (z : Database × Option Device). z.1) q in ground arith)
      | inr (a, o) ↦ elim (Option-cases (healed_device db a.mac_address)) [
        | inl f ↦ made a e o f (heal-made a.mac_address f (rw (resolve_device, e, o) at h))
        | inr (x, f) ↦
            let (b, m, g, j) = healed-In db a.mac_address x f in
            let q = some_inj (
              rw (resolve_device, e, o, heal, f, join_device_self db.devices b.device_id x j) at
                h) in
            healed a e o (f ∙ ap (λ (z : Database × Option Device). z.1) q)
              (sym (ap (λ (z : Database × Option Device). z.0) q))
      ]
    ]
  ]

module _ (db : Database) (ip : String) (now : ℕ) (db' : Database) (d : Device) where
  pub adopted-In :
      (a : Binding)
      → orphaned_binding db ip ≡ some a
      → IsAdopted db a.mac_address now db' d
      → (b : Binding) × In b db'.device_bindings
        × (b.mac_address ≡ a.mac_address)
        × (holds_ip ip b ≡ true)
        × (join_device db'.devices b.device_id ≡ some d)
  unfolding is_adoptable adopted holds_ip join_device
  adopted-In a o (q, ds, bs, w) =
      let i = next_id (map (λ (z : Device). z.id) db.devices) in
      let (m, h, n) = orphaned-In db ip a o in
      let k : is_adoptable a.mac_address a ≡ true = rw (n, beq_refl a.mac_address) refl in
      (
        adopted i a,
        subst (In (adopted i a)) (sym bs) (
            In-update_where_picked (is_adoptable a.mac_address) (adopted i) a db.device_bindings m
              k),
        refl,
        h,
        w,
      )

  -- The device that is found for an address is the device of a binding of the MAC that holds the
  -- address.
  pub resolve_device-some :
      resolve_device db ip now ≡ some (db', some d)
      → (a b : Binding) × In a db.device_bindings
        × (a.ipv4_address ≡ ip)
        × (a.active ≡ true)
        × In b db'.device_bindings
        × (b.mac_address ≡ a.mac_address)
        × (join_device db'.devices b.device_id ≡ some d)
  resolve_device-some h = elim (resolve_device-Resolution db ip now db' d h) [
    | found e q ↦
        let (b, m, k, j) = owner_of_ip-some db ip d e in
        let f = holds_ip-fields ip b k in
        (
          b,
          b,
          m,
          f.0,
          f.1,
          subst (λ (z : Database). In b z.device_bindings) (sym q) m,
          refl,
          subst (λ (z : Database). join_device z.devices b.device_id ≡ some d) (sym q) j,
        )
    | healed a e o f q ↦
        let (m, k, n) = orphaned-In db ip a o in
        let g = holds_ip-fields ip a k in
        let (b, mb, s, j) = healed-In db a.mac_address d f in
        (
          a,
          b,
          m,
          g.0,
          g.1,
          subst (λ (z : Database). In b z.device_bindings) (sym q) mb,
          s,
          subst (λ (z : Database). join_device z.devices b.device_id ≡ some d) (sym q) j,
        )
    | made a e o f r ↦
        let (m, k, n) = orphaned-In db ip a o in
        let g = holds_ip-fields ip a k in
        let (b, mb, s, l, j) = adopted-In a o r in (a, b, m, g.0, g.1, mb, s, j)
  ]
