-- ===== src/Identity/Stable.antt =====
-- common/device_identity.py, lines 63 to 146: requests after the first.
use opti_gate.Base.{ℕ, String, none, some, true, map}
use opti_gate.Base.{nat_eq, string_eq}
use opti_gate.Base.{◌≡◌, refl, sym, ◌∙◌, ap, inl, inr, arith, Option-cases, In, subst}
use opti_gate.Base.{update_where-In}
use opti_gate.Tables.{Database, Binding, Device, join_device}
use opti_gate.Identity.Events.{next_id}
use opti_gate.Identity.Resolve.{is_owned, owner_of_ip}
use opti_gate.Identity.Resolve.{is_adoptable, adopted, heal, resolve_device}
use opti_gate.Identity.Healing.{
  HasOwners, is_owned-fields, fields-is_owned, owner_of_ip-none, owner_of_ip_unique,
}
use opti_gate.Identity.Resolved.{
  resolve_device-Resolution, found, healed, made, IsAdopted, adopted-In,
}
use opti_gate.Identity.Resolved.{healed-In, join_device_self}

module _ (db : Database) (ip : String) (now : ℕ) (db' : Database) (d : Device) where
  -- A binding that had no owner before the adoption has the new device after it.
  owned_after :
      (mac : String) (c : Binding)
      → HasOwners db
      → owner_of_ip db ip ≡ none
      → IsAdopted db mac now db' d
      → In c db'.device_bindings
      → is_owned db' ip c ≡ true
      → join_device db'.devices c.device_id ≡ some d
  unfolding adopted join_device
  owned_after mac c f e (q, ds, bs, w) m k =
      let i = next_id (map (λ (z : Device). z.id) db.devices) in
      let (a, ia, r) =
        update_where-In (is_adoptable mac) (adopted i) c db.device_bindings (subst (In c) bs m) in
      let (x, h, j) = is_owned-fields db' ip c k in
      elim r [
        | inl r ↦ ap (λ (z : Binding). join_device db'.devices z.device_id) r.1 ∙ w
        | inr r ↦
            let ic : In c db.device_bindings = subst (λ z. In z db.device_bindings) (sym r.1) ia in
            elim (Option-cases c.device_id) [
              | inl n ↦ absurd (let t = ap (join_device db'.devices) (sym n) ∙ j in ground arith)
              | inr (l, n) ↦
                  let (y, g) = f c l ic n in
                  let o : is_owned db ip c ≡ true =
                    fields-is_owned db ip c y h (ap (join_device db.devices) n ∙ g) in
                  absurd (let u = owner_of_ip-none db ip e c ic in ground arith)
            ]
      ]

  -- Where every binding's device is in the database: once a device is found for an address, every
  -- later request from it finds the same device, and changes nothing.
  pub resolve_device-resolve_device :
      HasOwners db
      → resolve_device db ip now ≡ some (db', some d)
      → (later : ℕ) → resolve_device db' ip later ≡ some (db', some d)
  unfolding resolve_device heal
  resolve_device-resolve_device f h later = elim (resolve_device-Resolution db ip now db' d h) [
    | found e q ↦
        subst (λ z. resolve_device z ip later ≡ some (z, some d)) (sym q)
          (rw (resolve_device, e) refl)
    | healed a e o g q ↦
        let (b, m, s, j) = healed-In db a.mac_address d g in
        subst (λ z. resolve_device z ip later ≡ some (z, some d)) (sym q)
          (rw (resolve_device, e, o, heal, g, join_device_self db.devices b.device_id d j) refl)
    | made a e o g r ↦
        let (b, m, s, k, j) = adopted-In db ip now db' d a o r in
        let w =
          owner_of_ip_unique db' ip b d m (fields-is_owned db' ip b d k j)
            (λ c ic kc. owned_after a.mac_address c f e r ic kc) in
        rw (resolve_device, w) refl
  ]
