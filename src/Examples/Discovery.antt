-- ===== src/Examples/Discovery.antt =====
-- Observations of the household's devices, and requests from its addresses.
use opti_gate.Base.{
  ℕ, String, Option, none, some, List, [], ◌∷◌, Bool, true, false, ◌≡◌, ◌≢◌, refl, sym, ap, subst,
  inl, inr, In, any, find?, ◌==◌, string_eq, arith, some_inj, ◌∙◌,
}
use opti_gate.Tables.{Database, Binding, Device, HasUniqueAddresses, join_device, device_by_id}
use opti_gate.Matching.Lan.{ip_in_configured_lan}
use opti_gate.Identity.Bindings.{is_pair, is_known_source, record_binding}
use opti_gate.Identity.Observed.{DeviceOutcome}
use opti_gate.Identity.Unique.{
  record_binding-HasUniqueAddresses, record_binding-DeviceOutcome, record_binding-conflict,
}
use opti_gate.Identity.Resolve.{resolve_device, owner_of_ip, orphaned_binding, healed_device}
use opti_gate.Identity.Healing.{HasOwners}
use opti_gate.Identity.Resolved.{resolve_device-some}
use opti_gate.Identity.Stable.{resolve_device-resolve_device}
use opti_gate.Examples.Policies.{home-HasUniqueAddresses}
use opti_gate.Identity.Stuck.{HasNoOwner, IsOrphan, IsStuck, resolve_device-none}
use opti_gate.Examples.Household.{
  platform, home, moved, readded, laptop, printer, laptop_binding, printer_binding, old_binding,
  orphan_binding,
}

on_lan : ip_in_configured_lan platform home "10.0.0.10" ≡ true
unfolding ip_in_configured_lan opti_gate.Base.strip opti_gate.Settings.get_setting find?
on_lan = refl

known : is_known_source "rtnetlink" ≡ true
unfolding is_known_source opti_gate.Base.contains
known = refl

fresh : any (is_pair "cc" "10.0.0.10") home.device_bindings ≡ false
unfolding is_pair any
fresh = refl

record_binding-HasUniqueAddresses_example :
    (db' : Database) × (record_binding platform home "cc" "10.0.0.10" "rtnetlink" 200 ≡ some db')
    × HasUniqueAddresses db'
    × ((b : Binding) × In b db'.device_bindings
        × (b.active ≡ true)
        × (b.ipv4_address ≡ "10.0.0.10")
        × (b.mac_address ≡ "cc"))
record_binding-HasUniqueAddresses_example =
    record_binding-HasUniqueAddresses platform home "cc" "10.0.0.10" "rtnetlink" 200 on_lan known
      fresh home-HasUniqueAddresses

record_binding-DeviceOutcome_example :
    (db' : Database) × (b : Binding) × (record_binding platform home "cc" "10.0.0.10" "rtnetlink"
        200
      ≡ some db')
    × In b db'.device_bindings
    × (b.mac_address ≡ "cc")
    × DeviceOutcome home.devices home.device_bindings "cc" db'.devices b.device_id
record_binding-DeviceOutcome_example =
    record_binding-DeviceOutcome platform home "cc" "10.0.0.10" "rtnetlink" 200 on_lan known fresh

on_lan_again : ip_in_configured_lan platform moved "10.0.0.11" ≡ true
unfolding ip_in_configured_lan opti_gate.Base.strip opti_gate.Settings.get_setting find?
on_lan_again = refl

seen_before : find? (is_pair "aa" "10.0.0.11") moved.device_bindings ≡ some old_binding
unfolding is_pair find?
seen_before = refl

record_binding-conflict_example :
    (db' : Database) × (record_binding platform moved "aa" "10.0.0.11" "rtnetlink" 200 ≡ some db')
    × (HasUniqueAddresses db' → ⊥)
record_binding-conflict_example =
    record_binding-conflict platform moved "aa" "10.0.0.11" "rtnetlink" 200 printer_binding
      old_binding on_lan_again known seen_before (inr (inr (inl refl))) refl refl
      (λ e. ground arith)

owner_at :
    (b c : Binding) (i j : ℕ) (d : Device)
    → b ≡ c
    → b.device_id ≡ some i
    → c.device_id ≡ some j
    → device_by_id home.devices j ≡ some d
    → (x : Device) × (device_by_id home.devices i ≡ some x)
owner_at b c i j d p h k e =
    let q : some j ≡ some i = sym k ∙ sym (ap (λ (z : Binding). z.device_id) p) ∙ h in
    (d, subst (λ x. device_by_id home.devices x ≡ some d) (some_inj q) e)

laptop_by_id : device_by_id home.devices 1 ≡ some laptop
unfolding device_by_id find?
laptop_by_id = refl

printer_by_id : device_by_id home.devices 2 ≡ some printer
unfolding device_by_id find?
printer_by_id = refl

home-HasOwners : HasOwners home
home-HasOwners b i (inl p) h = owner_at b laptop_binding i 1 laptop p h refl laptop_by_id
home-HasOwners b i (inr (inl p)) h = owner_at b printer_binding i 2 printer p h refl printer_by_id
home-HasOwners b i (inr (inr m)) h = absurd m

laptop_found : resolve_device home "10.0.0.10" 7 ≡ some (home, some laptop)
unfolding resolve_device owner_of_ip opti_gate.Base.first_where opti_gate.Identity.Resolve.is_owned
    opti_gate.Identity.Bindings.holds_ip join_device find?
laptop_found = refl

resolve_device-some_example :
    (a b : Binding) × In a home.device_bindings
    × (a.ipv4_address ≡ "10.0.0.10")
    × (a.active ≡ true)
    × In b home.device_bindings
    × (b.mac_address ≡ a.mac_address)
    × (join_device home.devices b.device_id ≡ some laptop)
resolve_device-some_example = resolve_device-some home "10.0.0.10" 7 home laptop laptop_found

resolve_device-resolve_device_example : resolve_device home "10.0.0.10" 8 ≡ some (home, some laptop)
resolve_device-resolve_device_example =
    resolve_device-resolve_device home "10.0.0.10" 7 home laptop home-HasOwners laptop_found 8

differ : (x y : String) → string_eq.same x y ≡ false → x ≡ y → ⊥
differ x y h e = let k = (string_eq.same_iff x y).1 e in cc

no_owner : HasNoOwner readded "10.0.0.10"
unfolding join_device
no_owner b (inl e) active here = ap (λ (z : Binding). join_device readded.devices z.device_id) e
no_owner b (inr (inl e)) active here =
    absurd
      (differ "10.0.0.11" "10.0.0.10" refl (sym (ap (λ (z : Binding). z.ipv4_address) e) ∙ here))
no_owner b (inr (inr n)) active here = absurd n

no_healing :
    (b : Binding)
    → In b readded.device_bindings
    → b.mac_address ≡ "aa"
    → join_device readded.devices b.device_id ≡ none
unfolding join_device
no_healing b (inl e) same = ap (λ (z : Binding). join_device readded.devices z.device_id) e
no_healing b (inr (inl e)) same =
    absurd (differ "bb" "aa" refl (sym (ap (λ (z : Binding). z.mac_address) e) ∙ same))
no_healing b (inr (inr n)) same = absurd n

readded-IsStuck : (c : Binding) → IsOrphan readded "10.0.0.10" c → IsStuck readded "10.0.0.10" c
readded-IsStuck c (inl e, active, here, none_here) =
    subst (IsStuck readded "10.0.0.10") (sym e) ((laptop, inl refl, refl), no_healing)
readded-IsStuck c (inr (inl e), active, here, none_here) =
    absurd
      (differ "10.0.0.11" "10.0.0.10" refl (sym (ap (λ (z : Binding). z.ipv4_address) e) ∙ here))
readded-IsStuck c (inr (inr n), active, here, none_here) = absurd n

resolve_device-none_example : resolve_device readded "10.0.0.10" 7 ≡ none
resolve_device-none_example =
    (resolve_device-none readded "10.0.0.10" 7).1 no_owner
      (orphan_binding, (inl refl, refl, refl, refl)) readded-IsStuck
