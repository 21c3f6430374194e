-- ===== src/Identity/Bindings.antt =====
-- common/identity.py, lines 24 to 293: an observed pair of MAC and address becomes a binding.
-- none is an exception (a constraint of the schema that fails), after which `record_binding` rolls
-- back. `confidence` and `hostname`, which nothing here reads, are not kept.
use opti_gate.Base.{
  ℕ, String, Option, none, some, List, [], ◌∷◌, ◌++◌, Bool, true, false, not, ◌&&◌, ◌<>◌,
}
use opti_gate.Base.{
  ◌==◌, nat_eq, string_eq, if◌then◌else◌, find?, any, update_where, contains, ◌>>=◌, map,
}
use opti_gate.Tables.{Database, Binding, Device, NetworkEvent, Severity}
use opti_gate.Platform.{Platform}
use opti_gate.Matching.Lan.{ip_in_configured_lan}
use opti_gate.Identity.Events.{record_event, next_id, log_event}

-- `mac_address = ? AND ipv4_address = ?`
unfoldable pub is_pair : String → String → Binding → Bool
is_pair mac ip b = b.mac_address == mac && b.ipv4_address == ip

-- `ipv4_address = ? AND active = 1`
unfoldable pub holds_ip : String → Binding → Bool
holds_ip ip b = b.ipv4_address == ip && b.active

-- `mac_address = ? AND active = 1`
unfoldable pub holds_mac : String → Binding → Bool
holds_mac mac b = b.mac_address == mac && b.active

unfoldable pub has_id : ℕ → Binding → Bool
has_id i b = b.id == i

-- UPDATE device_bindings SET active = 0 WHERE id = ?
unfoldable pub deactivated : Binding → Binding
deactivated b = record b { active = false }

unfoldable pub deactivate : ℕ → List Binding → List Binding
unfolding has_id deactivated
deactivate i rows = update_where (has_id i) deactivated rows

-- UPDATE … SET last_seen_at = ?, source = ?, active = 1, for the row of the pair itself.
unfoldable pub reactivated : ℕ → String → Binding → Binding
reactivated now source b = record b { last_seen_at = now; source = source; active = true }

-- CHECK (source IN …) of `device_bindings`.
unfoldable pub is_known_source : String → Bool
is_known_source source =
    contains ("rtnetlink" ∷ "snapshot" ∷ "adguard" ∷ "bettercap" ∷ "active_scan" ∷ []) source

unfoldable pub network_event :
    String → Option ℕ → String → String → String → ℕ → Option (String × String) → NetworkEvent
network_event type device mac ip source now payload = record {
  event_type = type;
  device_id = device;
  mac_address = some mac;
  ipv4_address = some ip;
  source = source;
  observed_at = now;
  payload = payload;
}

-- Conflict 1: whoever else holds the address loses it.
unfoldable pub release_ip : Database → String → String → String → ℕ → Database
release_ip db mac ip source now = elim (find? (holds_ip ip) db.device_bindings) [
  | none ↦ db
  | some c ↦
      record_event
        (network_event "ip_reassigned" c.device_id c.mac_address ip source now
          (some ("new_mac_address", mac)))
        (record db { device_bindings = deactivate c.id db.device_bindings })
]

-- Conflict 2: the MAC loses the other address that it holds. Its device goes to the new binding.
unfoldable pub mac_conflict : Database → String → Option Binding
unfolding holds_mac
mac_conflict db mac = find? (holds_mac mac) db.device_bindings

unfoldable pub release_mac : Database → String → String → String → ℕ → Database
release_mac db mac ip source now = elim (mac_conflict db mac) [
  | none ↦ db
  | some c ↦
      if not (c.ipv4_address == ip)
      then record_event
          (network_event "ip_changed" c.device_id mac c.ipv4_address source now
            (some ("new_ipv4_address", ip)))
          (record db { device_bindings = deactivate c.id db.device_bindings })
      else db
]

unfoldable pub mac_device : Option Binding → Option ℕ
mac_device none = none
mac_device (some c) = c.device_id

unfoldable pub existing_device_id_for_mac : Database → String → Option ℕ
existing_device_id_for_mac db mac = elim (find? (λ (d : Device). d.mac_address == mac) db.devices) [
  | none ↦ none
  | some d ↦ some d.id
]

unfoldable pub mac_has_any_prior_binding : Database → String → Bool
mac_has_any_prior_binding db mac = any (λ (b : Binding). b.mac_address == mac) db.device_bindings

-- The row that `create_pending_device` inserts, with the defaults of the schema.
unfoldable pub pending_device : ℕ → String → ℕ → Device
pending_device i mac now = record {
  id = i;
  mac_address = mac;
  label = none;
  user_id = none;
  group_id = none;
  ignored = false;
  bump_enabled = false;
  bypass_login = false;
  is_authenticated = false;
  quarantined_at = none;
  created_at = now;
}

-- `devices.mac_address` is UNIQUE.
unfoldable pub create_pending_device : Database → String → ℕ → Option (Database × ℕ)
unfolding pending_device next_id
create_pending_device db mac now =
    if any (λ (d : Device). d.mac_address == mac) db.devices
    then none
    else let i = next_id (map (λ (d : Device). d.id) db.devices) in
      some (record db { devices = db.devices ++ (pending_device i mac now ∷ []) }, i)

-- The device of the new binding, and whether it was made for it.
unfoldable pub identify : Database → Option ℕ → String → ℕ → Option (Database × Option ℕ × Bool)
identify db (some i) mac now = some (db, some i, false)
identify db none mac now = elim (existing_device_id_for_mac db mac) [
  | some i ↦ some (db, some i, false)
  | none ↦
      if mac_has_any_prior_binding db mac
      then some (db, none, false)
      else elim (create_pending_device db mac now) [
        | none ↦ none
        | some (db', i) ↦ some (db', some i, true)
      ]
]

unfoldable pub new_binding : Database → Option ℕ → String → String → String → ℕ → Binding
unfolding next_id
new_binding db device mac ip source now = record {
  id = next_id (map (λ (b : Binding). b.id) db.device_bindings);
  device_id = device;
  mac_address = mac;
  ipv4_address = ip;
  first_seen_at = now;
  last_seen_at = now;
  source = source;
  active = true;
}

unfoldable pub insert_binding : Database → Option ℕ → String → String → String → ℕ → Option Database
unfolding new_binding is_pair
insert_binding db device mac ip source now =
    if is_known_source source && not (any (is_pair mac ip) db.device_bindings)
    then some (record db {
      device_bindings = db.device_bindings ++ (new_binding db device mac ip source now ∷ []);
    })
    else none

-- The events of a device that was made, or of one still to be associated.
unfoldable pub announce : Database → Option ℕ → Bool → String → String → String → ℕ → Database
unfolding record_event log_event
announce db device true mac ip source now =
    log_event (record_event (network_event "device_auto_created" device mac ip source now none) db)
      now "device_discovery" Severity.info
      ("New device discovered: " <> mac <> " (" <> ip <> "), via " <> source <> ".") none
announce db none false mac ip source now =
    record_event (network_event "binding_pending_association" none mac ip source now none) db
announce db (some i) false mac ip source now = db

-- The body of `_record_binding_locked` for a pair that is not stored yet.
unfoldable pub observe_new : Database → String → String → String → ℕ → Option Database
observe_new db mac ip source now =
    let db₁ = release_ip db mac ip source now in
    let c = mac_conflict db₁ mac in
    let db₂ = release_mac db₁ mac ip source now in
    identify db₂ (mac_device c) mac now >>= (λ (db₃, device, auto_created).
      insert_binding db₃ device mac ip source now
      >>= (λ db₄. some (announce db₄ device auto_created mac ip source now)))

-- The row of a pair that was seen before is marked active, and nothing else happens.
unfoldable pub observe_again : Database → Binding → String → ℕ → Option Database
unfolding has_id reactivated
observe_again db b source now =
    if is_known_source source
    then some (record db {
      device_bindings = update_where (has_id b.id) (reactivated now source) db.device_bindings;
    })
    else none

unfoldable pub record_binding_locked : Database → String → String → String → ℕ → Option Database
unfolding is_pair
record_binding_locked db mac ip source now = elim (find? (is_pair mac ip) db.device_bindings) [
  | some b ↦ observe_again db b source now
  | none ↦ observe_new db mac ip source now
]

unfoldable pub record_binding : Platform → Database → String → String → String → ℕ → Option Database
record_binding π db mac ip source now =
    if ip_in_configured_lan π db ip then record_binding_locked db mac ip source now else some db
