-- ===== src/Identity/Resolve.antt =====
-- common/device_identity.py and common/identity.py, lines 296 to 346: the device and the person
-- behind an address. none is an exception, after which the transaction is rolled back.
use opti_gate.Base.{ℕ, String, Option, none, some, Bool, true, false, not, ◌&&◌, List}
use opti_gate.Base.{
  ◌==◌, nat_eq, string_eq, if◌then◌else◌, find?, update_where, leb, is_some, first_where, is_empty,
}
use opti_gate.Tables.{Database, Binding, Device, User, device_by_id, join_device, sql_eq}
use opti_gate.Identity.Bindings.{holds_ip, has_id, create_pending_device}

-- ORDER BY last_seen_at DESC, rows of one second in the order of the table.
abbrev pub newest_first : Binding → Binding → Bool
newest_first a b = leb b.last_seen_at a.last_seen_at

-- The JOIN: an active binding of the address whose device is there.
unfoldable pub is_owned : Database → String → Binding → Bool
is_owned db ip b = holds_ip ip b && is_some (join_device db.devices b.device_id)

unfoldable pub owner_of_ip : Database → String → Option Device
owner_of_ip db ip = elim (first_where newest_first (is_owned db ip) db.device_bindings) [
  | none ↦ none
  | some b ↦ join_device db.devices b.device_id
]

unfoldable pub is_orphaned : String → Binding → Bool
is_orphaned ip b = holds_ip ip b && not (is_some b.device_id)

unfoldable pub orphaned_binding : Database → String → Option Binding
orphaned_binding db ip = first_where newest_first (is_orphaned ip) db.device_bindings

-- The device of any binding of the MAC.
unfoldable pub is_healed : Database → String → Binding → Bool
is_healed db mac b = b.mac_address == mac && is_some (join_device db.devices b.device_id)

unfoldable pub healed_device : Database → String → Option Device
healed_device db mac = elim (find? (is_healed db mac) db.device_bindings) [
  | none ↦ none
  | some b ↦ join_device db.devices b.device_id
]

-- UPDATE device_bindings SET device_id = ? WHERE mac_address = ? AND device_id IS NULL
unfoldable pub is_adoptable : String → Binding → Bool
is_adoptable mac b = b.mac_address == mac && not (is_some b.device_id)

unfoldable pub adopted : ℕ → Binding → Binding
adopted i b = record b { device_id = some i }

unfoldable pub adopt : Database → ℕ → String → Database
adopt db i mac = record db {
  device_bindings = update_where (is_adoptable mac) (adopted i) db.device_bindings;
}

-- The locked part: the device of the MAC, made if no binding has one.
unfoldable pub heal : Database → String → ℕ → Option (Database × Option Device)
heal db mac now = elim (healed_device db mac) [
  | some d ↦ some (db, device_by_id db.devices d.id)
  | none ↦ elim (create_pending_device db mac now) [
    | none ↦ none
    | some (db₁, i) ↦ let db₂ = adopt db₁ i mac in some (db₂, device_by_id db₂.devices i)
  ]
]

unfoldable pub resolve_device : Database → String → ℕ → Option (Database × Option Device)
resolve_device db client_ip now = elim (owner_of_ip db client_ip) [
  | some d ↦ some (db, some d)
  | none ↦ elim (orphaned_binding db client_ip) [
    | none ↦ some (db, none)
    | some b ↦ heal db b.mac_address now
  ]
]

unfoldable pub user_by_id : List User → ℕ → Option User
user_by_id users i = find? (λ (u : User). u.id == i) users

unfoldable pub resolve_user_for_device : Database → Option Device → Option User
resolve_user_for_device db none = none
resolve_user_for_device db (some d) = elim d.user_id [
  | none ↦ none
  | some i ↦ user_by_id db.users i
]

-- `device["label"] or device["mac_address"]`
unfoldable pub label_of : Device → String
label_of d = elim d.label [
  | none ↦ d.mac_address
  | some l ↦ if is_empty l then d.mac_address else l
]

-- (user_id, username, device_id) of a log row.
unfoldable pub log_identity_fields : Option Device → Option User → Option ℕ × String × Option ℕ
log_identity_fields none (some u) = (some u.id, u.username, none)
log_identity_fields (some d) (some u) = (some u.id, u.username, some d.id)
log_identity_fields (some d) none = (none, label_of d, some d.id)
log_identity_fields none none = (none, "(unauthenticated)", none)

unfoldable pub is_active_of : ℕ → Binding → Bool
is_active_of device_id b = sql_eq b.device_id device_id && b.active

unfoldable pub active_binding_ip : Database → ℕ → Option String
active_binding_ip db device_id =
    elim (first_where newest_first (is_active_of device_id) db.device_bindings) [
      | none ↦ none
      | some b ↦ some b.ipv4_address
    ]

-- The second result is whether anything was updated.
unfoldable pub touch_binding_by_ip : Database → String → ℕ → String → Database × Bool
touch_binding_by_ip db ip seen_at source = elim (find? (holds_ip ip) db.device_bindings) [
  | none ↦ (db, false)
  | some row ↦ if leb seen_at row.last_seen_at then (db, false) else (
    record db {
      device_bindings =
          update_where (has_id row.id)
            (λ (b : Binding). record b { last_seen_at = seen_at; source = source })
            db.device_bindings;
    },
    true,
  )
]
