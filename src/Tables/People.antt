-- ===== src/Tables/People.antt =====
-- common/db.py: `users`, `groups`, `devices` and `device_bindings`, and the rows that a query makes
-- of a device, whose columns are all NULL after a LEFT JOIN that found none.
use opti_gate.Base.{ℕ, String, List, Option, Bool, false, none, some, ◌==◌, find?, nat_eq}

pub record User : Type 0 where
  pub id : ℕ
  pub username : String
  pub display_name : String
  pub password_hash : String

pub record Group : Type 0 where
  pub id : ℕ
  pub name : String
  pub ignored : Bool

pub record Device : Type 0 where
  pub id : ℕ
  pub mac_address : String
  pub label : Option String
  pub user_id : Option ℕ
  pub group_id : Option ℕ
  pub ignored : Bool
  pub bump_enabled : Bool
  pub bypass_login : Bool
  pub is_authenticated : Bool
  pub quarantined_at : Option ℕ
  pub created_at : ℕ

pub record Binding : Type 0 where
  pub id : ℕ
  pub device_id : Option ℕ
  pub mac_address : String
  pub ipv4_address : String
  pub first_seen_at : ℕ
  pub last_seen_at : ℕ
  pub source : String
  pub active : Bool

-- A `devices` row as the policy functions read it.
pub record DeviceRow : Type 0 where
  pub id : Option ℕ
  pub user_id : Option ℕ
  pub group_id : Option ℕ
  pub ignored : Option Bool
  pub quarantined_at : Option ℕ
  pub is_authenticated : Option Bool
  pub bypass_login : Option Bool
  pub bump_enabled : Option Bool

unfoldable pub row_of : Device → DeviceRow
row_of d = record {
  id = some d.id;
  user_id = d.user_id;
  group_id = d.group_id;
  ignored = some d.ignored;
  quarantined_at = d.quarantined_at;
  is_authenticated = some d.is_authenticated;
  bypass_login = some d.bypass_login;
  bump_enabled = some d.bump_enabled;
}

-- The columns `d.*` of a binding whose device is gone.
abbrev pub null_row : DeviceRow
null_row = record {
  id = none;
  user_id = none;
  group_id = none;
  ignored = none;
  quarantined_at = none;
  is_authenticated = none;
  bypass_login = none;
  bump_enabled = none;
}

-- Python's truth of a nullable flag.
abbrev pub truthy : Option Bool → Bool
truthy none = false
truthy (some b) = b

-- `devices.id = ?`
unfoldable pub device_by_id : List Device → ℕ → Option Device
device_by_id devices i = find? (λ (d : Device). d.id == i) devices

-- `LEFT JOIN devices d ON d.id = b.device_id`
unfoldable pub join_device : List Device → Option ℕ → Option Device
unfolding device_by_id
join_device devices none = none
join_device devices (some i) = device_by_id devices i

unfoldable pub row_of_join : Option Device → DeviceRow
unfolding row_of
row_of_join none = null_row
row_of_join (some d) = row_of d

-- `LEFT JOIN groups g ON g.id = d.group_id`, and of it `COALESCE(g.ignored, 0)`
unfoldable pub group_ignored_of : List Group → Option ℕ → Bool
group_ignored_of groups none = false
group_ignored_of groups (some i) = elim (find? (λ (g : Group). g.id == i) groups) [
  | none ↦ false
  | some g ↦ g.ignored
]

-- A row of the join that the policy and the DNS rules are computed from.
pub record PolicyRow : Type 0 where
  pub device : DeviceRow
  pub group_ignored : Bool
  pub ipv4_address : String
