-- ===== src/Tables.antt =====
-- The SQLite schema of common/db.py (SCHEMA): one record for each table that the modelled code
-- reads or writes, with the columns that it uses, and the database that holds them.
-- A table is the list of its rows by rowid. Flags (INTEGER 0 or 1) are Booleans, a nullable column
-- is an `Option`, and a timestamp (ISO-8601 in UTC, of fixed width, so that text order is time
-- order) is the number of its second. SQL's `=` with NULL on a side is never true.
mod People
mod Rules
mod Logs
unfoldable pub use People.*
pub use Rules.*
pub use Logs.*
use opti_gate.Base.{
  ℕ, String, List, Option, Bool, false, none, some, ◌+◌, any, ◌==◌, ◌&&◌, filter, find?,
}
use opti_gate.Base.{nat_eq, string_eq, In, true, ◌≡◌}

pub record Database : Type 0 where
  pub settings : List (String × String)
  pub users : List User
  pub groups : List Group
  pub devices : List Device
  pub device_bindings : List Binding
  pub domains : List Domain
  pub domain_paths : List (ℕ × String)
  pub user_domains : List (ℕ × ℕ)
  pub group_domains : List (ℕ × ℕ)
  pub device_domains : List (ℕ × ℕ)
  pub adguard_allowlist : List AllowlistEntry
  pub user_adguard_allowlist : List (ℕ × ℕ)
  pub group_adguard_allowlist : List (ℕ × ℕ)
  pub device_adguard_allowlist : List (ℕ × ℕ)
  pub categories : List Category
  pub category_domains : List CategoryDomain
  pub category_overrides : List (ℕ × String)
  pub category_users : List (ℕ × ℕ)
  pub category_groups : List (ℕ × ℕ)
  pub category_devices : List (ℕ × ℕ)
  pub schedules : List Schedule
  pub schedule_categories : List (ℕ × ℕ)
  pub schedule_users : List (ℕ × ℕ)
  pub schedule_groups : List (ℕ × ℕ)
  pub schedule_devices : List (ℕ × ℕ)
  pub schedule_overrides : List ScheduleOverride
  pub user_shows : List UserShow
  pub series_cache : List SeriesCacheRow
  pub access_log : List AccessRow
  pub network_events : List NetworkEvent
  pub system_events : List SystemEvent

-- `SELECT 1 FROM junction WHERE left = ? AND right = ?`
unfoldable pub has_pair : List (ℕ × ℕ) → ℕ → ℕ → Bool
has_pair rows a b = any (λ (r : ℕ × ℕ). r.0 == a && r.1 == b) rows

-- The same where the second operand may be NULL.
unfoldable pub has_pair_null : List (ℕ × ℕ) → ℕ → Option ℕ → Bool
unfolding has_pair
has_pair_null rows a none = false
has_pair_null rows a (some b) = has_pair rows a b

-- `column = ?` where the column is nullable.
abbrev pub sql_eq : Option ℕ → ℕ → Bool
sql_eq none b = false
sql_eq (some a) b = a == b

-- No two active bindings hold one address.
abbrev pub HasUniqueAddresses : Database → Type 0
HasUniqueAddresses db =
    (a b : Binding)
    → In a db.device_bindings
    → In b db.device_bindings
    → a.active ≡ true
    → b.active ≡ true
    → a.ipv4_address ≡ b.ipv4_address
    → a ≡ b
