-- ===== src/Tables/Logs.antt =====
-- common/db.py: `access_log`, `network_events` and `system_events`.
use opti_gate.Base.{ℕ, String, Option, Bool}

pub record AccessRow : Type 0 where
  pub ts : ℕ
  pub user_id : Option ℕ
  pub username : String
  pub domain : String
  pub path : Option String
  pub series_id : Option String
  pub series_name : Option String
  pub allowed : Bool
  pub reason : String
  pub device_id : Option ℕ
  pub ip_address : Option String
  pub block_source : Option String

-- `payload` is the one key and value that the JSON text of the row holds.
pub record NetworkEvent : Type 0 where
  pub event_type : String
  pub device_id : Option ℕ
  pub mac_address : Option String
  pub ipv4_address : Option String
  pub source : String
  pub observed_at : ℕ
  pub payload : Option (String × String)

pub data Severity : Type 0 where
  error recovery info : Severity

pub record SystemEvent : Type 0 where
  pub id : ℕ
  pub ts : ℕ
  pub source : String
  pub severity : Severity
  pub message : String
  pub detail : Option String
