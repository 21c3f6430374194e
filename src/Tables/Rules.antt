-- ===== src/Tables/Rules.antt =====
-- common/db.py: `domains`, `adguard_allowlist`, the category and the schedule tables, `user_shows`
-- and `series_cache`.
use opti_gate.Base.{ℕ, String, Option, Bool}

pub data Mode : Type 0 where
  splice bump trusted : Mode

pub data Kind : Type 0 where
  generic crunchyroll : Kind

pub record Domain : Type 0 where
  pub id : ℕ
  pub pattern : String
  pub mode : Mode
  pub kind : Kind
  pub is_global : Bool

pub record AllowlistEntry : Type 0 where
  pub id : ℕ
  pub pattern : String
  pub is_global : Bool

pub record Category : Type 0 where
  pub id : ℕ
  pub name : String
  pub subscription_url : Option String
  pub is_global : Bool

pub data CategorySource : Type 0 where
  subscription manual : CategorySource

pub record CategoryDomain : Type 0 where
  pub category_id : ℕ
  pub pattern : String
  pub source : CategorySource

pub record Schedule : Type 0 where
  pub id : ℕ
  pub name : String
  pub days_of_week : String
  pub start_time : String
  pub end_time : String
  pub time_zone : String
  pub lockout_all : Bool
  pub is_global : Bool
  pub is_mode : Bool

pub record ScheduleOverride : Type 0 where
  pub id : ℕ
  pub schedule_id : ℕ
  pub user_id : Option ℕ
  pub group_id : Option ℕ
  pub device_id : Option ℕ
  pub created_at : ℕ
  pub expires_at : ℕ

pub record UserShow : Type 0 where
  pub user_id : ℕ
  pub series_id : String
  pub series_name : String

-- `series_id` is text, and the text "__missing__" stands for a known absence.
pub record SeriesCacheRow : Type 0 where
  pub object_id : String
  pub series_id : String
  pub expires_at : ℕ
