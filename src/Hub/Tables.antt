-- ===== src/Hub/Tables.antt =====
-- hub/timekpr_hub/db/models.py: the rows that the services read and write. An id is a number, a date
-- its ordinal (`date.toordinal`), an instant its microseconds.
use timekpr_next_hub.Base.{ℕ, String, Bool, Option, List}
pub use timekpr_next_hub.Core.Calendar.{isoweekday}
use timekpr_next_hub.Base.Int.{ℤ}
use timekpr_next_hub.Core.Models.{
  Weekday, AccountingMode, OfflinePolicy, LockoutType, AllowedHourInterval, PlayTimePayload,
}

pub record User : Type 0 where
  pub id : ℕ
  pub canonical_username : String
  pub display_name : String
  pub current_policy_id : Option ℕ
  pub accounting_mode : AccountingMode
  pub offline_policy : OfflinePolicy
  pub offline_grace_s : ℤ
  pub offline_cap_s : ℤ
  pub gated_weekdays_json : List Weekday

-- A device's local account, of a user.
pub record UserAlias : Type 0 where
  pub user_id : ℕ
  pub device_id : ℕ
  pub local_username : String
  pub policy_push_error : Option String
  pub policy_push_error_at : Option ℤ

-- The six columns `playtime_...` are one field.
pub record Policy : Type 0 where
  pub id : ℕ
  pub user_id : ℕ
  pub version : ℕ
  pub created_by : String
  pub daily_limits_json : List ℤ
  pub allowed_hours_json : List (Weekday × List AllowedHourInterval)
  pub allowed_weekdays_json : List Weekday
  pub weekly_limit_s : ℤ
  pub monthly_limit_s : ℤ
  pub lockout_type : LockoutType
  pub wake_from : Option String
  pub wake_to : Option String
  pub track_inactive : Bool
  pub hide_tray_icon : Bool
  pub playtime : PlayTimePayload
  pub note : Option String

pub record Grant : Type 0 where
  pub user_id : ℕ
  pub day : ℕ
  pub seconds : ℤ

pub record DayOverride : Type 0 where
  pub user_id : ℕ
  pub day : ℕ
  pub limit_seconds : ℤ
  pub reason : String
  pub created_by : String

pub record GateRelease : Type 0 where
  pub user_id : ℕ
  pub day : ℕ
  pub released_by : String
  pub note : Option String

pub record DayHourOverride : Type 0 where
  pub user_id : ℕ
  pub day : ℕ
  pub intervals_json : List AllowedHourInterval
  pub reason : String
  pub created_by : String
