-- ===== src/Core/Models.antt =====
-- core/timekpr_hub_core/models.py: the wire types of a policy. Weekday tokens "1" to "7" are a type of
-- seven values, which is what the validators admit.
use timekpr_next_hub.Base.{ℕ, String, Bool, Option, List, [], ◌∷◌, ◌==◌}
use timekpr_next_hub.Base.Int.{ℤ}
use timekpr_next_hub.Core.AllowedHours.{HourRecord}

pub data Weekday : Type 0 where
  mon tue wed thu fri sat sun : Weekday

pub Weekday-discrete : Discrete Weekday
Weekday-discrete = hlevel

-- `WEEKDAY_TOKENS`, in order.
abbrev pub weekday_tokens : List Weekday
weekday_tokens =
    Weekday.mon ∷ Weekday.tue ∷ Weekday.wed ∷ Weekday.thu ∷ Weekday.fri ∷ Weekday.sat ∷ Weekday.sun
    ∷ []

-- `int(day)`
abbrev pub iso_number : Weekday → ℕ
iso_number Weekday.mon = 1
iso_number Weekday.tue = 2
iso_number Weekday.wed = 3
iso_number Weekday.thu = 4
iso_number Weekday.fri = 5
iso_number Weekday.sat = 6
iso_number Weekday.sun = 7

-- Equality of tokens.
abbrev pub same_weekday : Weekday → Weekday → Bool
same_weekday a b = iso_number a == iso_number b

pub data EnforcementMode : Type 0 where
  enforce observe : EnforcementMode

pub data OfflinePolicy : Type 0 where
  open_policy capped closed : OfflinePolicy

pub data AccountingMode : Type 0 where
  wallclock parallel : AccountingMode

pub data ActivityState : Type 0 where
  draining idle logged_out : ActivityState

pub data LockoutType : Type 0 where
  lock suspend suspend_wake terminate kill shutdown : LockoutType

-- `AllowedHourInterval` has the fields of `HourRecord`.
abbrev pub AllowedHourInterval : Type 0
AllowedHourInterval = HourRecord

pub record PlayTimeActivity : Type 0 where
  pub mask : String
  pub description : String

pub record PlayTimePayload : Type 0 where
  pub enabled : Bool
  pub override_enabled : Bool
  pub unaccounted_intervals_enabled : Bool
  pub allowed_weekdays : List Weekday
  pub daily_limits_s : List ℤ
  pub activities : List PlayTimeActivity

-- `allowed_hours` is a dict: an association list in the order of insertion.
pub record PolicyPayload : Type 0 where
  pub version : ℕ
  pub daily_limits_s : List ℤ
  pub allowed_hours : List (Weekday × List AllowedHourInterval)
  pub allowed_weekdays : List Weekday
  pub weekly_limit_s : ℤ
  pub monthly_limit_s : ℤ
  pub lockout_type : LockoutType
  pub wake_from : Option String
  pub wake_to : Option String
  pub track_inactive : Bool
  pub hide_tray_icon : Bool
  pub playtime : PlayTimePayload
  pub note : String
