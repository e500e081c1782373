-- ===== src/Agent/Timekpr.antt =====
-- agent/timekpr_hub_agent/enforcer.py: what the agent reads from timekpr and the calls that it makes.
-- The daemon behind the calls is not part of the repository: it is a parameter, `Timekpr`.
use timekpr_next_hub.Base.{ℕ, String, Bool, false, Option, List, [], ◌∷◌, ltb, ◌==◌, if◌then◌else◌}
use timekpr_next_hub.Base.Int.{ℤ}
use timekpr_next_hub.Core.Convergence.{Op}
use timekpr_next_hub.Core.AllowedHours.{HourRecord}
use timekpr_next_hub.Core.Models.{Weekday, LockoutType}

-- `hours_to_dbus_payload` (core/timekpr_hub_core/allowed_hours.py): the dict of a day's hours. It is
-- kept in the order of its keys, so that equal dicts are equal lists.
pub record HourSlot : Type 0 where
  pub startmin : ℕ
  pub endmin : ℕ
  pub uacc : Bool

abbrev pub HourPayload : Type 0
HourPayload = List (ℕ × HourSlot)

unfoldable pub put_hour : ℕ → HourSlot → HourPayload → HourPayload
put_hour h s [] = (h, s) ∷ []
put_hour h s ((k, old) ∷ rest) =
    let later = put_hour h s rest in
    if ltb h k then (h, s) ∷ (k, old) ∷ rest else if h == k then (h, s) ∷ rest else (k, old) ∷ later

-- The comprehension goes through the records in order, from the dict built so far.
unfoldable pub add_hours : HourPayload → List HourRecord → HourPayload
unfolding put_hour
add_hours built [] = built
add_hours built (r ∷ rest) =
    add_hours
      (put_hour r.hour (record { startmin = r.start_min; endmin = r.end_min; uacc = r.unaccounted })
        built)
      rest

unfoldable pub hours_to_dbus_payload : List HourRecord → HourPayload
unfolding add_hours
hours_to_dbus_payload = add_hours []

-- The write-side calls of `TimekprEnforcer`, each with its arguments.
pub data Call : Type 0 where
  set_time_left : Op → ℤ → Call
  set_allowed_days : List Weekday → Call
  set_time_limit_for_days : List ℤ → Call
  set_time_limit_for_week set_time_limit_for_month : ℤ → Call
  set_track_inactive set_hide_tray_icon : Bool → Call
  set_lockout_type : LockoutType → String → String → Call
  set_allowed_hours : Weekday → HourPayload → Call
  set_playtime_enabled set_playtime_limit_override : Bool → Call
  set_playtime_unaccounted_intervals_enabled : Bool → Call
  set_playtime_allowed_days : List Weekday → Call
  set_playtime_limits_for_days : List ℤ → Call
  set_playtime_activities : List (String × String) → Call

pub record UserObservation : Type 0 where
  pub balance_s : ℤ
  pub spent_day_s : ℤ
  pub limit_today_s : ℤ
  pub logged_in : Bool
  pub active : Bool

-- `get_applied_policy`: the snapshot, `none` where timekpr's reply has no such key. The wake window
-- "from;to" is given by its parts, as `split(";", 1)` returns them.
pub record Applied : Type 0 where
  pub allowed_weekdays : Option (List Weekday)
  pub limits_per_weekdays : Option (List ℤ)
  pub limit_per_week : Option ℤ
  pub limit_per_month : Option ℤ
  pub track_inactive : Option Bool
  pub hide_tray_icon : Option Bool
  pub lockout_type : Option LockoutType
  pub wakeup_hour_interval : Option (String × Option String)
  pub allowed_hours : Weekday → Option HourPayload
  pub playtime_enabled : Option Bool
  pub playtime_limit_override_enabled : Option Bool
  pub playtime_unaccounted_intervals_enabled : Option Bool
  pub playtime_allowed_weekdays : Option (List Weekday)
  pub playtime_limits_per_weekdays : Option (List ℤ)
  pub playtime_activities : Option (List (String × String))

-- The daemon: its configuration and state, what can be read of it for a user, and its answer to a
-- call. A call that cannot be sent is one that is not accepted.
pub record Timekpr : Type 1 where
  pub Config : Type 0
  pub observation : Config → String → Option UserObservation
  pub applied_policy : Config → String → Option Applied
  pub send : Config → String → Call → Config × Bool

module _ (timekpr : Timekpr) where
  -- The setters of `TimekprEnforcer`: `set_allowed_hours` sends nothing for a day with no hours.
  unfoldable pub enforce : timekpr.Config → String → Call → timekpr.Config × Bool
  enforce config username (set_allowed_hours day []) = (config, false)
  enforce config username call = timekpr.send config username call
