-- ===== src/Agent/PolicyPush/Labels.antt =====
-- The texts of the labels of agent/timekpr_hub_agent/policy_push.py, which the agent reports to the hub.
use timekpr_next_hub.Base.{◌+◌, List, [], ◌∷◌, ◌++◌}
use timekpr_next_hub.Base.Chars.{Chars, codes}
use timekpr_next_hub.Core.Models.{iso_number}
use timekpr_next_hub.Agent.PolicyPush.{
  Label, daily_limits_length, allowed_days, limit_for_days, limit_for_week, limit_for_month,
  track_inactive, hide_tray_icon, lockout_type, allowed_hours, playtime_enabled,
  playtime_limit_override, playtime_unaccounted, playtime_allowed_days, playtime_limits_for_days,
  playtime_activities,
}

abbrev pub label_text : Label → Chars
label_text daily_limits_length = codes "daily_limits_length"
label_text allowed_days = codes "setAllowedDays"
label_text limit_for_days = codes "setTimeLimitForDays"
label_text limit_for_week = codes "setTimeLimitForWeek"
label_text limit_for_month = codes "setTimeLimitForMonth"
label_text track_inactive = codes "setTrackInactive"
label_text hide_tray_icon = codes "setHideTrayIcon"
label_text lockout_type = codes "setLockoutType"
label_text (allowed_hours day) = codes "setAllowedHours(day=" ++ ((48 + iso_number day) ∷ codes ")")
label_text playtime_enabled = codes "setPlayTimeEnabled"
label_text playtime_limit_override = codes "setPlayTimeLimitOverride"
label_text playtime_unaccounted = codes "setPlayTimeUnaccountedIntervalsEnabled"
label_text playtime_allowed_days = codes "setPlayTimeAllowedDays"
label_text playtime_limits_for_days = codes "setPlayTimeLimitsForDays"
label_text playtime_activities = codes "setPlayTimeActivities"

-- `", ".join(push.failed)`
abbrev pub joined_labels : List Label → Chars
joined_labels [] = []
joined_labels (l ∷ []) = label_text l
joined_labels (l ∷ next ∷ rest) = label_text l ++ (codes ", " ++ joined_labels (next ∷ rest))
