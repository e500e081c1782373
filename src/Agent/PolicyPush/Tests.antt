-- ===== src/Agent/PolicyPush/Tests.antt =====
-- Pushes to a device that records its calls, and the push theorems at them.
use timekpr_next_hub.Base.{◌≡◌, refl, Bool, true, false, Option, none, some, List, [], ◌∷◌, ◌++◌}
use timekpr_next_hub.Base.Int.{ℤ, pos}
use timekpr_next_hub.Core.Models.{Weekday, LockoutType, PolicyPayload, weekday_tokens}
use timekpr_next_hub.Agent.Timekpr.{Applied, Call, Timekpr, set_allowed_days}
use timekpr_next_hub.Agent.PolicyPush.{Label, apply_policy_push}

abbrev note : Call → List Call → List Call × Bool
note (set_allowed_days days) calls = (calls, false)
note call calls = (calls ++ call ∷ [], true)

-- A daemon that holds `applied` and notes every call but a change of the allowed days, which it refuses.
abbrev pub recorder : Option Applied → Timekpr
recorder applied = record {
  Config = List Call;
  observation = λ calls username. some (record {
    balance_s = pos 600;
    spent_day_s = pos 600;
    limit_today_s = pos 7200;
    logged_in = true;
    active = true;
  });
  applied_policy = λ calls username. applied;
  send = λ calls username call. note call calls;
}

abbrev pub week_of : ℤ → List ℤ
week_of s = s ∷ s ∷ s ∷ s ∷ s ∷ s ∷ s ∷ []

abbrev pub policy : PolicyPayload
policy = record {
  version = 3;
  daily_limits_s = week_of (pos 3600);
  allowed_hours = [];
  allowed_weekdays = Weekday.mon ∷ Weekday.tue ∷ [];
  weekly_limit_s = pos 14400;
  monthly_limit_s = pos 36000;
  lockout_type = LockoutType.terminate;
  wake_from = none;
  wake_to = none;
  track_inactive = false;
  hide_tray_icon = false;
  playtime = record {
    enabled = false;
    override_enabled = false;
    unaccounted_intervals_enabled = false;
    allowed_weekdays = [];
    daily_limits_s = week_of (pos 0);
    activities = [];
  };
  note = "";
}

-- What a device that has taken the policy over shows.
abbrev pub held : Applied
held = record {
  allowed_weekdays = some (Weekday.mon ∷ Weekday.tue ∷ []);
  limits_per_weekdays = some (pos 3600 ∷ pos 3600 ∷ []);
  limit_per_week = some (pos 14400);
  limit_per_month = some (pos 36000);
  track_inactive = some false;
  hide_tray_icon = some false;
  lockout_type = some LockoutType.terminate;
  wakeup_hour_interval = none;
  allowed_hours = λ day. none;
  playtime_enabled = some false;
  playtime_limit_override_enabled = some false;
  playtime_unaccounted_intervals_enabled = some false;
  playtime_allowed_weekdays = some weekday_tokens;
  playtime_limits_per_weekdays = some (week_of (pos 0));
  playtime_activities = some [];
}

failed_push : (apply_policy_push (recorder none) [] "ada" policy).failed ≡ Label.allowed_days ∷ []
unfolding apply_policy_push
failed_push = refl
