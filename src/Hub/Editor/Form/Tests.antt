-- ===== src/Hub/Editor/Form/Tests.antt =====
-- The policy form on concrete fields.
use timekpr_next_hub.Base.{◌==◌, ◌≡◌, refl, none, some, List, [], ◌∷◌, true, false, String}
use timekpr_next_hub.Base.Int.{pos}
use timekpr_next_hub.Core.AllowedHours.{HourRecord}
use timekpr_next_hub.Core.Models.{Weekday, LockoutType, weekday_tokens}
use timekpr_next_hub.Hub.Policy.{PolicyUpdate, seven}
use timekpr_next_hub.Hub.Editor.{DayForm, HoursMode, parse_day_hours, hm_seconds}
use timekpr_next_hub.Hub.Editor.Form.{
  accepted, unprocessable, crashed, PolicyForm, parse_policy_form, parse_fields, parse_activities,
  policy_update,
}
use timekpr_next_hub.Hub.Editor.Form.Valid.{IsUpdate, parse_policy_form-IsUpdate}
use timekpr_next_hub.Hub.Editor.Form.Crash.{parse_policy_form-crashed}

-- Nine o'clock only.
abbrev nine_form : DayForm
nine_form = record {
  mode = HoursMode.custom;
  from_time = none;
  to_time = none;
  checked = λ hour. hour == 9;
  unaccounted = true;
}

abbrev nine : List HourRecord
nine = record { hour = 9; start_min = 0; end_min = 60; unaccounted = true } ∷ []

-- Two hours a day, ten a week, with no cap on a month.
abbrev pub plain_form : PolicyForm
plain_form = record {
  daily_same = true;
  daily_master = some (pos 2, pos 0);
  daily = λ i. some (pos 0, pos 0);
  hours = λ day. nine_form;
  allowed_weekday = λ day. true;
  lockout_type = some LockoutType.lock;
  weekly_cap_enabled = true;
  weekly = some (pos 10, pos 75);
  monthly_cap_enabled = false;
  monthly = none;
  wake_from = "07";
  wake_to = "";
  track_inactive = false;
  hide_tray_icon = false;
  pt_enabled = false;
  pt_override = false;
  pt_unaccounted = true;
  pt_allowed_weekday = λ day. false;
  pt_daily = λ i. some (pos 1, pos 30);
  pt_activities = [];
  note = "";
}

abbrev pub plain_update : PolicyUpdate
plain_update = record {
  daily_limits_s = seven (pos 7200);
  weekly_limit_s = pos 39540;
  monthly_limit_s = pos 2678400;
  allowed_weekdays = weekday_tokens;
  allowed_hours =
      (Weekday.mon, nine)
      ∷ (Weekday.tue, nine)
      ∷ (Weekday.wed, nine)
      ∷ (Weekday.thu, nine)
      ∷ (Weekday.fri, nine)
      ∷ (Weekday.sat, nine)
      ∷ (Weekday.sun, nine)
      ∷ [];
  lockout_type = LockoutType.lock;
  wake_from = some "07";
  wake_to = none;
  track_inactive = false;
  hide_tray_icon = false;
  playtime = record {
    enabled = false;
    override_enabled = false;
    unaccounted_intervals_enabled = true;
    allowed_weekdays = [];
    daily_limits_s = seven (pos 5400);
    activities = [];
  };
  note = "";
}

pub plain_form_accepted : parse_policy_form plain_form ≡ accepted plain_update
unfolding parse_policy_form parse_fields parse_activities policy_update parse_day_hours hm_seconds
plain_form_accepted = refl

parse_policy_form-IsUpdate_example : IsUpdate plain_update
parse_policy_form-IsUpdate_example =
    parse_policy_form-IsUpdate plain_form plain_update plain_form_accepted

-- A game, and a mask with a class of characters.
abbrev pub games : List (String × String)
games = ("minetest", "Blocks") ∷ ("doom[0-9]", "") ∷ []

parse_policy_form-crashed_example :
    parse_policy_form (record plain_form { pt_activities = games }) ≡ crashed
parse_policy_form-crashed_example =
    parse_policy_form-crashed plain_form games plain_update plain_form_accepted refl

-- A day without an hour is refused.
no_hours_refused :
    parse_policy_form
      (record plain_form { hours = λ day. record nine_form { checked = λ hour. false } })
    ≡ unprocessable
unfolding parse_policy_form parse_fields parse_day_hours hm_seconds
no_hours_refused = refl
