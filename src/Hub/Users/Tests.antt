-- ===== src/Hub/Users/Tests.antt =====
-- An administrator's changes of a concrete user.
use timekpr_next_hub.Base.{◌*◌, ◌≡◌, refl, String, true, none, some, [], ◌∷◌, find, arith}
use timekpr_next_hub.Base.Int.{pos, negsuc, ◌+ℤ◌}
use timekpr_next_hub.Core.Models.{PolicyPayload}
use timekpr_next_hub.Core.EffectivePolicy.{is_allowed_weekday}
use timekpr_next_hub.Hub.Tables.{User, Policy}
use timekpr_next_hub.Hub.Limits.{effective_daily_limit}
use timekpr_next_hub.Hub.Policy.{initial_policy, get_current_policy, weekday_of}
use timekpr_next_hub.Hub.Provision.{new_user, has_username}
use timekpr_next_hub.Hub.Users.{
  UserTables, DayHourOverrideCreate, HoursChoice, set_user_day_hour_override, create_grant,
  unknown_user,
}
use timekpr_next_hub.Hub.Users.DayWindow.{IsSent, set_user_day_hour_override-IsSent}

abbrev child : User
child = record (new_user 3 "alex") { current_policy_id = some 11 }

abbrev first_policy : Policy
first_policy = initial_policy 11 3 none

abbrev st : UserTables
st = record {
  users = child ∷ [];
  policies = first_policy ∷ [];
  limits = record { grants = []; day_overrides = []; gate_releases = [] };
  day_hours = [];
}

-- Uncounted, from 12:00 to 20:00 on a Monday.
abbrev afternoon : DayHourOverrideCreate
afternoon = record {
  day = 739251;
  mode = HoursChoice.window;
  from_min = 12 * 60;
  to_min = 20 * 60;
  unaccounted = true;
  reason = "";
}

abbrev digest : PolicyPayload → String
digest payload = payload.note

child_known : find (has_username "alex") st.users ≡ some child
unfolding new_user
child_known = refl

child_current : get_current_policy st.policies child ≡ some first_policy
unfolding get_current_policy initial_policy
child_current = refl

owned : first_policy.user_id ≡ child.id
unfolding initial_policy new_user
owned = refl

login_day : is_allowed_weekday (weekday_of afternoon.day) first_policy.allowed_weekdays_json ≡ true
unfolding initial_policy
login_day = refl

set_user_day_hour_override-IsSent_example :
    IsSent st "alex" child first_policy child_known child_current afternoon digest
      (set_user_day_hour_override st "alex" afternoon)
set_user_day_hour_override-IsSent_example =
    set_user_day_hour_override-IsSent st "alex" child first_policy child_known child_current
      afternoon digest owned login_day (omega arith, omega arith)

-- Half an hour taken off an hour's limit.
fined :
    effective_daily_limit
      (create_grant st 739251 "alex" none (negsuc 1799)).0.limits
      first_policy
      child
      739251
    ≡ pos 1800
unfolding effective_daily_limit create_grant initial_policy new_user ◌+ℤ◌
fined = refl

nobody : (create_grant st 739251 "sam" none (pos 60)).1 ≡ unknown_user
unfolding create_grant new_user
nobody = refl
