-- ===== src/Hub/Users.antt =====
-- hub/timekpr_hub/api/admin/users.py: what an administrator changes of a user. The bodies come as their
-- validators in core/timekpr_hub_core/models.py admit them; days come parsed, as ordinals. The audit
-- rows are left out, and so are the ids of rows that nothing reads.
pub mod DayWindow
mod Tests
use timekpr_next_hub.Base.{
  ℕ, ◌*◌, ◌==◌, ◌&&◌, String, Bool, true, false, Option, none, some, List, [], ◌∷◌, ◌++◌, find,
  if◌then◌else◌,
}
use timekpr_next_hub.Base.Int.{ℤ}
use timekpr_next_hub.Core.AllowedHours.{
  TimeInterval, HourRecord, time_interval, unrestricted, intervals_to_hours, validate_intervals,
}
use timekpr_next_hub.Core.Models.{Weekday, AccountingMode, OfflinePolicy, weekday_tokens}
use timekpr_next_hub.Core.EffectivePolicy.{is_allowed_weekday}
use timekpr_next_hub.Hub.Tables.{User, Policy, Grant, DayHourOverride}
use timekpr_next_hub.Hub.Limits.{
  LimitTables, set_day_override, clear_day_override, release_gate, unrelease_gate,
}
use timekpr_next_hub.Hub.Policy.{PolicyUpdate, get_current_policy, update_policy, weekday_of}
use timekpr_next_hub.Hub.DayHours.{set_day_hour_override, clear_day_hour_override}
use timekpr_next_hub.Hub.Provision.{has_username, save_user}
use timekpr_next_hub.Hub.Editor.Form.{FormResult, ◌>>=◌, accepted, unprocessable, crashed}

pub record UserTables : Type 0 where
  pub users : List User
  pub policies : List Policy
  pub limits : LimitTables
  pub day_hours : List DayHourOverride

-- What the request is answered: 404, 422, 500, or the result, with whether a row was deleted.
pub data UserAnswer : Type 0 where
  unknown_user unprocessable_content internal_error done : UserAnswer
  cleared : Bool → UserAnswer

abbrev pub for_user :
    UserTables → Option User → (User → UserTables × UserAnswer) → UserTables × UserAnswer
for_user st none handler = (st, unknown_user)
for_user st (some user) handler = handler user

-- `get_user_or_404`
abbrev pub for_username :
    UserTables → String → (User → UserTables × UserAnswer) → UserTables × UserAnswer
for_username st username handler = for_user st (find (has_username username) st.users) handler

abbrev pub or_today : Option ℕ → ℕ → ℕ
or_today none today = today
or_today (some day) today = day

unfoldable pub create_grant : UserTables → ℕ → String → Option ℕ → ℤ → UserTables × UserAnswer
create_grant st today username day seconds = for_username st username λ user. (
  record st {
    limits = record st.limits {
      grants =
          st.limits.grants
          ++ record { user_id = user.id; day = or_today day today; seconds = seconds } ∷ [];
    };
  },
  done,
)

unfoldable pub update_user_policy : UserTables → ℕ → String → PolicyUpdate → UserTables × UserAnswer
update_user_policy st new_id username body = for_username st username λ user.
    let (policies, user', policy) = update_policy st.policies new_id user body "admin-api" in
    (record st { users = save_user user' st.users; policies = policies }, done)

unfoldable pub set_user_day_override :
    UserTables → String → ℕ → ℤ → String → UserTables × UserAnswer
set_user_day_override st username day limit_seconds reason = for_username st username λ user. (
  record st {
    limits = record st.limits {
      day_overrides =
          set_day_override st.limits.day_overrides user.id day limit_seconds reason "admin-api";
    };
  },
  done,
)

unfoldable pub clear_user_day_override : UserTables → String → ℕ → UserTables × UserAnswer
clear_user_day_override st username day = for_username st username λ user.
    let (was_there, left) = clear_day_override st.limits.day_overrides user.id day in
    (record st { limits = record st.limits { day_overrides = left } }, cleared was_there)

pub data HoursChoice : Type 0 where
  unrestricted_hours window : HoursChoice

-- `DayHourOverrideCreate`
pub record DayHourOverrideCreate : Type 0 where
  pub day : ℕ
  pub mode : HoursChoice
  pub from_min : ℕ
  pub to_min : ℕ
  pub unaccounted : Bool
  pub reason : String

abbrev pub window_of : DayHourOverrideCreate → TimeInterval
window_of body = record {
  start_min = body.from_min;
  end_min = body.to_min;
  unaccounted = body.unaccounted;
}

-- The interval is made outside the try.
abbrev pub uncaught {ℓ} : {A : Type ℓ} → Option A → FormResult A
uncaught none = crashed
uncaught (some a) = accepted a

abbrev pub conflict_free {ℓ κ} : {A : Type ℓ} {C : Type κ} → Option C → A → FormResult A
conflict_free none a = accepted a
conflict_free (some conflict) a = unprocessable

unfoldable pub chosen_intervals : HoursChoice → DayHourOverrideCreate → FormResult (List HourRecord)
chosen_intervals unrestricted_hours body = accepted (intervals_to_hours unrestricted)
chosen_intervals window body = do
  interval ← uncaught (time_interval (window_of body))
  conflict_free (validate_intervals (interval ∷ [])) (intervals_to_hours (interval ∷ []))

-- `_day_hour_override_intervals`
abbrev pub day_hour_override_intervals : DayHourOverrideCreate → FormResult (List HourRecord)
day_hour_override_intervals body = chosen_intervals body.mode body

-- The hours are stored, or the request is answered by what they came to.
abbrev pub store_hours :
    UserTables
    → User
    → DayHourOverrideCreate
    → FormResult (List HourRecord)
    → UserTables × UserAnswer
store_hours st user body unprocessable = (st, unprocessable_content)
store_hours st user body crashed = (st, internal_error)
store_hours st user body (accepted intervals) = (
  record st {
    day_hours =
        set_day_hour_override st.day_hours user.id body.day intervals body.reason "admin-api";
  },
  done,
)

abbrev pub weekdays_of : Option Policy → List Weekday
weekdays_of none = weekday_tokens
weekdays_of (some policy) = policy.allowed_weekdays_json

unfoldable pub set_user_day_hour_override :
    UserTables → String → DayHourOverrideCreate → UserTables × UserAnswer
set_user_day_hour_override st username body = for_username st username λ user.
    if is_allowed_weekday (weekday_of body.day) (weekdays_of (get_current_policy st.policies user))
    then store_hours st user body (day_hour_override_intervals body)
    else (st, unprocessable_content)

unfoldable pub clear_user_day_hour_override : UserTables → String → ℕ → UserTables × UserAnswer
clear_user_day_hour_override st username day = for_username st username λ user.
    let (was_there, left) = clear_day_hour_override st.day_hours user.id day in
    (record st { day_hours = left }, cleared was_there)

unfoldable pub release_user_gate : UserTables → String → ℕ → String → UserTables × UserAnswer
release_user_gate st username day note = for_username st username λ user. (
  record st {
    limits = record st.limits {
      gate_releases = release_gate st.limits.gate_releases user.id day "admin-api" note;
    };
  },
  done,
)

unfoldable pub unrelease_user_gate : UserTables → String → ℕ → UserTables × UserAnswer
unrelease_user_gate st username day = for_username st username λ user.
    let (was_there, left) = unrelease_gate st.limits.gate_releases user.id day in
    (record st { limits = record st.limits { gate_releases = left } }, cleared was_there)

-- `UserSettingsUpdate`
pub record UserSettingsUpdate : Type 0 where
  pub gated_weekdays : List Weekday
  pub accounting_mode : AccountingMode
  pub offline_policy : OfflinePolicy
  pub offline_grace_s : ℤ
  pub offline_cap_s : ℤ

unfoldable pub update_user_settings :
    UserTables → String → UserSettingsUpdate → UserTables × UserAnswer
update_user_settings st username body = for_username st username λ user. (
  record st {
    users =
        save_user
          (record user {
            gated_weekdays_json = body.gated_weekdays;
            accounting_mode = body.accounting_mode;
            offline_policy = body.offline_policy;
            offline_grace_s = body.offline_grace_s;
            offline_cap_s = body.offline_cap_s;
          })
          st.users;
  },
  done,
)
