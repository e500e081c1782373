-- ===== src/Hub/Users/DayWindow.antt =====
-- The hours of one day that an administrator sets, from the request to what a device is sent.
use timekpr_next_hub.Base.{
  ℕ, ◌*◌, ◌≡◌, ◌≤◌, ◌<◌, refl, sym, ap, subst, ◌∙◌, String, Bool, true, false, some, List, [], ◌∷◌,
  find, All, arith,
}
use timekpr_next_hub.Core.AllowedHours.{
  TimeInterval, HourRecord, IsInterval, unrestricted, intervals_to_hours,
}
use timekpr_next_hub.Core.AllowedHours.Expand.{intervals_to_hours-allows}
use timekpr_next_hub.Core.AllowedHours.Minutes.{records_allow, intervals_allow}
use timekpr_next_hub.Core.Models.{Weekday, PolicyPayload, same_weekday}
use timekpr_next_hub.Core.EffectivePolicy.{is_allowed_weekday}
use timekpr_next_hub.Hub.Tables.{User, Policy}
use timekpr_next_hub.Hub.Policy.{get_current_policy, weekday_of}
use timekpr_next_hub.Hub.DayHours.{
  set_day_hour_override, served_hours, set_day_hour_override-served,
}
use timekpr_next_hub.Hub.Provision.{has_username}
use timekpr_next_hub.Hub.Editor.Form.{accepted}
use timekpr_next_hub.Hub.Editor.Hours.{unrestricted-IsInterval, one_interval, time_interval-valid}
use timekpr_next_hub.Hub.Users.{
  UserTables, UserAnswer, done, unprocessable_content, HoursChoice, window, unrestricted_hours,
  DayHourOverrideCreate, window_of, chosen_intervals, day_hour_override_intervals, store_hours,
  set_user_day_hour_override,
}

-- The window that the request asks for.
abbrev pub wanted : HoursChoice → DayHourOverrideCreate → List TimeInterval
wanted unrestricted_hours body = unrestricted
wanted window body = window_of body ∷ []

-- `_window_is_ordered` and the bounds of the fields.
abbrev pub IsOrdered : DayHourOverrideCreate → Type 0
IsOrdered body = (body.from_min < body.to_min) × (body.to_min ≤ 24 * 60)

wanted-IsInterval :
    (mode : HoursChoice) (body : DayHourOverrideCreate)
    → IsOrdered body
    → All IsInterval (wanted mode body)
wanted-IsInterval unrestricted_hours body ordered = unrestricted-IsInterval
wanted-IsInterval window body ordered = (ordered, tt)

chosen_intervals-accepts :
    (mode : HoursChoice) (body : DayHourOverrideCreate)
    → IsOrdered body
    → chosen_intervals mode body ≡ accepted (intervals_to_hours (wanted mode body))
unfolding chosen_intervals
chosen_intervals-accepts unrestricted_hours body ordered = refl
chosen_intervals-accepts window body ordered =
    rw (time_interval-valid (window_of body) ordered, one_interval (window_of body)) refl

same_weekday_refl : (w : Weekday) → same_weekday w w ≡ true
same_weekday_refl w = ground arith

module _ (st : UserTables) (username : String) (user : User) (policy : Policy)
    (known : find (has_username username) st.users ≡ some user)
    (current : get_current_policy st.policies user ≡ some policy)
    (body : DayHourOverrideCreate) where
  answer-allowed :
      (intervals : List HourRecord)
      → is_allowed_weekday (weekday_of body.day) policy.allowed_weekdays_json ≡ true
      → day_hour_override_intervals body ≡ accepted intervals
      → set_user_day_hour_override st username body ≡ store_hours st user body (accepted intervals)
  unfolding set_user_day_hour_override
  answer-allowed intervals allowed made =
      rw (known, set_user_day_hour_override)
        (rw (current, allowed) (ap (store_hours st user body) made))

  -- For a user who may not log in on the weekday of the day, the request is refused and nothing changes.
  pub set_user_day_hour_override-refused :
      is_allowed_weekday (weekday_of body.day) policy.allowed_weekdays_json ≡ false
      → set_user_day_hour_override st username body ≡ (st, unprocessable_content)
  unfolding set_user_day_hour_override
  set_user_day_hour_override-refused other =
      rw (known, set_user_day_hour_override) (rw (current, other) refl)

  -- The answer is `done`, and a device is sent, for the weekday of the day on that day, hours that allow
  -- a minute, with a flag, exactly when the window that was asked for does.
  pub record IsSent (digest : PolicyPayload → String) (result : UserTables × UserAnswer)
      : Type 0 where
    pub answer : result.1 ≡ done
    pub sent : List HourRecord
    pub is_sent :
        served_hours digest st.day_hours policy body.day result.0.day_hours (weekday_of body.day)
        ≡ some sent
    pub allows :
        (m : ℕ) (u : Bool) → records_allow m u sent ≡ intervals_allow m u (wanted body.mode body)

  store_hours-IsSent :
      (digest : PolicyPayload → String)
      → policy.user_id ≡ user.id
      → is_allowed_weekday (weekday_of body.day) policy.allowed_weekdays_json ≡ true
      → IsOrdered body
      → IsSent digest
          (store_hours st user body (accepted (intervals_to_hours (wanted body.mode body))))
  store_hours-IsSent digest own allowed ordered = record {
    answer = refl;
    sent = intervals_to_hours (wanted body.mode body);
    is_sent =
        ap
          (λ id.
            served_hours digest st.day_hours policy body.day
              (set_day_hour_override st.day_hours id body.day
                (intervals_to_hours (wanted body.mode body)) body.reason "admin-api")
              (weekday_of body.day))
          (sym own)
        ∙ set_day_hour_override-served digest st.day_hours policy body.day
            (intervals_to_hours (wanted body.mode body)) body.reason "admin-api"
            (weekday_of body.day)
        ∙ rw (allowed, same_weekday_refl (weekday_of body.day)) refl;
    allows = λ m u.
        intervals_to_hours-allows m u (wanted body.mode body)
          (wanted-IsInterval body.mode body ordered);
  }

  -- A known user whose current policy is their own and lets them log in on the weekday of the day; a
  -- window that ends after it begins, within the day. The request is accepted, and a device is sent, for
  -- that weekday on that day, hours that allow a minute, with a flag, exactly when the window does.
  pub set_user_day_hour_override-IsSent :
      (digest : PolicyPayload → String)
      → policy.user_id ≡ user.id
      → is_allowed_weekday (weekday_of body.day) policy.allowed_weekdays_json ≡ true
      → IsOrdered body
      → IsSent digest (set_user_day_hour_override st username body)
  set_user_day_hour_override-IsSent digest own allowed ordered =
      subst (IsSent digest)
        (sym (answer-allowed _ allowed (chosen_intervals-accepts body.mode body ordered)))
        (store_hours-IsSent digest own allowed ordered)
