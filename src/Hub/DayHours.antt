-- ===== src/Hub/DayHours.antt =====
-- hub/timekpr_hub/services/day_hours.py: setting and clearing the hours of one day, and what a device is
-- served on that day.
use timekpr_next_hub.Base.{
  ℕ, ◌≡◌, ◌≤◌, refl, ap, ◌∙◌, ◌==◌, ◌&&◌, String, Bool, true, false, Option, none, some, List, [],
  ◌∷◌, arith, find, if◌then◌else◌, Option-cases, inl, inr,
}
use timekpr_next_hub.Core.AllowedHours.{HourRecord}
use timekpr_next_hub.Core.Models.{Weekday, PolicyPayload, AllowedHourInterval, same_weekday}
use timekpr_next_hub.Core.EffectivePolicy.{
  hours_of, or_unrestricted, unrestricted_wire_intervals, materialize_allowed_hours,
  is_allowed_weekday, with_day_hour_override,
}
use timekpr_next_hub.Core.EffectivePolicy.Hours.{
  materialize_allowed_hours-covers, with_day_hour_override-hours,
}
use timekpr_next_hub.Hub.Rows.{
  insert_or_update, delete_one, selected, find-insert_or_update, delete_one-selected, find_of_none,
}
use timekpr_next_hub.Hub.Tables.{Policy, DayHourOverride}
use timekpr_next_hub.Hub.Policy.{
  hours_override_of, day_hour_override, effective_policy_payload, policy_to_payload, weekday_of,
}

unfoldable pub set_day_hour_override :
    List DayHourOverride → ℕ → ℕ → List AllowedHourInterval → String → String → List DayHourOverride
unfolding insert_or_update
set_day_hour_override overrides user_id day intervals reason created_by =
    insert_or_update (hours_override_of user_id day)
      (λ old. record old { intervals_json = intervals; reason = reason; created_by = created_by })
      (record {
        user_id = user_id;
        day = day;
        intervals_json = intervals;
        reason = reason;
        created_by = created_by;
      })
      overrides

-- Whether a row was deleted, and the rows that are left.
unfoldable pub clear_day_hour_override : List DayHourOverride → ℕ → ℕ → Bool × List DayHourOverride
unfolding day_hour_override delete_one
clear_day_hour_override overrides user_id day = elim (day_hour_override overrides user_id day) [
  | none ↦ (false, overrides)
  | some existing ↦ (true, delete_one (hours_override_of user_id day) overrides)
]

own_key : (u d : ℕ) → ((u == u) && (d == d)) ≡ true
own_key u d = ground arith

set_found :
    (overrides : List DayHourOverride) (user_id day : ℕ) (intervals : List HourRecord)
    (reason by : String)
    → (o : DayHourOverride) × (day_hour_override
          (set_day_hour_override overrides user_id day intervals reason by)
          user_id
          day
        ≡ some o)
      × (o.intervals_json ≡ intervals)
unfolding day_hour_override set_day_hour_override
set_found overrides user_id day intervals reason by =
    let changed : DayHourOverride → DayHourOverride =
      λ old. record old { intervals_json = intervals; reason = reason; created_by = by } in
    let row : DayHourOverride = record {
      user_id = user_id;
      day = day;
      intervals_json = intervals;
      reason = reason;
      created_by = by;
    } in
    let e =
      find-insert_or_update (hours_override_of user_id day) changed row overrides
        (own_key user_id day) (λ r h. h) in
    elim (Option-cases (find (hours_override_of user_id day) overrides)) [
      | inl absent ↦ (row, e ∙ (rw (absent) refl), refl)
      | inr (o, present) ↦ (changed o, e ∙ (rw (present) refl), refl)
    ]

clear_found :
    (overrides : List DayHourOverride) (user_id day : ℕ)
    → selected (hours_override_of user_id day) overrides ≤ 1
    → day_hour_override (clear_day_hour_override overrides user_id day).1 user_id day ≡ none
unfolding day_hour_override clear_day_hour_override
clear_found overrides user_id day unique =
    let key = hours_override_of user_id day in
    elim (Option-cases (find key overrides)) [
      | inl absent ↦ rw (absent, clear_day_hour_override, day_hour_override) absent
      | inr (o, present) ↦
          rw (present, clear_day_hour_override, day_hour_override)
            (find_of_none key (delete_one key overrides) (delete_one-selected key overrides unique))
    ]

-- The hours of a weekday in the policy itself, the whole day where it has none.
abbrev pub standing_hours : Policy → Weekday → List HourRecord
standing_hours policy w = or_unrestricted (hours_of w policy.allowed_hours_json)

or_unrestricted_again :
    (o : Option (List HourRecord)) → or_unrestricted (some (or_unrestricted o)) ≡ or_unrestricted o
unfolding unrestricted_wire_intervals
or_unrestricted_again none = refl
or_unrestricted_again (some []) = refl
or_unrestricted_again (some (r ∷ rest)) = refl

module _ (digest : PolicyPayload → String) (overrides : List DayHourOverride) (policy : Policy)
    (day : ℕ) where
  abbrev pub served_hours : List DayHourOverride → Weekday → Option (List HourRecord)
  served_hours rows w =
      hours_of w (effective_policy_payload digest rows policy day true).0.allowed_hours

  abbrev materialized : PolicyPayload
  materialized = record (policy_to_payload policy) {
    allowed_hours = materialize_allowed_hours policy.allowed_hours_json;
  }

  abbrev chosen : Option DayHourOverride → PolicyPayload
  chosen none = materialized
  chosen (some o) = with_day_hour_override materialized (weekday_of day) o.intervals_json

  as_chosen :
      (rows : List DayHourOverride) (found : Option DayHourOverride)
      → day_hour_override rows policy.user_id day ≡ found
      → (effective_policy_payload digest rows policy day true).0 ≡ chosen found
  unfolding effective_policy_payload policy_to_payload
  as_chosen rows none h = rw (h, effective_policy_payload) refl
  as_chosen rows (some o) h = rw (h, effective_policy_payload) refl

  abbrev pub choice : List HourRecord → List HourRecord → Weekday → Option (List HourRecord)
  choice hours standing w =
      if is_allowed_weekday (weekday_of day) policy.allowed_weekdays_json
      then if same_weekday (weekday_of day) w then some hours else some standing
      else some standing

  -- An administrator's hours for a day are what a device is served for that day's weekday, where the
  -- user may log in on it, in place of an earlier override's; every other weekday is served the hours
  -- of the policy.
  pub set_day_hour_override-served :
      (intervals : List HourRecord) (reason by : String) (w : Weekday)
      → served_hours (set_day_hour_override overrides policy.user_id day intervals reason by) w
        ≡ choice intervals (standing_hours policy w) w
  unfolding policy_to_payload
  set_day_hour_override-served intervals reason by w =
      let rows = set_day_hour_override overrides policy.user_id day intervals reason by in
      let (o, found, same) = set_found overrides policy.user_id day intervals reason by in
      let entry = materialize_allowed_hours-covers policy.allowed_hours_json w in
      ap (λ p. hours_of w p.allowed_hours) (as_chosen rows (some o) found)
      ∙ with_day_hour_override-hours materialized (weekday_of day) w o.intervals_json
      ∙ ap (λ hours. choice hours (or_unrestricted (hours_of w materialized.allowed_hours)) w) same
      ∙ ap (λ standing. choice intervals standing w)
          (ap or_unrestricted entry ∙ or_unrestricted_again (hours_of w policy.allowed_hours_json))

  -- Once the hours of a day are cleared, where the table holds one row at most for the user and the day, a device is
  -- served the policy's hours for every weekday again.
  pub clear_day_hour_override-served :
      (w : Weekday)
      → selected (hours_override_of policy.user_id day) overrides ≤ 1
      → served_hours (clear_day_hour_override overrides policy.user_id day).1 w
        ≡ some (standing_hours policy w)
  clear_day_hour_override-served w unique =
      ap (λ p. hours_of w p.allowed_hours)
        (as_chosen (clear_day_hour_override overrides policy.user_id day).1 none
          (clear_found overrides policy.user_id day unique))
      ∙ materialize_allowed_hours-covers policy.allowed_hours_json w
