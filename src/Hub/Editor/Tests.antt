-- ===== src/Hub/Editor/Tests.antt =====
-- The policy editor on concrete days.
use timekpr_next_hub.Base.{
  ℕ, ◌*◌, ◌+◌, ◌&&◌, ◌||◌, ltb, if◌then◌else◌, ◌≡◌, ◌≢◌, ◌<◌, refl, All, Option, none, some, List,
  [], ◌∷◌, true, false, arith,
}
use timekpr_next_hub.Core.AllowedHours.{
  TimeInterval, HourRecord, IsInterval, time_interval, unrestricted, intervals_to_hours,
  hours_to_intervals, validate_intervals, first_conflict, hours_from,
}
use timekpr_next_hub.Core.AllowedHours.Expand.{intervals_to_hours-IsHourRecord}
use timekpr_next_hub.Core.AllowedHours.Minutes.{records_allow}
use timekpr_next_hub.Hub.Editor.{
  DayView, all_day_view, DayForm, HoursMode, between, classify_day_hours, parse_day_hours,
  parse_time_str, view_of, submitted,
}
use timekpr_next_hub.Hub.Tables.{User}
use timekpr_next_hub.Hub.Provision.{Accounts, new_user}
use timekpr_next_hub.Hub.Editor.Hours.{Keeps, unchanged_day-allows}
use timekpr_next_hub.Hub.Editor.Lossy.{late_window-refused, unaccounted_day-loses_flag}

-- From 9:30 to 11:00.
abbrev morning : List HourRecord
morning =
    record { hour = 9; start_min = 30; end_min = 60; unaccounted = false }
    ∷ record { hour = 10; start_min = 0; end_min = 60; unaccounted = false }
    ∷ []

-- A field that keeps the times from 00:00 to 23:59.
abbrev field_time : ℕ × ℕ → Option (ℕ × ℕ)
field_time (h, m) = if ltb h 24 && ltb m 60 then some (h, m) else none

field_time-Keeps : Keeps field_time
field_time-Keeps h m early within = ground arith

field_time-hour_24 : (m : ℕ) → field_time (24, m) ≡ none
field_time-hour_24 m = refl

abbrev morning_view : DayView
morning_view = record {
  mode = between;
  from_min = 9 * 60 + 30;
  to_min = 11 * 60;
  hours = 9 ∷ 10 ∷ [];
  unaccounted = false;
}

shown_morning : classify_day_hours (some morning) ≡ some morning_view
unfolding classify_day_hours hours_to_intervals view_of
shown_morning = refl

not_custom : morning_view.mode ≢ HoursMode.custom
not_custom e = cc

unchanged_day-allows_example :
    (saved : List HourRecord) × (parse_day_hours (submitted field_time morning_view) ≡ some saved)
    × ((m : ℕ)
        → records_allow m false saved
          ≡ (records_allow m false morning || records_allow m true morning))
    × ((m : ℕ) → records_allow m true saved ≡ false)
unchanged_day-allows_example =
    unchanged_day-allows field_time morning morning_view field_time-Keeps
      ((omega arith, omega arith, omega arith), ((omega arith, omega arith, omega arith), tt))
      shown_morning not_custom (λ window. omega arith)

-- From 18:00 to the end of the day.
abbrev evening : TimeInterval
evening = record { start_min = 18 * 60; end_min = 24 * 60; unaccounted = false }

evening-merged : hours_to_intervals (intervals_to_hours (evening ∷ [])) ≡ some (evening ∷ [])
unfolding hours_to_intervals intervals_to_hours
evening-merged = refl

late_window-refused_example :
    (view : DayView) × (classify_day_hours (some (intervals_to_hours (evening ∷ []))) ≡ some view)
    × (view.mode ≡ between)
    × (parse_day_hours (submitted field_time view) ≡ none)
late_window-refused_example =
    late_window-refused field_time (intervals_to_hours (evening ∷ [])) (18 * 60) field_time-Keeps
      field_time-hour_24 (omega arith) (omega arith) evening-merged

abbrev morning_form : DayForm
morning_form = record {
  mode = between;
  from_time = some (9, 30);
  to_time = some (11, 0);
  checked = λ hour. false;
  unaccounted = false;
}

parsed_morning : parse_day_hours morning_form ≡ some morning
unfolding parse_day_hours parse_time_str time_interval validate_intervals first_conflict
    intervals_to_hours hours_from
parsed_morning = refl

abbrev whole_day : TimeInterval
whole_day = record { start_min = 0; end_min = 24 * 60; unaccounted = true }

whole_day-IsInterval : All IsInterval (whole_day ∷ [])
whole_day-IsInterval = ((omega arith, omega arith), tt)

whole_day-merged : hours_to_intervals (intervals_to_hours (whole_day ∷ [])) ≡ some (whole_day ∷ [])
unfolding hours_to_intervals intervals_to_hours
whole_day-merged = refl

unaccounted_day-loses_flag_example :
    ((m : ℕ) → m < 24 * 60 → records_allow m true (intervals_to_hours (whole_day ∷ [])) ≡ true)
    × (classify_day_hours (some (intervals_to_hours (whole_day ∷ []))) ≡ some all_day_view)
    × (parse_day_hours (submitted field_time all_day_view) ≡ some (intervals_to_hours unrestricted))
    × ((m : ℕ) → records_allow m true (intervals_to_hours unrestricted) ≡ false)
unaccounted_day-loses_flag_example =
    unaccounted_day-loses_flag field_time (intervals_to_hours (whole_day ∷ []))
      (intervals_to_hours-IsHourRecord (whole_day ∷ []) whole_day-IsInterval) whole_day-merged

-- More than 24 hours is no time of the day.
late_refused : parse_time_str (some (24, 1)) ≡ none
unfolding parse_time_str
late_refused = refl

-- A child whose account has no policy yet.
abbrev child : User
child = new_user 3 "alex"

abbrev one_account : Accounts
one_account = record { users = child ∷ []; aliases = []; policies = [] }
