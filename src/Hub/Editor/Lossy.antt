-- ===== src/Hub/Editor/Lossy.antt =====
-- What the policy editor does not keep of a day that is shown and submitted again.
use timekpr_next_hub.Base.{
  ℕ, ◌*◌, ◌/◌, ◌%◌, ◌≡◌, ◌<◌, refl, sym, ap, ◌∙◌, true, false, Option, none, some, List, [], ◌∷◌,
  arith, map, All,
}
use timekpr_next_hub.Core.AllowedHours.{
  TimeInterval, HourRecord, unrestricted, intervals_to_hours, hours_to_intervals,
}
use timekpr_next_hub.Core.AllowedHours.Expand.{IsHourRecord}
use timekpr_next_hub.Core.AllowedHours.Reassemble.{hours_to_intervals-allows}
use timekpr_next_hub.Core.AllowedHours.Minutes.{records_allow, intervals_allow}
use timekpr_next_hub.Hub.Sync.Lookup.{some_inj}
use timekpr_next_hub.Hub.Editor.{
  DayView, all_day_view, view_of, classify_day_hours, parse_time_str, parse_day_hours, submitted,
  between,
}
use timekpr_next_hub.Hub.Editor.Hours.{
  Keeps, all_day_parsed, unrestricted-counted, classify_day_hours-merged, parse_time_str-fmt_hm,
}

-- A counted window to the end of the day, shown.
abbrev pub late_view : ℕ → List HourRecord → DayView
late_view start records = record {
  mode = between;
  from_min = start;
  to_min = 24 * 60;
  hours = map (λ (r : HourRecord). r.hour) records;
  unaccounted = false;
}

view_of-late_view :
    (start : ℕ) (records : List HourRecord)
    → 0 < start
    → view_of records (record { start_min = start; end_min = 24 * 60; unaccounted = false } ∷ [])
      ≡ late_view start records
unfolding view_of
view_of-late_view start records later = ground arith

parse_nothing : parse_time_str none ≡ none
unfolding parse_time_str
parse_nothing = refl

module _ (time_input : ℕ × ℕ → Option (ℕ × ℕ)) where
  -- A day of valid records that make one window over all of the day which is unaccounted: every minute
  -- is allowed uncounted; the day is shown as "all day", and what is saved of it where it is submitted
  -- as it is shown allows no minute uncounted.
  pub unaccounted_day-loses_flag :
      (records : List HourRecord)
      → All IsHourRecord records
      → hours_to_intervals records
        ≡ some (record { start_min = 0; end_min = 24 * 60; unaccounted = true } ∷ [])
      → ((m : ℕ) → m < 24 * 60 → records_allow m true records ≡ true)
        × (classify_day_hours (some records) ≡ some all_day_view)
        × (parse_day_hours (submitted time_input all_day_view)
            ≡ some (intervals_to_hours unrestricted))
        × ((m : ℕ) → records_allow m true (intervals_to_hours unrestricted) ≡ false)
  unfolding view_of
  unaccounted_day-loses_flag records valid merged =
      let (ivs, found, valid_ivs, allowed) = hours_to_intervals-allows records valid in
      let full : TimeInterval = record { start_min = 0; end_min = 24 * 60; unaccounted = true } in
      let is_full : ivs ≡ (full ∷ []) = some_inj ivs (full ∷ []) (sym found ∙ merged) in
      (
        λ m within. sym (allowed m true) ∙ ap (intervals_allow m true) is_full ∙ ground arith,
        classify_day_hours-merged records (full ∷ []) merged,
        all_day_parsed time_input,
        unrestricted-counted time_input,
      )

  late_view-refused :
      (start : ℕ) (records : List HourRecord)
      → Keeps time_input
      → ((m : ℕ) → time_input (24, m) ≡ none)
      → start < 24 * 60
      → parse_day_hours (submitted time_input (late_view start records)) ≡ none
  unfolding parse_day_hours submitted
  late_view-refused start records keeps blank within =
      rw
        (
          keeps (start / 60) (start % 60) (omega arith) (omega arith),
          parse_time_str-fmt_hm start (omega arith),
          blank 0,
          parse_nothing,
        )
        refl

  -- A browser keeps the times from 00:00 to 23:59 and no time of hour 24. A day whose records make one
  -- counted window that ends with the day and does not start with it is shown as that window, and is
  -- refused where it is submitted as it is shown.
  pub late_window-refused :
      (records : List HourRecord) (start : ℕ)
      → Keeps time_input
      → ((m : ℕ) → time_input (24, m) ≡ none)
      → 0 < start
      → start < 24 * 60
      → hours_to_intervals records
        ≡ some (record { start_min = start; end_min = 24 * 60; unaccounted = false } ∷ [])
      → (view : DayView) × (classify_day_hours (some records) ≡ some view)
        × (view.mode ≡ between)
        × (parse_day_hours (submitted time_input view) ≡ none)
  late_window-refused records start keeps blank later within merged =
      let shown : TimeInterval = record {
        start_min = start;
        end_min = 24 * 60;
        unaccounted = false;
      } in
      (
        late_view start records,
        classify_day_hours-merged records (shown ∷ []) merged
            ∙ ap some (view_of-late_view start records later),
        refl,
        late_view-refused start records keeps blank within,
      )
