-- ===== src/Core/AllowedHours/Tests.antt =====
-- The allowed-hours theorems at concrete windows, and runs of the conversions.
use timekpr_next_hub.Base.{
  ℕ, ◌≤◌, ◌≡◌, ◌↔◌, refl, Bool, true, false, none, some, List, [], ◌∷◌, arith, All,
}
use timekpr_next_hub.Core.AllowedHours.{
  TimeInterval, HourRecord, IsInterval, same_hour, validate_intervals, intervals_to_hours,
  hours_to_intervals,
}
use timekpr_next_hub.Core.AllowedHours.Minutes.{intervals_allow}
use timekpr_next_hub.Core.AllowedHours.Validate.{records_at, validate_intervals_iff}
use timekpr_next_hub.Core.AllowedHours.Reassemble.{hours_to_intervals-intervals_to_hours}

abbrev window : ℕ → ℕ → TimeInterval
window start_min end_min = record { start_min = start_min; end_min = end_min; unaccounted = false }

-- 7:15-9:00 and 9:45-14:30 can be stored; 7:15-9:15 and 9:45-14:30 cannot.
abbrev windows : List TimeInterval
windows = window 585 870 ∷ window 435 540 ∷ []

validate-runs :
    (validate_intervals windows ≡ none)
    × (validate_intervals (window 585 870 ∷ window 435 555 ∷ [])
        ≡ some (same_hour (window 435 555) (window 585 870) 9))
unfolding validate_intervals
validate-runs = (refl, refl)

round_trip-runs :
    hours_to_intervals (intervals_to_hours windows) ≡ some (window 435 540 ∷ window 585 870 ∷ [])
unfolding hours_to_intervals intervals_to_hours
round_trip-runs = refl

validate_intervals_iff_example :
    (validate_intervals windows ≡ none) ↔ ((h : ℕ) → records_at h (intervals_to_hours windows) ≤ 1)
validate_intervals_iff_example = validate_intervals_iff windows (omega arith)

abbrev stored : List HourRecord
stored =
    record { hour = 16; start_min = 0; end_min = 60; unaccounted = false }
    ∷ record { hour = 15; start_min = 30; end_min = 60; unaccounted = false }
    ∷ record { hour = 17; start_min = 0; end_min = 20; unaccounted = true }
    ∷ []

hours_to_intervals-intervals_to_hours_example :
    (back : List TimeInterval) × (hours_to_intervals (intervals_to_hours windows) ≡ some back)
    × All IsInterval back
    × ((m : ℕ) (u : Bool) → intervals_allow m u back ≡ intervals_allow m u windows)
hours_to_intervals-intervals_to_hours_example =
    hours_to_intervals-intervals_to_hours windows (omega arith)
