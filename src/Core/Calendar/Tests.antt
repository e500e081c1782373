-- ===== src/Core/Calendar/Tests.antt =====
-- The calendar's theorems at concrete days, and its dates against known ones.
use timekpr_next_hub.Base.{ℕ, ◌≡◌, refl, arith, some}
use timekpr_next_hub.Core.Calendar.{Date, toordinal, canonical_stamp}
use timekpr_next_hub.Core.Calendar.Bounds.{IsDate}

-- Monday 30 December 2024, which is in the first week of 2025.
abbrev new_year : Date
new_year = record { year = 2024; month = 12; day = 30 }

abbrev leap_day : Date
leap_day = record { year = 2024; month = 2; day = 29 }

abbrev new_year_ordinal : ℕ
new_year_ordinal = 739250

toordinal-new_year : toordinal new_year ≡ new_year_ordinal
unfolding toordinal
toordinal-new_year = refl

new_year_stamp :
    canonical_stamp (λ (d : Date) offset. d) (record { naive = new_year; tzinfo = some 0 })
    ≡ some (record { day = new_year; iso_year = 2025; iso_week = 1; month_year = 2024; month = 12 })
unfolding canonical_stamp
new_year_stamp = refl

leap_day-IsDate : IsDate leap_day
leap_day-IsDate = record {
  year_low = omega arith;
  month_low = omega arith;
  month_high = omega arith;
  day_low = omega arith;
  day_high = omega arith;
}

new_year-IsDate : IsDate new_year
new_year-IsDate = record {
  year_low = omega arith;
  month_low = omega arith;
  month_high = omega arith;
  day_low = omega arith;
  day_high = omega arith;
}
