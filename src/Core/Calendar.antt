-- ===== src/Core/Calendar.antt =====
-- core/timekpr_hub_core/calendar.py: the household's days, weeks and months. The dates are those of the
-- standard library's proleptic Gregorian calendar (`date`), with their ordinals. The change to the
-- household's time zone (`astimezone`) is a parameter.
pub mod Days
pub mod Bounds
mod Tests
use timekpr_next_hub.Base.{
  ℕ, zero, suc, ◌+◌, ◌-◌, ◌*◌, ◌/◌, ◌%◌, ◌==◌, ◌&&◌, ◌||◌, not, Bool, true, false, Option, none,
  some, List, [], ◌∷◌, if◌then◌else◌, ltb, leb,
}

-- `datetime.date`
pub record Date : Type 0 where
  pub year : ℕ
  pub month : ℕ
  pub day : ℕ

abbrev pub is_leap : ℕ → Bool
is_leap year = (year % 4 == 0) && (not (year % 100 == 0) || (year % 400 == 0))

-- The days of the years before one, from year 1.
abbrev pub days_before_year : ℕ → ℕ
days_before_year year = let y = year - 1 in (y * 365 + y / 4 + y / 400) - y / 100

abbrev pub days_in_month : ℕ → ℕ → ℕ
days_in_month year month =
    if month == 2
    then (if is_leap year then 29 else 28)
    else if (month == 4) || ((month == 6) || ((month == 9) || (month == 11)))
    then 30
    else 31

-- The days of a year before one of its months.
unfoldable pub days_before_month : ℕ → ℕ → ℕ
days_before_month year zero = 0
days_before_month year (suc zero) = 0
days_before_month year (suc (suc m)) = days_before_month year (suc m) + days_in_month year (suc m)

-- `date.toordinal`
unfoldable pub toordinal : Date → ℕ
unfolding days_before_month
toordinal d = days_before_year d.year + days_before_month d.year d.month + d.day

-- `date.isoweekday`, of an ordinal: 1 is Monday.
abbrev pub isoweekday : ℕ → ℕ
isoweekday day = let n = day % 7 in if n == 0 then 7 else n

-- `date.isocalendar`, of a year and an ordinal in it: the Monday of a year's first week, then the year
-- and the number of the ordinal's week.
unfoldable pub iso_week1_monday : ℕ → ℕ
iso_week1_monday year =
    let firstday = days_before_year year + 1 in
    let firstweekday = (firstday + 6) % 7 in
    let week1_monday = firstday - firstweekday in
    if ltb 3 firstweekday then week1_monday + 7 else week1_monday

unfoldable pub isocalendar : ℕ → ℕ → ℕ × ℕ
unfolding iso_week1_monday
isocalendar year day =
    if ltb day (iso_week1_monday year)
    then (year - 1, (day - iso_week1_monday (year - 1)) / 7 + 1)
    else if leb (iso_week1_monday (year + 1)) day
    then (year + 1, 1)
    else (year, (day - iso_week1_monday year) / 7 + 1)

pub record CanonicalStamp : Type 0 where
  pub day : Date
  pub iso_year : ℕ
  pub iso_week : ℕ
  pub month_year : ℕ
  pub month : ℕ

-- An instant with its offset, if it has one: what `datetime` makes of a text.
pub record Instant (Local : Type 0) : Type 0 where
  pub naive : Local
  pub tzinfo : Option ℕ

-- `canonical_stamp`: none where a naive datetime is refused (`ValueError`).
unfoldable pub canonical_stamp :
    {Local : Type 0} → (Local → ℕ → Date) → Instant Local → Option CanonicalStamp
unfolding toordinal isocalendar
canonical_stamp astimezone instant = elim instant.tzinfo [
  | none ↦ none
  | some offset ↦
      let day = astimezone instant.naive offset in
      let (iso_year, iso_week) = isocalendar day.year (toordinal day) in
      some (record {
        day = day;
        iso_year = iso_year;
        iso_week = iso_week;
        month_year = day.year;
        month = day.month;
      })
]

-- `[monday + timedelta(days=i) for i in range(7)]`
abbrev pub days_from : ℕ → ℕ → List ℕ
days_from first zero = []
days_from first (suc n) = first ∷ days_from (first + 1) n

unfoldable pub days_in_iso_week : ℕ → List ℕ
days_in_iso_week day = let monday = day - (isoweekday day - 1) in days_from monday 7

-- The ordinals of the first and the last day.
unfoldable pub month_bounds : Date → ℕ × ℕ
unfolding toordinal
month_bounds day =
    let first : Date = record day { day = 1 } in
    let next_month_first : Date =
      if first.month == 12
      then record first { year = first.year + 1; month = 1 }
      else record first { month = first.month + 1 } in
    (toordinal first, toordinal next_month_first - 1)
