-- ===== src/Core/Calendar/Days.antt =====
-- The days of a week, and the number that a week has in a year.
use timekpr_next_hub.Base.{
  ℕ, zero, suc, ◌+◌, ◌-◌, ◌*◌, ◌/◌, ◌%◌, ◌≤◌, ◌<◌, ◌≡◌, ◌↔◌, refl, ap, ◌∙◌, ◌==◌, true, false, List,
  [], ◌∷◌, map, any, arith, if-elim, ltb, leb, leb→le,
}
use timekpr_next_hub.Core.Calendar.{
  days_before_year, isoweekday, iso_week1_monday, isocalendar, days_from, days_in_iso_week,
}

-- The weeks counted one after another, each from a Monday; day 1 was a Monday.
abbrev pub week_index : ℕ → ℕ
week_index day = (day + 6) / 7

abbrev pub one_to_seven : List ℕ
one_to_seven = 1 ∷ 2 ∷ 3 ∷ 4 ∷ 5 ∷ 6 ∷ 7 ∷ []

pub monday_eq : (day : ℕ) → 1 ≤ day → day - (isoweekday day - 1) ≡ 7 * (week_index day - 1) + 1
monday_eq day h = ground arith

weekday_of_first : (w first i : ℕ) → first ≡ 7 * w + 1 + i → i < 7 → isoweekday first ≡ i + 1
weekday_of_first w first i at h = ground arith

occurs_from :
    (first n other : ℕ)
    → (any (λ d. d == other) (days_from first n) ≡ true) ↔ ((first ≤ other) × (other < first + n))
occurs_from first zero other = ground arith
occurs_from first (suc n) other = ground (arith, occurs_from (first + 1) n other)

in_week :
    (day other : ℕ)
    → 1 ≤ day
    → let monday = day - (isoweekday day - 1) in
      ((monday ≤ other) × (other < monday + 7)) ↔ (week_index other ≡ week_index day)
in_week day other h = rw (monday_eq day h) (range day other h)
  where
    range :
        (day other : ℕ)
        → 1 ≤ day
        → ((7 * (week_index day - 1) + 1 ≤ other) × (other < 7 * (week_index day - 1) + 1 + 7))
          ↔ (week_index other ≡ week_index day)
    range day other h = omega arith

weekdays_from :
    (w first i n : ℕ)
    → first ≡ 7 * w + 1 + i
    → i + n ≡ 7
    → map isoweekday (days_from first n) ≡ days_from (i + 1) n
weekdays_from w first i zero at h = refl
weekdays_from w first i (suc n) at h =
    ap (λ x. x ∷ map isoweekday (days_from (first + 1) n))
      (weekday_of_first w first i at (omega arith))
    ∙ ap (λ xs. (i + 1) ∷ xs) (weekdays_from w (first + 1) (i + 1) n (omega arith) (omega arith))

-- The week of a day is the seven days from a Monday to a Sunday, one after another, that belong to the
-- same week as the day when the weeks are counted from day 1.
pub days_in_iso_week-same_week :
    (day : ℕ)
    → 1 ≤ day
    → (map isoweekday (days_in_iso_week day) ≡ one_to_seven)
      × ((other : ℕ)
          → (any (λ d. d == other) (days_in_iso_week day) ≡ true)
            ↔ (week_index other ≡ week_index day))
unfolding days_in_iso_week
days_in_iso_week-same_week day h =
    let w = week_index day - 1 in
    let monday = day - (isoweekday day - 1) in
    let e : monday ≡ 7 * w + 1 = monday_eq day h in
    (
      weekdays_from w monday 0 7 (omega arith) refl,
      λ other.
          let o = occurs_from monday 7 other in
          let r = in_week day other h in (λ k. r.0 (o.0 k), λ k. o.1 (r.1 k)),
    )

year_length :
    (year : ℕ)
    → 1 ≤ year
    → (days_before_year year + 365 ≤ days_before_year (year + 1))
      × (days_before_year (year + 1) ≤ days_before_year year + 366)
year_length year h = (omega arith, omega arith)

week1-monday :
    (year : ℕ)
    → let m = iso_week1_monday year in
      (m + 2 ≤ days_before_year year + 6) × (days_before_year year ≤ m + 2) × (m % 7 ≡ 1)
unfolding iso_week1_monday
week1-monday year = ground arith

monday_from :
    (m day : ℕ) → m % 7 ≡ 1 → m ≤ day → day - (isoweekday day - 1) ≡ m + 7 * ((day - m) / 7 + 1 - 1)
monday_from m day h k = ground arith

first_of_next :
    (m day : ℕ) → m % 7 ≡ 1 → m ≤ day → day < m + 7 → day - (isoweekday day - 1) ≡ m + 7 * (1 - 1)
first_of_next m day h k l = ground arith

not_before : (day m : ℕ) → ltb day m ≡ false → m ≤ day
not_before day m h = ground arith

-- The day belongs to the year that the stamp was made of.
abbrev pub InYear : ℕ → ℕ → Type 0
InYear year day = (days_before_year year < day) × (day ≤ days_before_year (year + 1))

-- The year and the number that a day's week has count from the Monday of that year's first week to the
-- first of the days that are pooled as the day's week, for every day of a year after the first one.
pub isocalendar-days_in_iso_week :
    (year day : ℕ)
    → 2 ≤ year
    → InYear year day
    → let (iso_year, iso_week) = isocalendar year day in
      (1 ≤ iso_week)
      × (days_in_iso_week day ≡ days_from (iso_week1_monday iso_year + 7 * (iso_week - 1)) 7)
unfolding isocalendar days_in_iso_week
isocalendar-days_in_iso_week year day h (above, below) =
    let (lo0, hi0, mod0) = week1-monday (year - 1) in
    let (lo1, hi1, mod1) = week1-monday year in
    let (lo2, hi2, mod2) = week1-monday (year + 1) in
    let (short, long) = year_length (year - 1) (omega arith) in
    if-elim Numbered (ltb day (iso_week1_monday year)) _ _
      (λ early. (
        omega arith,
        ap (λ m. days_from m 7) (monday_from (iso_week1_monday (year - 1)) day mod0 (omega arith)),
      ))
      (λ on.
        if-elim Numbered (leb (iso_week1_monday (year + 1)) day) _ _
          (λ late. (
            omega arith,
            ap (λ m. days_from m 7)
                (first_of_next (iso_week1_monday (year + 1)) day mod2 (leb→le _ _ late)
                  (omega arith)),
          ))
          (λ within. (
            omega arith,
            ap (λ m. days_from m 7)
                (monday_from (iso_week1_monday year) day mod1 (not_before _ _ on)),
          )))
  where
    Numbered : ℕ × ℕ → Type 0
    Numbered (iso_year, iso_week) =
        (1 ≤ iso_week)
        × (days_in_iso_week day ≡ days_from (iso_week1_monday iso_year + 7 * (iso_week - 1)) 7)
