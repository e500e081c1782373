-- ===== src/Core/Calendar/Bounds.antt =====
-- The first and the last day of a month.
use timekpr_next_hub.Base.{
  ℕ, zero, suc, ◌+◌, ◌-◌, ◌≤◌, ◌<◌, ◌≡◌, ◌↔◌, refl, sym, ap, ◌==◌, true, false, inl, inr, arith,
  if-elim, Bool-cases, ==_iff, ◌⊎◌,
}
use timekpr_next_hub.Core.Calendar.{
  Date, days_before_year, days_in_month, days_before_month, toordinal, month_bounds,
}

-- A date of the calendar.
pub record IsDate (d : Date) : Type 0 where
  pub year_low : 1 ≤ d.year
  pub month_low : 1 ≤ d.month
  pub month_high : d.month ≤ 12
  pub day_low : 1 ≤ d.day
  pub day_high : d.day ≤ days_in_month d.year d.month

-- The ordinals before a month and up to its end.
abbrev month_start : ℕ → ℕ → ℕ
month_start year month = days_before_year year + days_before_month year month

abbrev month_end : ℕ → ℕ → ℕ
month_end year month =
    days_before_year year + (days_before_month year month + days_in_month year month)

pub days_in_month_low : (y m : ℕ) → 28 ≤ days_in_month y m
days_in_month_low y m = ground arith

days_before_month-suc :
    (y m m' : ℕ)
    → 1 ≤ m
    → m' ≡ m + 1
    → days_before_month y m' ≡ days_before_month y m + days_in_month y m
unfolding days_before_month
days_before_month-suc y zero m' h e = omega arith
days_before_month-suc y (suc m) m' h e = ap (days_before_month y) e'
  where
    e' : m' ≡ suc (suc m)
    e' = omega arith

days_in_year :
    (y : ℕ) → 1 ≤ y → days_before_year (y + 1) ≡ days_before_year y + (337 + days_in_month y 2)
days_in_year y h = ground arith

days_before_month-year_end : (y : ℕ) → days_before_month y 12 + 31 ≡ 337 + days_in_month y 2
unfolding days_before_month
days_before_month-year_end y = ground arith

-- The months of a year follow one another.
months_apart :
    (y m k : ℕ)
    → 1 ≤ m
    → days_before_month y m + days_in_month y m ≤ days_before_month y (m + k + 1)
months_apart y m zero h = omega (arith, days_before_month-suc y m (m + zero + 1) h (omega arith))
months_apart y m (suc k) h = omega (
  arith,
  months_apart y m k h,
  days_before_month-suc y (m + k + 1) (m + suc k + 1) (omega arith) (omega arith),
)

later_month :
    (y m m' : ℕ)
    → 1 ≤ m
    → m < m'
    → days_before_month y m + days_in_month y m ≤ days_before_month y m'
later_month y m m' h k =
    let e : m + (m' - m - 1) + 1 ≡ m' = omega arith in rw⁻¹ (e) (months_apart y m (m' - m - 1) h)

december :
    (y : ℕ) → 1 ≤ y → days_before_year y + (days_before_month y 12 + 31) ≤ days_before_year (y + 1)
december y h = omega (arith, days_before_month-year_end y, days_in_year y h)

before_december : (m : ℕ) → m ≤ 12 → (m == 12) ≡ false → m < 12
before_december m k e = ground arith

-- A month ends in its year.
month_in_year : (y m : ℕ) → 1 ≤ y → 1 ≤ m → m ≤ 12 → month_end y m ≤ days_before_year (y + 1)
month_in_year y m hy h k = elim (Bool-cases (m == 12)) [
  | inl e ↦ rw ((==_iff m 12).0 e) (december y hy)
  | inr e ↦ omega (
    arith,
    later_month y m 12 h (before_december m k e),
    days_before_month-year_end y,
    days_in_year y hy,
  )
]

later_year : (y y' : ℕ) → y < y' → days_before_year (y + 1) ≤ days_before_year y'
later_year y y' h = omega arith

-- A month of the calendar ends before a later one begins.
months_in_order :
    (y m y' m' : ℕ)
    → 1 ≤ y
    → 1 ≤ m
    → m ≤ 12
    → 1 ≤ m'
    → (y < y') ⊎ ((y ≡ y') × (m < m'))
    → month_end y m ≤ month_start y' m'
months_in_order y m y' m' hy h k h' (inl earlier) =
    omega (arith, month_in_year y m hy h k, later_year y y' earlier)
months_in_order y m y' m' hy h k h' (inr (e, earlier)) =
    rw⁻¹ (e) (omega (arith, later_month y m m' h earlier))

from_december :
    (y m : ℕ) → 1 ≤ y → (m == 12) ≡ true → days_before_year (y + 1) + 0 + 1 - 1 ≡ month_end y m
from_december y m h e =
    rw ((==_iff m 12).0 e) (omega (arith, days_before_month-year_end y, days_in_year y h))

next_in_year :
    (start before days next : ℕ)
    → next ≡ before + days
    → start + next + 1 - 1 ≡ start + (before + days)
next_in_year start before days next h = omega arith

pub month_bounds-last : (d : Date) → IsDate d → (month_bounds d).1 ≡ month_end d.year d.month
unfolding month_bounds toordinal
month_bounds-last d h =
    if-elim (λ (next : Date). toordinal next - 1 ≡ month_end d.year d.month) (d.month == 12) _ _
      (λ e. from_december d.year d.month h.year_low e)
      (λ e.
        next_in_year (days_before_year d.year) _ _ _
          (days_before_month-suc d.year d.month (d.month + 1) h.month_low refl))

order_of_months :
    (y m y' m' : ℕ)
    → ((y ≡ y') × (m ≡ m'))
      ⊎ (((y < y') ⊎ ((y ≡ y') × (m < m'))) ⊎ ((y' < y) ⊎ ((y' ≡ y) × (m' < m))))
order_of_months y m y' m' = ground arith

inside :
    (y m y' m' day : ℕ)
    → y' ≡ y
    → m' ≡ m
    → 1 ≤ day
    → day ≤ days_in_month y' m'
    → (month_start y m + 1 ≤ month_start y' m' + day) × (month_start y' m' + day ≤ month_end y m)
inside y m y' m' day ey em low high = rw (ey, em) (omega arith, omega (arith, high_here))
  where
    high_here : day ≤ days_in_month y m
    high_here = rw⁻¹ (ey, em) high

too_early :
    (y m y' m' day : ℕ)
    → day ≤ days_in_month y' m'
    → month_end y' m' ≤ month_start y m
    → month_start y m + 1 ≤ month_start y' m' + day
    → ⊥
too_early y m y' m' day high order k = omega arith

too_late :
    (y m y' m' day : ℕ)
    → 1 ≤ day
    → month_end y m ≤ month_start y' m'
    → month_start y' m' + day ≤ month_end y m
    → ⊥
too_late y m y' m' day low order k = omega arith

not_earlier : (y m y' m' : ℕ) → (y ≡ y') × (m ≡ m') → (y < y') ⊎ ((y ≡ y') × (m < m')) → ⊥
not_earlier y m y' m' (ey, em) (inl k) = omega arith
not_earlier y m y' m' (ey, em) (inr (e, k)) = omega arith

-- A date lies between the first and the last day of a date's month exactly when it is a date of the same
-- month of the same year; both are dates of the calendar.
pub month_bounds-same_month :
    (d d' : Date)
    → IsDate d
    → IsDate d'
    → ((((month_bounds d).0 ≤ toordinal d') × (toordinal d' ≤ (month_bounds d).1))
        ↔ ((d'.year ≡ d.year) × (d'.month ≡ d.month)))
unfolding month_bounds toordinal
month_bounds-same_month d d' h h' =
    rw (month_bounds-last d h) (elim (order_of_months d'.year d'.month d.year d.month) [
      | inl (ey, em) ↦ (
        λ k. (ey, em),
        λ k. inside d.year d.month d'.year d'.month d'.day ey em h'.day_low h'.day_high,
      )
      | inr (inl earlier) ↦ (
        λ k. absurd (
            too_early d.year d.month d'.year d'.month d'.day h'.day_high
              (months_in_order d'.year d'.month d.year d.month h'.year_low h'.month_low
                h'.month_high h.month_low earlier)
              k.0),
        λ e. absurd (not_earlier d'.year d'.month d.year d.month e earlier),
      )
      | inr (inr later) ↦ (
        λ k. absurd (
            too_late d.year d.month d'.year d'.month d'.day h'.day_low
              (months_in_order d.year d.month d'.year d'.month h.year_low h.month_low h.month_high
                h'.month_low later)
              k.1),
        λ e. absurd (not_earlier d.year d.month d'.year d'.month (sym e.0, sym e.1) later),
      )
    ])
