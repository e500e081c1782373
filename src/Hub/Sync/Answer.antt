-- ===== src/Hub/Sync/Answer.antt =====
-- What the hub answers, and that it answers.
use timekpr_next_hub.Base.{
  ℕ, ◌+◌, ◌-◌, ◌≡◌, ◌≤◌, refl, ap, ◌∙◌, ◌*◌, ◌&&◌, not, Bool, false, none, [], arith, if◌then◌else◌,
  if-elim,
}
use timekpr_next_hub.Base.Int.{ℤ, pos, ◌≤ℤ◌, ◌+ℤ◌, ◌-ℤ◌, max_ℤ}
use timekpr_next_hub.Core.Models.{AccountingMode}
use timekpr_next_hub.Core.Calendar.{
  Date, toordinal, days_in_iso_week, month_bounds, days_before_year, days_before_month,
  days_in_month,
}
use timekpr_next_hub.Core.Calendar.Days.{week_index, monday_eq}
use timekpr_next_hub.Core.Calendar.Bounds.{IsDate, month_bounds-last, days_in_month_low}
use timekpr_next_hub.Hub.Tables.{User, Policy}
use timekpr_next_hub.Hub.Limits.{
  LimitTables, effective_daily_limit, combine_limit, is_gated_weekday, is_gate_released,
  grants_total,
}
use timekpr_next_hub.Hub.Aggregate.{global_spent_wallclock, global_spent_parallel}
use timekpr_next_hub.Hub.Aggregate.Windows.Groups.{sum_days}
use timekpr_next_hub.Hub.Aggregate.Windows.Sums.{
  global_spent_wallclock_window-sums, global_spent_parallel_window-sums,
}
use timekpr_next_hub.Hub.Enrollment.{Device}
use timekpr_next_hub.Hub.Sync.{Context, Tables, SyncUserRequest, week_bounds, window_spend, answer}

-- The time that counts for a user on a day, by the user's accounting mode.
abbrev pub spent_on_day : Context → Tables → User → ℕ → ℤ
spent_on_day ctx st user day = elim user.accounting_mode [
  | AccountingMode.wallclock ↦
      global_spent_wallclock ctx.range_agg_s st.intervals st.counters user.id day
  | AccountingMode.parallel ↦ global_spent_parallel st.counters user.id day
]

window_spend-sums :
    (ctx : Context) (st : Tables) (user : User) (start_day end_day : ℕ)
    → ctx.range_agg_s [] ≡ none
    → start_day ≤ end_day
    → window_spend ctx st user (start_day, end_day)
      ≡ sum_days (spent_on_day ctx st user) start_day (end_day + 1 - start_day)
unfolding window_spend
window_spend-sums ctx st user start_day end_day empty order = of_mode user.accounting_mode
  where
    of_mode :
        (mode : AccountingMode)
        → let u : User = record user { accounting_mode = mode } in
          window_spend ctx st u (start_day, end_day)
          ≡ sum_days (spent_on_day ctx st u) start_day (end_day + 1 - start_day)
    of_mode AccountingMode.wallclock =
        global_spent_wallclock_window-sums ctx.range_agg_s st.intervals st.counters user.id
          start_day end_day empty order
    of_mode AccountingMode.parallel =
        global_spent_parallel_window-sums st.counters user.id start_day end_day

-- Bounds that are so many days apart, from a first day.
window_of :
    (ctx : Context) (st : Tables) (user : User) (bounds : ℕ × ℕ) (first n : ℕ)
    → ctx.range_agg_s [] ≡ none
    → bounds.0 ≡ first
    → bounds.1 + 1 ≡ first + n
    → 1 ≤ n
    → window_spend ctx st user bounds ≡ sum_days (spent_on_day ctx st user) first n
window_of ctx st user (start_day, end_day) first n empty starts ends some_day =
    let length : end_day + 1 - start_day ≡ n = omega arith in
    window_spend-sums ctx st user start_day end_day empty (omega arith)
    ∙ ap (λ d. sum_days (spent_on_day ctx st user) d (end_day + 1 - start_day)) starts
    ∙ ap (sum_days (spent_on_day ctx st user) first) length

week_bounds-monday :
    (day : ℕ)
    → 1 ≤ day
    → ((week_bounds day).0 ≡ 7 * (week_index day - 1) + 1)
      × ((week_bounds day).1 + 1 ≡ 7 * (week_index day - 1) + 1 + 7)
unfolding days_in_iso_week
week_bounds-monday day h = (monday_eq day h, omega (arith, monday_eq day h))

month_bounds-month :
    (d : Date)
    → IsDate d
    → ((month_bounds d).0 ≡ days_before_year d.year + days_before_month d.year d.month + 1)
      × ((month_bounds d).1 + 1
          ≡ days_before_year d.year
            + days_before_month d.year d.month
            + 1
            + days_in_month d.year d.month)
unfolding month_bounds toordinal
month_bounds-month d h = (refl, omega (arith, month_bounds-last d h))

date_low : (d : Date) → IsDate d → 1 ≤ toordinal d
unfolding toordinal
date_low d h = omega (arith, h.day_low)

nonneg : (v : ℤ) → pos 0 ≤ℤ max_ℤ (pos 0) v
unfolding max_ℤ
nonneg v = ground arith

combine_nonneg :
    (base_s grants_s : ℤ) (gated released : Bool)
    → pos 0 ≤ℤ combine_limit base_s grants_s gated released
unfolding combine_limit
combine_nonneg base_s grants_s gated released =
    if-elim (λ v. pos 0 ≤ℤ v) (gated && not released) (pos 0) (max_ℤ (pos 0) (base_s +ℤ grants_s))
      (λ _. omega arith) (λ _. nonneg (base_s +ℤ grants_s))

daily_nonneg :
    (limits : LimitTables) (policy : Policy) (user : User) (day : ℕ)
    → pos 0 ≤ℤ effective_daily_limit limits policy user day
unfolding effective_daily_limit
daily_nonneg limits policy user day =
    let gated = is_gated_weekday user day in
    combine_nonneg _ (grants_total limits.grants user.id day) gated
      (if gated then is_gate_released limits.gate_releases user.id day else false)

some_days : (d : Date) → 1 ≤ days_in_month d.year d.month
some_days d = omega (arith, days_in_month_low d.year d.month)

-- What the hub answers a report with: of the week's limit there is left what the time spent on seven
-- days has not used, from the Monday of the week that holds today, where day 1 was a Monday; of the
-- month's limit what the time spent on as many days as today's month has, from the day after the days
-- before that month, has not used; nothing where they have used more; and the day's limit is not
-- negative. PostgreSQL's range_agg is null for no row, and today is a date of the calendar.
pub answer-limits :
    (ctx : Context) (device : Device) (st : Tables) (user : User) (policy : Policy)
    (req : SyncUserRequest)
    → ctx.range_agg_s [] ≡ none
    → IsDate ctx.today
    → let out = answer ctx device st user policy req in
      let monday = 7 * (week_index (toordinal ctx.today) - 1) + 1 in
      let year = ctx.today.year in
      let month = ctx.today.month in
      let first = days_before_year year + days_before_month year month + 1 in
      let week = sum_days (spent_on_day ctx st user) monday 7 in
      let month_spent = sum_days (spent_on_day ctx st user) first (days_in_month year month) in
      (out.effective_week_limit_s ≡ max_ℤ (pos 0) (policy.weekly_limit_s -ℤ week))
      × (out.effective_month_limit_s ≡ max_ℤ (pos 0) (policy.monthly_limit_s -ℤ month_spent))
      × (pos 0 ≤ℤ out.effective_limit_today_s)
unfolding answer
answer-limits ctx device st user policy req empty date =
    let (monday, sunday) = week_bounds-monday (toordinal ctx.today) (date_low ctx.today date) in
    let (first, last) = month_bounds-month ctx.today date in
    (
      ap (λ v. max_ℤ (pos 0) (policy.weekly_limit_s -ℤ v))
          (window_of ctx st user _ _ 7 empty monday sunday (omega arith)),
      ap (λ v. max_ℤ (pos 0) (policy.monthly_limit_s -ℤ v))
          (window_of ctx st user _ _ _ empty first last (some_days ctx.today)),
      daily_nonneg ctx.limits policy user (toordinal ctx.today),
    )
