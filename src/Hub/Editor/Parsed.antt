-- ===== src/Hub/Editor/Parsed.antt =====
-- What a submitted day of the policy editor may be parsed as.
use timekpr_next_hub.Base.{
  ℕ, zero, suc, ◌+◌, ◌*◌, ◌≡◌, ◌≢◌, ◌≤◌, refl, sym, ap, ◌∙◌, subst, ◌&&◌, ltb, leb, Bool, true,
  false, Option, none, some, List, [], ◌∷◌, arith, map, keep, All, if-elim, ◌>>=◌,
}
use timekpr_next_hub.Core.AllowedHours.{
  TimeInterval, HourRecord, IsInterval, time_interval, unrestricted, intervals_to_hours,
  validate_intervals,
}
use timekpr_next_hub.Core.AllowedHours.Expand.{
  IsHourRecord, intervals_to_hours-IsHourRecord, intervals_to_hours-allows,
}
use timekpr_next_hub.Core.AllowedHours.Minutes.{records_allow, intervals_allow}
use timekpr_next_hub.Hub.Sync.Lookup.{some_inj}
use timekpr_next_hub.Hub.Editor.{
  HoursMode, DayForm, parse_time_str, parse_day_hours, custom_hours, unless_conflict, hours_of_day,
  between, all_day, custom,
}

-- A parsed day has hours, and each is a valid record.
IsDay : List HourRecord → Type 0
IsDay records = All IsHourRecord records × (records ≢ [])

Parses : Option (List HourRecord) → Type 0
Parses parsed = (records : List HourRecord) → parsed ≡ some records → IsDay records

some-Parses : (records : List HourRecord) → IsDay records → Parses (some records)
unfolding Parses
some-Parses records day others e = subst IsDay (some_inj records others e) day

none-Parses : Parses none
unfolding Parses
none-Parses records e = cc

bind-Parses {ℓ} :
    {A : Type ℓ} (step : Option A) (next : A → Option (List HourRecord))
    → ((a : A) → step ≡ some a → Parses (next a))
    → Parses (step >>= next)
bind-Parses none next each = none-Parses
bind-Parses (some a) next each = each a refl

unless_conflict-Parses {ℓ} :
    {C : Type ℓ} (conflict : Option C) (records : List HourRecord)
    → IsDay records
    → Parses (unless_conflict conflict records)
unless_conflict-Parses none records day = some-Parses records day
unless_conflict-Parses (some c) records day = none-Parses

start_allowed :
    (iv : TimeInterval)
    → IsInterval iv
    → intervals_allow iv.start_min iv.unaccounted (iv ∷ []) ≡ true
start_allowed iv valid = ground arith

true_is_not_false : true ≢ false
true_is_not_false e = cc

window-IsDay : (iv : TimeInterval) → IsInterval iv → IsDay (intervals_to_hours (iv ∷ []))
unfolding IsDay
window-IsDay iv valid = (
  intervals_to_hours-IsHourRecord (iv ∷ []) (valid, tt),
  λ empty.
      let allowed = intervals_to_hours-allows iv.start_min iv.unaccounted (iv ∷ []) (valid, tt) in
      true_is_not_false (
        sym (start_allowed iv valid)
        ∙ sym allowed
        ∙ ap (records_allow iv.start_min iv.unaccounted) empty),
)

time_interval-IsInterval : (iv made : TimeInterval) → time_interval iv ≡ some made → IsInterval made
unfolding time_interval
time_interval-IsInterval iv made h =
    if-elim (λ result. result ≡ some made → IsInterval made)
      (ltb iv.start_min iv.end_min && leb iv.end_min (24 * 60)) _ _
      (λ within same. subst IsInterval (some_inj iv made same) (ground arith)) (λ outside same. cc)
      h

whole_hours-IsHourRecord :
    (checked : ℕ → Bool) (unaccounted : Bool) (first n : ℕ)
    → first + n ≤ 24
    → All IsHourRecord (
        map
          (λ hour. record { hour = hour; start_min = 0; end_min = 60; unaccounted = unaccounted })
          (keep checked (hours_of_day first n)))
whole_hours-IsHourRecord checked u first zero h = tt
whole_hours-IsHourRecord checked u first (suc n) h =
    if-elim
      (λ hours.
        All IsHourRecord (
          map (λ hour. record { hour = hour; start_min = 0; end_min = 60; unaccounted = u }) hours))
      (checked first) _ _
      (λ kept. (
        (omega arith, omega arith, omega arith),
        whole_hours-IsHourRecord checked u (first + 1) n (omega arith),
      ))
      (λ dropped. whole_hours-IsHourRecord checked u (first + 1) n (omega arith))

custom_hours-Parses :
    (hours : List ℕ) (unaccounted : Bool)
    → All IsHourRecord (
        map
          (λ hour. record { hour = hour; start_min = 0; end_min = 60; unaccounted = unaccounted })
          hours)
    → Parses (custom_hours hours unaccounted)
unfolding IsDay
custom_hours-Parses [] u valid = none-Parses
custom_hours-Parses (h ∷ hours) u valid = some-Parses _ (valid, λ empty. cc)

parse_day_hours-Parses :
    (mode : HoursMode) (from_time to_time : Option (ℕ × ℕ)) (checked : ℕ → Bool)
    (unaccounted : Bool)
    → Parses (
        parse_day_hours (record {
          mode = mode;
          from_time = from_time;
          to_time = to_time;
          checked = checked;
          unaccounted = unaccounted;
        }))
unfolding parse_day_hours unrestricted
parse_day_hours-Parses all_day from_time to_time checked u =
    some-Parses _ (window-IsDay _ (omega arith, omega arith))
parse_day_hours-Parses between from_time to_time checked u =
    bind-Parses (parse_time_str from_time) _ λ a read_from.
      bind-Parses (parse_time_str to_time) _ λ b read_to. bind-Parses (time_interval _) _ λ iv made.
        unless_conflict-Parses (validate_intervals (iv ∷ [])) _
          (window-IsDay iv (time_interval-IsInterval _ iv made))
parse_day_hours-Parses custom from_time to_time checked u =
    custom_hours-Parses (keep checked (hours_of_day 0 24)) u
      (whole_hours-IsHourRecord checked u 0 24 (omega arith))

-- Whatever is submitted for a day: where it is accepted, the day has at least one hour, and each of its
-- hours is a valid record.
pub parse_day_hours-IsHourRecord :
    (form : DayForm) (records : List HourRecord)
    → parse_day_hours form ≡ some records
    → All IsHourRecord records × (records ≢ [])
unfolding Parses IsDay
parse_day_hours-IsHourRecord form records parsed =
    parse_day_hours-Parses form.mode form.from_time form.to_time form.checked form.unaccounted
      records parsed
