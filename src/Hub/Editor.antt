-- ===== src/Hub/Editor.antt =====
-- hub/timekpr_hub/api/ui/policy.py: the policy editor, from a stored policy to the form that shows it and
-- from the form that is submitted to the update. A field that is a number or a time comes parsed (none
-- where it does not parse); the list of activities comes as its lines' parts. None is the answer 422.
pub mod Form
pub mod Hours
pub mod Lossy
pub mod Parsed
pub mod Save
pub mod Times
mod Tests
use timekpr_next_hub.Base.{
  ℕ, zero, suc, ◌+◌, ◌*◌, ◌/◌, ◌%◌, ◌==◌, ◌&&◌, ◌||◌, not, leb, min, String, str_eq, Bool, true,
  false, Option, none, some, List, [], ◌∷◌, ◌++◌, map, keep, any, length, if◌then◌else◌, ◌>>=◌,
}
use timekpr_next_hub.Base.Int.{ℤ, pos, pos_part, leb_ℤ}
use timekpr_next_hub.Core.AllowedHours.{
  TimeInterval, HourRecord, time_interval, unrestricted, intervals_to_hours, hours_to_intervals,
  validate_intervals,
}
use timekpr_next_hub.Core.Models.{
  Weekday, LockoutType, PlayTimeActivity, PlayTimePayload, weekday_tokens,
}
use timekpr_next_hub.Hub.Policy.{PolicyUpdate, seven}

pub data HoursMode : Type 0 where
  all_day between custom : HoursMode

-- What the editor shows of a day: the dict of `_classify_day_hours`.
pub record DayView : Type 0 where
  pub mode : HoursMode
  pub from_min : ℕ
  pub to_min : ℕ
  pub hours : List ℕ
  pub unaccounted : Bool

abbrev pub hours_of_day : ℕ → ℕ → List ℕ
hours_of_day first zero = []
hours_of_day first (suc n) = first ∷ hours_of_day (first + 1) n

-- `_BETWEEN_SEED`
abbrev pub all_day_view : DayView
all_day_view = record {
  mode = all_day;
  from_min = 9 * 60;
  to_min = 17 * 60;
  hours = hours_of_day 0 24;
  unaccounted = false;
}

abbrev pub all_unaccounted : List HourRecord → Bool
all_unaccounted [] = true
all_unaccounted (r ∷ rest) = r.unaccounted && all_unaccounted rest

-- `bool(intervals) and all(...)`
abbrev pub day_unaccounted : List HourRecord → Bool
day_unaccounted [] = false
day_unaccounted (r ∷ rest) = all_unaccounted (r ∷ rest)

abbrev pub is_full_day : TimeInterval → Bool
is_full_day iv = (iv.start_min == 0) && (iv.end_min == 24 * 60)

-- The view of the merged intervals of a day's records.
unfoldable pub view_of : List HourRecord → List TimeInterval → DayView
view_of records [] = record all_day_view {
  mode = custom;
  hours = map (λ (r : HourRecord). r.hour) records;
  unaccounted = day_unaccounted records;
}
view_of records (iv ∷ []) =
    if is_full_day iv
    then all_day_view
    else if not iv.unaccounted
    then record {
      mode = between;
      from_min = iv.start_min;
      to_min = iv.end_min;
      hours = map (λ (r : HourRecord). r.hour) records;
      unaccounted = false;
    }
    else record {
      mode = custom;
      from_min = 0;
      to_min = 0;
      hours = map (λ (r : HourRecord). r.hour) records;
      unaccounted = day_unaccounted records;
    }
view_of records (iv ∷ more ∷ rest) = record {
  mode = custom;
  from_min = 0;
  to_min = 0;
  hours = map (λ (r : HourRecord). r.hour) records;
  unaccounted = day_unaccounted records;
}

-- None where the stored records make no intervals (ValueError).
unfoldable pub classify_day_hours : Option (List HourRecord) → Option DayView
classify_day_hours none = some all_day_view
classify_day_hours (some records) = do
  merged ← hours_to_intervals records
  some (view_of records merged)

-- One day of the submitted form. A time is its two numbers, which a time field sends without a sign;
-- none is a text that is not two numbers with a colon.
pub record DayForm : Type 0 where
  pub mode : HoursMode
  pub from_time : Option (ℕ × ℕ)
  pub to_time : Option (ℕ × ℕ)
  pub checked : ℕ → Bool
  pub unaccounted : Bool

-- `_parse_time_str`
unfoldable pub parse_time_str : Option (ℕ × ℕ) → Option ℕ
parse_time_str none = none
parse_time_str (some (hh, mm)) =
    let total = hh * 60 + mm in if leb total (24 * 60) then some total else none

-- A refusal where there is a conflict.
abbrev pub unless_conflict {ℓ κ} : {A : Type ℓ} {C : Type κ} → Option C → A → Option A
unless_conflict none a = some a
unless_conflict (some conflict) a = none

abbrev pub custom_hours : List ℕ → Bool → Option (List HourRecord)
custom_hours [] unaccounted = none
custom_hours (h ∷ hours) unaccounted = some (
    map (λ hour. record { hour = hour; start_min = 0; end_min = 60; unaccounted = unaccounted })
      (h ∷ hours))

-- `_parse_day_hours`
unfoldable pub parse_day_hours : DayForm → Option (List HourRecord)
parse_day_hours form = elim form.mode [
  | HoursMode.all_day ↦ some (intervals_to_hours unrestricted)
  | HoursMode.between ↦ do
    from_min ← parse_time_str form.from_time
    to_min ← parse_time_str form.to_time
    interval ←
        time_interval (record { start_min = from_min; end_min = to_min; unaccounted = false })
    unless_conflict (validate_intervals (interval ∷ [])) (intervals_to_hours (interval ∷ []))
  | HoursMode.custom ↦ custom_hours (keep form.checked (hours_of_day 0 24)) form.unaccounted
]

-- `_fmt_hm`, as its two numbers.
abbrev pub fmt_hm : ℕ → ℕ × ℕ
fmt_hm total_min = (total_min / 60, total_min % 60)

-- The day as the page shows it, submitted without a change, where a browser keeps as much of a time as
-- its field accepts.
unfoldable pub submitted : (ℕ × ℕ → Option (ℕ × ℕ)) → DayView → DayForm
submitted time_input view = record {
  mode = view.mode;
  from_time = time_input (fmt_hm view.from_min);
  to_time = time_input (fmt_hm view.to_min);
  checked = λ hour. any (λ h. h == hour) view.hours;
  unaccounted = view.unaccounted;
}

-- `_split_hm` and `_hm_seconds`
unfoldable pub split_hm : ℕ → ℕ × ℕ
split_hm total_s = let total_m = total_s / 60 in (total_m / 60, total_m % 60)

unfoldable pub hm_seconds : ℤ × ℤ → ℤ
hm_seconds (h, m) = pos (pos_part h * 3600 + min (pos_part m) 59 * 60)
