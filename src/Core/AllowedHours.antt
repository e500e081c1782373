-- ===== src/Core/AllowedHours.antt =====
-- core/timekpr_hub_core/allowed_hours.py: time-of-day windows and timekpr's records per clock hour.
-- Minutes and hours are natural numbers; the flag `unaccounted` is timekpr's "!".
pub mod Minutes
pub mod Expand
pub mod Validate
pub mod Reassemble
mod Tests
use timekpr_next_hub.Base.{
  ℕ, zero, suc, ◌+◌, ◌-◌, ◌*◌, ◌/◌, ◌≤◌, ◌<◌, min, Bool, true, false, ◌&&◌, Option, none, some,
  List, [], ◌∷◌, ◌++◌, ltb, leb, ◌==◌, if◌then◌else◌,
}
use timekpr_next_hub.Base.Sort.{sorted_by}

abbrev pub hours_in_day : ℕ
hours_in_day = 24

pub record TimeInterval : Type 0 where
  pub start_min : ℕ
  pub end_min : ℕ
  pub unaccounted : Bool

-- What `TimeInterval.__post_init__` admits; it raises ValueError otherwise.
abbrev pub IsInterval : TimeInterval → Type 0
IsInterval iv = (iv.start_min < iv.end_min) × (iv.end_min ≤ 24 * 60)

-- `TimeInterval(...)`
unfoldable pub time_interval : TimeInterval → Option TimeInterval
time_interval iv = if ltb iv.start_min iv.end_min && leb iv.end_min (24 * 60) then some iv else none

pub record HourRecord : Type 0 where
  pub hour : ℕ
  pub start_min : ℕ
  pub end_min : ℕ
  pub unaccounted : Bool

unfoldable pub unrestricted : List TimeInterval
unrestricted = record { start_min = 0; end_min = hours_in_day * 60; unaccounted = false } ∷ []

-- `IntervalConflictError`: what its message names, in place of the formatted text.
pub data Conflict : Type 0 where
  overlap : TimeInterval → TimeInterval → Conflict
  same_hour : TimeInterval → TimeInterval → ℕ → Conflict

-- The hour of an interval's last minute, `(end_min - 1) // 60`.
abbrev pub last_hour : TimeInterval → ℕ
last_hour iv = (iv.end_min - 1) / 60

abbrev pub first_hour : TimeInterval → ℕ
first_hour iv = iv.start_min / 60

-- The loop over `zip(ordered, ordered[1:])`: `none` when no pair is in conflict.
unfoldable pub first_conflict : List TimeInterval → Option Conflict
first_conflict [] = none
first_conflict (a ∷ []) = none
first_conflict (a ∷ b ∷ rest) =
    let later = first_conflict (b ∷ rest) in
    if ltb b.start_min a.end_min
    then some (overlap a b)
    else if last_hour a == first_hour b
    then some (same_hour a b (last_hour a))
    else later

unfoldable pub validate_intervals : List TimeInterval → Option Conflict
unfolding first_conflict sorted_by
validate_intervals intervals = first_conflict (sorted_by (λ iv. iv.start_min) intervals)

-- One turn of the inner loop of `intervals_to_hours`. `max(x - hour_start, 0)` is the subtraction of
-- the natural numbers; in the loop `end_min - hour_start` is not negative.
abbrev pub hour_record : TimeInterval → ℕ → HourRecord
hour_record iv hour = record {
  hour = hour;
  start_min = iv.start_min - hour * 60;
  end_min = min (iv.end_min - hour * 60) 60;
  unaccounted = iv.unaccounted;
}

-- `for hour in range(hour, hour + k)`
unfoldable pub hours_from : TimeInterval → ℕ → ℕ → List HourRecord
hours_from iv hour zero = []
hours_from iv hour (suc k) = hour_record iv hour ∷ hours_from iv (suc hour) k

unfoldable pub interval_hours : TimeInterval → List HourRecord
unfolding hours_from
interval_hours iv = hours_from iv (first_hour iv) (last_hour iv + 1 - first_hour iv)

unfoldable pub intervals_to_hours : List TimeInterval → List HourRecord
unfolding interval_hours
intervals_to_hours [] = []
intervals_to_hours (iv ∷ rest) = interval_hours iv ++ intervals_to_hours rest

abbrev pub eqb : Bool → Bool → Bool
eqb true b = b
eqb false true = false
eqb false false = true

-- `cur_start`, `cur_end` and `cur_uacc`: the first two are None together.
abbrev pub close : Option TimeInterval → List TimeInterval
close none = []
close (some run) = run ∷ []

-- A record's part of the day, from `abs_start` to `abs_end`.
abbrev pub run_of : HourRecord → TimeInterval
run_of rec = record {
  start_min = rec.hour * 60 + rec.start_min;
  end_min = rec.hour * 60 + rec.end_min;
  unaccounted = rec.unaccounted;
}

-- `abs_start >= abs_end`
abbrev pub is_empty : HourRecord → Bool
is_empty rec = leb (run_of rec).end_min (run_of rec).start_min

-- `abs_start == cur_end and rec.unaccounted == cur_uacc`
abbrev pub continues : TimeInterval → HourRecord → Bool
continues cur rec = (run_of rec).start_min == cur.end_min && eqb rec.unaccounted cur.unaccounted

-- The loop over the ordered records: the runs that it appends, the last one included.
unfoldable pub reassemble : Option TimeInterval → List HourRecord → List TimeInterval
reassemble cur [] = close cur
reassemble none (rec ∷ rest) = reassemble (if is_empty rec then none else some (run_of rec)) rest
reassemble (some cur) (rec ∷ rest) =
    let skipped = reassemble (some cur) rest in
    let merged = reassemble (some (record cur { end_min = (run_of rec).end_min })) rest in
    let parted = cur ∷ reassemble (some (run_of rec)) rest in
    if is_empty rec then skipped else if continues cur rec then merged else parted

-- `TimeInterval(...)` raises on the first run that is no interval.
unfoldable pub construct_all : List TimeInterval → Option (List TimeInterval)
unfolding time_interval
construct_all [] = some []
construct_all (iv ∷ rest) = elim (time_interval iv) [
  | none ↦ none
  | some made ↦ elim (construct_all rest) [ none ↦ none | some others ↦ some (made ∷ others) ]
]

unfoldable pub hours_to_intervals : List HourRecord → Option (List TimeInterval)
unfolding construct_all reassemble sorted_by
hours_to_intervals records = construct_all (reassemble none (sorted_by (λ r. r.hour) records))
