-- ===== src/Hub/Aggregate.antt =====
-- hub/timekpr_hub/services/aggregate.py: the usage counters, the activity intervals, and the time that
-- a user has spent. What PostgreSQL makes of `range_agg` is a parameter: the seconds that a list of
-- spans covers, none for no span.
pub mod Counters
pub mod Replay
pub mod Day
pub mod Stamps
pub mod Windows
use timekpr_next_hub.Base.{
  ℕ, ◌==◌, ◌&&◌, ◌≡◌, Bool, true, false, Option, none, some, List, [], ◌∷◌, map, keep, find,
  if◌then◌else◌, leb,
}
use timekpr_next_hub.Base.Int.{ℤ, pos, ◌+ℤ◌, max_ℤ, leb_ℤ, eqb_ℤ}
use timekpr_next_hub.Core.Models.{ActivityState}
use timekpr_next_hub.Hub.Rows.{insert_or_update}

-- `usage_counters`
pub record UsageCounter : Type 0 where
  pub user_id : ℕ
  pub device_id : ℕ
  pub day : ℕ
  pub spent_seconds : ℤ
  pub activity_state : Option ActivityState
  pub updated_at : ℤ

abbrev pub counter_of : ℕ → ℕ → ℕ → UsageCounter → Bool
counter_of user_id device_id day c =
    c.user_id == user_id && (c.device_id == device_id && c.day == day)

-- `now` is PostgreSQL's `now()`: the default of the column, and what a conflict writes.
unfoldable pub upsert_usage_counter :
    List UsageCounter → ℕ → ℕ → ℕ → ℤ → Option ActivityState → ℤ → List UsageCounter
unfolding insert_or_update max_ℤ
upsert_usage_counter counters user_id device_id day spent_seconds activity_state now =
    insert_or_update (counter_of user_id device_id day)
      (λ old. record old {
        spent_seconds = max_ℤ old.spent_seconds spent_seconds;
        activity_state = activity_state;
        updated_at = now;
      })
      (record {
        user_id = user_id;
        device_id = device_id;
        day = day;
        spent_seconds = spent_seconds;
        activity_state = activity_state;
        updated_at = now;
      })
      counters

-- `activity_intervals`; `start` and `end` are the bounds of `span`.
pub record ActivityInterval : Type 0 where
  pub user_id : ℕ
  pub device_id : ℕ
  pub day : ℕ
  pub start : ℤ
  pub end : ℤ
  pub window_end_ts : ℤ

abbrev pub window_of : ℕ → ℤ → ActivityInterval → Bool
window_of device_id window_end_ts i =
    i.device_id == device_id && eqb_ℤ i.window_end_ts window_end_ts

-- ON CONFLICT DO NOTHING: the row that is there stays as it is.
unfoldable pub insert_activity_interval :
    List ActivityInterval → ℕ → ℕ → ℕ → ℤ → ℤ → ℤ → List ActivityInterval
unfolding insert_or_update
insert_activity_interval intervals user_id device_id day start end window_end_ts =
    insert_or_update (window_of device_id window_end_ts) (λ old. old)
      (record {
        user_id = user_id;
        device_id = device_id;
        day = day;
        start = start;
        end = end;
        window_end_ts = window_end_ts;
      })
      intervals

abbrev pub coalesce : Option ℤ → ℤ
coalesce none = pos 0
coalesce (some s) = s

-- `MAX(spent_seconds)` and `SUM(spent_seconds)`: none for no row.
abbrev pub max_spent : List UsageCounter → Option ℤ
max_spent [] = none
max_spent (c ∷ rest) = elim (max_spent rest) [
  | none ↦ some c.spent_seconds
  | some m ↦ some (max_ℤ c.spent_seconds m)
]

abbrev pub sum_spent : List UsageCounter → Option ℤ
sum_spent [] = none
sum_spent (c ∷ rest) = some (c.spent_seconds +ℤ coalesce (sum_spent rest))

abbrev pub spent_on : ℕ → ℕ → UsageCounter → Bool
spent_on user_id day c = c.user_id == user_id && c.day == day

abbrev pub active_on : ℕ → ℕ → ActivityInterval → Bool
active_on user_id day i = i.user_id == user_id && i.day == day

abbrev pub spans_of : List ActivityInterval → List (ℤ × ℤ)
spans_of rows = map (λ (i : ActivityInterval). (i.start, i.end)) rows

unfoldable pub global_spent_wallclock :
    (List (ℤ × ℤ) → Option ℤ) → List ActivityInterval → List UsageCounter → ℕ → ℕ → ℤ
unfolding max_ℤ
global_spent_wallclock range_agg_s intervals counters user_id day =
    max_ℤ (coalesce (range_agg_s (spans_of (keep (active_on user_id day) intervals))))
      (coalesce (max_spent (keep (spent_on user_id day) counters)))

unfoldable pub global_spent_parallel : List UsageCounter → ℕ → ℕ → ℤ
global_spent_parallel counters user_id day =
    coalesce (sum_spent (keep (spent_on user_id day) counters))

-- The loop of `sync` (hub/timekpr_hub/api/sync.py) over a user's spans: a span that does not end after
-- it starts is skipped, and every other one is recorded on the hub's present day.
unfoldable pub record_spans :
    List ActivityInterval → ℕ → ℕ → ℕ → List (ℤ × ℤ) → List ActivityInterval
unfolding insert_activity_interval
record_spans intervals user_id device_id day [] = intervals
record_spans intervals user_id device_id day ((start, end) ∷ rest) =
    let skipped = record_spans intervals user_id device_id day rest in
    let recorded =
      record_spans (insert_activity_interval intervals user_id device_id day start end end) user_id
        device_id day rest in
    if leb_ℤ end start then skipped else recorded
