-- ===== src/Hub/Aggregate/Windows.antt =====
-- hub/timekpr_hub/services/aggregate.py: the time spent over a range of days, and that of many users at
-- once. GROUP BY makes one group of each key that the selected rows have, and a FULL OUTER JOIN one
-- row of each key that either side has.
pub mod Groups
pub mod Sums
pub mod Batches
mod Tests
use timekpr_next_hub.Base.{
  ℕ, ◌==◌, ◌&&◌, leb, Bool, Option, List, [], ◌∷◌, ◌++◌, map, keep, any, if◌then◌else◌,
}
use timekpr_next_hub.Base.Int.{ℤ, pos, ◌+ℤ◌, max_ℤ}
use timekpr_next_hub.Hub.Summaries.{ById, is_in, add_to}
use timekpr_next_hub.Hub.Aggregate.{
  UsageCounter, ActivityInterval, coalesce, max_spent, sum_spent, spans_of,
}

-- The keys of the groups.
abbrev pub distinct : List ℕ → List ℕ
distinct [] = []
distinct (k ∷ rest) = let later = distinct rest in if is_in later k then later else k ∷ later

-- `day BETWEEN :start_day AND :end_day`
abbrev pub between : ℕ → ℕ → ℕ → Bool
between start_day end_day day = leb start_day day && leb day end_day

-- A dict from the days that have a row.
unfoldable pub global_spent_wallclock_history :
    (List (ℤ × ℤ) → Option ℤ) → List ActivityInterval → List UsageCounter → ℕ → ℕ → ℕ → List (ℕ × ℤ)
unfolding max_ℤ
global_spent_wallclock_history range_agg_s intervals counters user_id start_day end_day =
    let ranged =
      keep (λ (i : ActivityInterval). i.user_id == user_id && between start_day end_day i.day)
        intervals in
    let counted =
      keep (λ (c : UsageCounter). c.user_id == user_id && between start_day end_day c.day)
        counters in
    map
      (λ day. (
        day,
        max_ℤ
            (coalesce
              (range_agg_s (spans_of (keep (λ (i : ActivityInterval). i.day == day) ranged))))
            (coalesce (max_spent (keep (λ (c : UsageCounter). c.day == day) counted))),
      ))
      (distinct
        (map (λ (i : ActivityInterval). i.day) ranged ++ map (λ (c : UsageCounter). c.day) counted))

-- `sum(per_day.values())`
abbrev pub sum_values : List (ℕ × ℤ) → ℤ
sum_values [] = pos 0
sum_values ((k, v) ∷ rest) = v +ℤ sum_values rest

unfoldable pub global_spent_wallclock_window :
    (List (ℤ × ℤ) → Option ℤ) → List ActivityInterval → List UsageCounter → ℕ → ℕ → ℕ → ℤ
unfolding global_spent_wallclock_history
global_spent_wallclock_window range_agg_s intervals counters user_id start_day end_day =
    sum_values
      (global_spent_wallclock_history range_agg_s intervals counters user_id start_day end_day)

unfoldable pub global_spent_parallel_window : List UsageCounter → ℕ → ℕ → ℕ → ℤ
global_spent_parallel_window counters user_id start_day end_day = coalesce (
    sum_spent (
      keep (λ (c : UsageCounter). c.user_id == user_id && between start_day end_day c.day)
        counters))

-- Dicts from the users that have a row.
unfoldable pub global_spent_wallclock_batch :
    (List (ℤ × ℤ) → Option ℤ) → List ActivityInterval → List UsageCounter → List ℕ → ℕ → ById
unfolding max_ℤ
global_spent_wallclock_batch range_agg_s intervals counters user_ids day =
    let ranged =
      keep (λ (i : ActivityInterval). is_in user_ids i.user_id && i.day == day) intervals in
    let counted = keep (λ (c : UsageCounter). is_in user_ids c.user_id && c.day == day) counters in
    map
      (λ id. (
        id,
        max_ℤ
            (coalesce
              (range_agg_s (spans_of (keep (λ (i : ActivityInterval). i.user_id == id) ranged))))
            (coalesce (max_spent (keep (λ (c : UsageCounter). c.user_id == id) counted))),
      ))
      (distinct (
        map (λ (i : ActivityInterval). i.user_id) ranged
        ++ map (λ (c : UsageCounter). c.user_id) counted))

abbrev pub group_spent : List UsageCounter → ById
group_spent [] = []
group_spent (c ∷ rest) = add_to c.user_id c.spent_seconds (group_spent rest)

unfoldable pub global_spent_parallel_batch : List UsageCounter → List ℕ → ℕ → ById
global_spent_parallel_batch counters user_ids day =
    group_spent (keep (λ (c : UsageCounter). is_in user_ids c.user_id && c.day == day) counters)
