-- ===== src/Hub/Summaries/History.antt =====
-- hub/timekpr_hub/services/summaries.py, compute_usage_history: the days that the statistics page shows of a
-- user, from queries over the range of days of services/limits.py. The hours of a day and the devices are
-- left out.
pub mod Days
use timekpr_next_hub.Base.{
  ℕ, zero, suc, ◌+◌, ◌-◌, ◌==◌, ◌&&◌, Bool, Option, none, some, List, [], ◌∷◌, map, keep, any,
}
use timekpr_next_hub.Base.Int.{ℤ, pos}
use timekpr_next_hub.Hub.Tables.{User, Policy, Grant, DayOverride, GateRelease}
use timekpr_next_hub.Hub.Limits.{LimitTables, base_daily_limit, is_gated_weekday, combine_limit}
use timekpr_next_hub.Hub.Aggregate.{UsageCounter, ActivityInterval}
use timekpr_next_hub.Hub.Aggregate.Windows.{between, global_spent_wallclock_history}
use timekpr_next_hub.Hub.Summaries.{ById, get, is_in, add_to}

-- GROUP BY day, with SUM.
abbrev pub group_by_day : List Grant → ById
group_by_day [] = []
group_by_day (g ∷ rest) = add_to g.day g.seconds (group_by_day rest)

unfoldable pub grants_totals_history : List Grant → ℕ → ℕ → ℕ → ById
grants_totals_history grants user_id start_day end_day =
    group_by_day
      (keep (λ (g : Grant). g.user_id == user_id && between start_day end_day g.day) grants)

-- A dict comprehension over the rows.
abbrev pub dict_by_day : ById → List DayOverride → ById
dict_by_day built [] = built
dict_by_day built (o ∷ rest) = dict_by_day ((o.day, o.limit_seconds) ∷ built) rest

unfoldable pub day_overrides_history : List DayOverride → ℕ → ℕ → ℕ → ById
day_overrides_history overrides user_id start_day end_day =
    dict_by_day [] (
      keep (λ (o : DayOverride). o.user_id == user_id && between start_day end_day o.day) overrides)

unfoldable pub gate_releases_history : List GateRelease → ℕ → ℕ → ℕ → List ℕ
gate_releases_history releases user_id start_day end_day =
    map (λ (r : GateRelease). r.day)
      (keep (λ (r : GateRelease). r.user_id == user_id && between start_day end_day r.day) releases)

pub record DayUsage : Type 0 where
  pub day : ℕ
  pub spent_s : ℤ
  pub limit_s : ℤ
  pub grants_s : ℤ
  pub overridden : Bool
  pub gated : Bool
  pub gate_released : Bool

-- `base_daily_limit(policy, day) if policy else 0`
abbrev pub base_or_zero : Option Policy → ℕ → ℤ
base_or_zero none day = pos 0
base_or_zero (some policy) day = base_daily_limit policy day

module _ (range_agg_s : List (ℤ × ℤ) → Option ℤ) (intervals : List ActivityInterval)
    (counters : List UsageCounter) (tables : LimitTables) (policy : Option Policy) (user : User)
    (start_day end_day : ℕ) where
  -- One turn of the loop.
  unfoldable pub usage_of : ℕ → DayUsage
  unfolding grants_totals_history day_overrides_history gate_releases_history combine_limit
      is_gated_weekday global_spent_wallclock_history
  usage_of day =
      let spent_by_day =
        global_spent_wallclock_history range_agg_s intervals counters user.id start_day end_day in
      let grants_by_day = grants_totals_history tables.grants user.id start_day end_day in
      let overrides_by_day = day_overrides_history tables.day_overrides user.id start_day end_day in
      let released_days = gate_releases_history tables.gate_releases user.id start_day end_day in
      record {
        day = day;
        spent_s = get day (pos 0) spent_by_day;
        limit_s =
            combine_limit (get day (base_or_zero policy day) overrides_by_day)
              (get day (pos 0) grants_by_day) (is_gated_weekday user day) (is_in released_days day);
        grants_s = get day (pos 0) grants_by_day;
        overridden = any (λ e. e.0 == day) overrides_by_day;
        gated = is_gated_weekday user day;
        gate_released = is_in released_days day;
      }

  -- So many days from the given one on.
  abbrev pub usage_from : ℕ → ℕ → List DayUsage
  usage_from zero day = []
  usage_from (suc days) day = usage_of day ∷ usage_from days (suc day)

-- The days of `compute_usage_history`, which end with today; there are not more of them than the
-- calendar has.
unfoldable pub compute_usage_history :
    (List (ℤ × ℤ) → Option ℤ)
    → List ActivityInterval
    → List UsageCounter
    → LimitTables
    → Option Policy
    → User
    → ℕ
    → ℕ
    → List DayUsage
unfolding usage_of
compute_usage_history range_agg_s intervals counters tables policy user num_days today =
    let start_day = today + 1 - num_days in
    usage_from range_agg_s intervals counters tables policy user start_day today num_days start_day
