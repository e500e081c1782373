-- ===== src/Core/Convergence.antt =====
-- core/timekpr_hub_core/convergence.py: the convergence controller and the cumulative counter.
-- All quantities are Python's signed integers.
pub mod Daemon
pub mod Target
pub mod Stability
pub mod Cumulative
mod Tests
use timekpr_next_hub.Base.{ℕ, ◌+◌, Bool, ◌||◌, leb, ltb, if◌then◌else◌}
use timekpr_next_hub.Base.Int.{ℤ, pos, ◌+ℤ◌, ◌-ℤ◌, neg_ℤ, ltb_ℤ, leb_ℤ, abs}

-- `Op`: the `setTimeLeft` operations '=', '-' and '+', and no operation.
pub data Op : Type 0 where
  set subtract add noop : Op

pub record ConvergenceConfig : Type 0 where
  pub deadband_s : ℕ
  pub hard_reset_threshold_s : ℕ
  pub regression_tolerance_s : ℕ

-- `ConvergenceConfig()`, with the defaults of its fields.
abbrev pub default_config : ConvergenceConfig
default_config = record {
  deadband_s = 5;
  hard_reset_threshold_s = 300;
  regression_tolerance_s = 90;
}

pub record Observation : Type 0 where
  pub balance_s : ℤ
  pub spent_local_s : ℤ
  pub limit_today_s : ℤ

pub record HubTarget : Type 0 where
  pub limit_today_s : ℤ
  pub global_spent_s : ℤ

pub data Reason : Type 0 where
  force_absolute_rollover balance_exceeds_limit large_divergence : Reason
  converge_consume converge_refund within_deadband : Reason

pub record Plan : Type 0 where
  pub op : Op
  pub seconds : ℤ
  pub new_applied_offset_s : ℤ
  pub reason : Reason

unfoldable pub target_balance : Observation → HubTarget → ℤ
target_balance observed target =
    target.global_spent_s +ℤ observed.limit_today_s -ℤ target.limit_today_s

-- The conditions of an authoritative '=' write.
unfoldable pub needs_absolute : Observation → HubTarget → Bool → ConvergenceConfig → Bool
unfolding target_balance
needs_absolute observed target force_absolute cfg =
    force_absolute
    || ltb_ℤ observed.limit_today_s observed.balance_s
    || ltb cfg.hard_reset_threshold_s (abs (target_balance observed target -ℤ observed.balance_s))

unfoldable pub plan : Observation → HubTarget → ℤ → Bool → ConvergenceConfig → Plan
unfolding target_balance needs_absolute
plan observed target applied_offset_s force_absolute cfg =
    let observed_offset = observed.balance_s -ℤ observed.spent_local_s in
    let correction = target_balance observed target -ℤ observed.balance_s in
    if needs_absolute observed target force_absolute cfg
    then record {
      op = set;
      seconds = target.limit_today_s -ℤ target.global_spent_s;
      new_applied_offset_s = target_balance observed target -ℤ observed.spent_local_s;
      reason =
          if force_absolute
          then force_absolute_rollover
          else if ltb_ℤ observed.limit_today_s observed.balance_s
          then balance_exceeds_limit
          else large_divergence;
    }
    else if ltb_ℤ (pos cfg.deadband_s) correction
    then record {
      op = subtract;
      seconds = correction;
      new_applied_offset_s = observed_offset +ℤ correction;
      reason = converge_consume;
    }
    else if ltb_ℤ correction (neg_ℤ (pos cfg.deadband_s))
    then record {
      op = add;
      seconds = neg_ℤ correction;
      new_applied_offset_s = observed_offset +ℤ correction;
      reason = converge_refund;
    }
    else record {
      op = noop;
      seconds = pos 0;
      new_applied_offset_s = observed_offset;
      reason = within_deadband;
    }

pub record CumulativeState : Type 0 where
  pub cum_local_s : ℤ
  pub raw_prev_s : ℤ

unfoldable pub advance_cumulative : CumulativeState → ℤ → ConvergenceConfig → CumulativeState
advance_cumulative state curr cfg =
    let prev = state.raw_prev_s in
    let new_cum =
      if leb_ℤ prev curr
      then state.cum_local_s +ℤ (curr -ℤ prev)
      else if leb_ℤ (prev -ℤ curr) (pos cfg.regression_tolerance_s)
      then state.cum_local_s
      else state.cum_local_s +ℤ curr in
    record { cum_local_s = new_cum; raw_prev_s = curr }

unfoldable pub reset_for_new_canonical_day : ℤ → CumulativeState
reset_for_new_canonical_day observed_spent_local_s = record {
  cum_local_s = pos 0;
  raw_prev_s = observed_spent_local_s;
}
