-- ===== src/Core/Convergence/Tests.antt =====
-- The convergence theorems at concrete values, and runs of the controller.
use timekpr_next_hub.Base.{◌≡◌, refl, true, false, List, [], ◌∷◌, arith}
use timekpr_next_hub.Base.Int.{pos, ◌+ℤ◌, ◌-ℤ◌, ◌≤ℤ◌}
use timekpr_next_hub.Core.Convergence.{
  Op, Reason, HubTarget, default_config, plan, advance_cumulative,
}
use timekpr_next_hub.Core.Convergence.Daemon.{FakeTimekprDaemon, observe}
use timekpr_next_hub.Core.Convergence.Target.{Lands, carry_out, plan-Lands, time_left}
use timekpr_next_hub.Core.Convergence.Stability.{carry_out-settles, overspent_writes_again}
use timekpr_next_hub.Core.Convergence.Cumulative.{
  Event, used, idle, write, observed, course, begin, happen, course-counts,
}

-- A device whose own limit is two hours, with ten minutes used.
abbrev device : FakeTimekprDaemon
device = record {
  limit_today_s = pos 7200;
  save_interval_s = 30;
  balance_s = pos 600;
  spent_day_s = pos 600;
  spent_week_s = pos 600;
  spent_month_s = pos 600;
  saved_spent_day_s = pos 590;
  saved_spent_week_s = pos 590;
  saved_spent_month_s = pos 590;
  elapsed_since_save_s = 12;
}

abbrev target : HubTarget
target = record { limit_today_s = pos 3600; global_spent_s = pos 700 }

abbrev overspent : HubTarget
overspent = record { limit_today_s = pos 3600; global_spent_s = pos 4000 }

plan-runs : plan (observe device) target (pos 0) false default_config ≡ record {
  op = Op.set;
  seconds = pos 2900;
  new_applied_offset_s = pos 3700;
  reason = Reason.large_divergence;
}
unfolding plan observe ◌+ℤ◌ ◌-ℤ◌
plan-runs = refl

flush_artifact_ignored :
    advance_cumulative
      (record { cum_local_s = pos 100; raw_prev_s = pos 600 })
      (pos 575)
      default_config
    ≡ record { cum_local_s = pos 100; raw_prev_s = pos 575 }
unfolding advance_cumulative ◌+ℤ◌ ◌-ℤ◌
flush_artifact_ignored = refl

plan-Lands_example :
    Lands device target default_config (plan (observe device) target (pos 0) false default_config)
unfolding observe plan ◌+ℤ◌ ◌-ℤ◌
plan-Lands_example = plan-Lands device target (pos 0) false default_config (omega arith)

carry_out-settles_example :
    let d' = carry_out device (plan (observe device) target (pos 0) true default_config) in
    (plan (observe d') target (pos 9) false default_config).op ≡ Op.noop
unfolding observe plan ◌+ℤ◌ ◌-ℤ◌
carry_out-settles_example =
    carry_out-settles device target (pos 0) (pos 9) true default_config (omega arith) (omega arith)
      (omega arith)

overspent_writes_again_example :
    let d' = carry_out device (plan (observe device) overspent (pos 0) true default_config) in
    (time_left d' ≡ pos 3600 -ℤ pos 4000)
    × ((plan (observe d') overspent (pos 9) false default_config).op ≡ Op.set)
unfolding observe plan ◌+ℤ◌ ◌-ℤ◌
overspent_writes_again_example =
    overspent_writes_again device overspent (pos 0) (pos 9) true false default_config (omega arith)
      (omega arith) (λ e. cc)

abbrev events : List Event
events = used 25 ∷ observed ∷ write Op.set (pos 3000) ∷ idle 40 ∷ used 7 ∷ []

course-counts_example :
    let c = course default_config (begin device (pos 0)) events in
    let cum = (happen default_config c observed).counter.cum_local_s in
    (cum ≤ℤ pos 0 +ℤ pos c.activity) × (pos 0 +ℤ pos c.activity ≤ℤ cum +ℤ pos c.discarded)
unfolding ◌+ℤ◌
course-counts_example =
    course-counts default_config device (pos 0) events (omega arith) (omega arith)
