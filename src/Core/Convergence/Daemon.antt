-- ===== src/Core/Convergence/Daemon.antt =====
-- tests/fakes/fake_timekpr.py: the repository's own model of timekpr's accounting, which stands for
-- the daemon that the controller writes to.
use timekpr_next_hub.Base.{ℕ, ◌+◌, Bool, leb, if◌then◌else◌}
use timekpr_next_hub.Base.Int.{ℤ, pos, ◌+ℤ◌, ◌-ℤ◌, neg_ℤ, max_ℤ, min_ℤ}
use timekpr_next_hub.Core.Convergence.{Op, Observation}

abbrev pub tk_limit_per_day : ℤ
tk_limit_per_day = pos 86400

pub record FakeTimekprDaemon : Type 0 where
  pub limit_today_s : ℤ
  pub save_interval_s : ℕ
  pub balance_s : ℤ
  pub spent_day_s : ℤ
  pub spent_week_s : ℤ
  pub spent_month_s : ℤ
  pub saved_spent_day_s : ℤ
  pub saved_spent_week_s : ℤ
  pub saved_spent_month_s : ℤ
  pub elapsed_since_save_s : ℕ

unfoldable pub flush : FakeTimekprDaemon → FakeTimekprDaemon
flush d = record d {
  saved_spent_day_s = d.spent_day_s;
  saved_spent_week_s = d.spent_week_s;
  saved_spent_month_s = d.spent_month_s;
  elapsed_since_save_s = 0;
}

-- `tick`, at a number of seconds that is not negative (the source raises ValueError below 0).
unfoldable pub tick : FakeTimekprDaemon → ℕ → Bool → FakeTimekprDaemon
unfolding flush
tick d seconds active =
    let moved =
      if active
      then record d {
        balance_s = d.balance_s +ℤ pos seconds;
        spent_day_s = d.spent_day_s +ℤ pos seconds;
        spent_week_s = d.spent_week_s +ℤ pos seconds;
        spent_month_s = d.spent_month_s +ℤ pos seconds;
      }
      else d in
    let elapsed = record moved { elapsed_since_save_s = moved.elapsed_since_save_s + seconds } in
    if leb elapsed.save_interval_s elapsed.elapsed_since_save_s then flush elapsed else elapsed

-- The branches of `set_time_left`, before the clamp. The source raises ValueError at another
-- operation; the agent never issues `noop`.
unfoldable pub move_balance : FakeTimekprDaemon → Op → ℤ → FakeTimekprDaemon
move_balance d Op.set seconds = record d {
  balance_s = d.limit_today_s -ℤ seconds;
  spent_day_s = d.saved_spent_day_s;
  spent_week_s = d.saved_spent_week_s;
  spent_month_s = d.saved_spent_month_s;
}
move_balance d Op.subtract seconds = record d {
  balance_s = min_ℤ d.balance_s d.limit_today_s +ℤ seconds;
}
move_balance d Op.add seconds = record d {
  balance_s = min_ℤ d.balance_s d.limit_today_s -ℤ seconds;
}
move_balance d Op.noop seconds = d

unfoldable pub clamp_balance : ℤ → ℤ
clamp_balance b = max_ℤ (min_ℤ b tk_limit_per_day) (neg_ℤ tk_limit_per_day)

unfoldable pub set_time_left : FakeTimekprDaemon → Op → ℤ → FakeTimekprDaemon
unfolding move_balance clamp_balance flush
set_time_left d op seconds =
    let moved = move_balance d op seconds in
    flush (record moved { balance_s = clamp_balance moved.balance_s })

-- `rollover_day`: a new limit is given, or the old one is kept.
unfoldable pub rollover_day : FakeTimekprDaemon → ℤ → FakeTimekprDaemon
unfolding flush
rollover_day d new_limit_today_s =
    flush (record d { balance_s = pos 0; spent_day_s = pos 0; limit_today_s = new_limit_today_s })

-- What the agent reads of the daemon.
unfoldable pub observe : FakeTimekprDaemon → Observation
observe d = record {
  balance_s = d.balance_s;
  spent_local_s = d.spent_day_s;
  limit_today_s = d.limit_today_s;
}
