-- ===== src/Hub/Sync/Tests.antt =====
-- The sync's theorems at a household of one user and two devices.
use timekpr_next_hub.Base.{ℕ, ◌≡◌, refl, true, Option, none, some, List, [], ◌∷◌, arith}
use timekpr_next_hub.Base.Int.{ℤ, pos, ◌≤ℤ◌, ◌+ℤ◌, ◌-ℤ◌, max_ℤ}
use timekpr_next_hub.Core.Models.{
  AccountingMode, ActivityState, EnforcementMode, OfflinePolicy, PolicyPayload,
}
use timekpr_next_hub.Core.Calendar.{Date, toordinal}
use timekpr_next_hub.Core.Calendar.Bounds.{IsDate}
use timekpr_next_hub.Hub.Tables.{User}
use timekpr_next_hub.Hub.Enrollment.{Device, active}
use timekpr_next_hub.Hub.Provision.{NewIds, new_user}
use timekpr_next_hub.Hub.Provision.Keyed.{AreFresh}
use timekpr_next_hub.Hub.Policy.{initial_policy}
use timekpr_next_hub.Hub.Sync.{
  Context, Tables, Located, SyncUserRequest, SyncUserResponse, record_report, answer, locate,
  global_spent, window_spend, sync_user, sync_users,
}
use timekpr_next_hub.Hub.Aggregate.{UsageCounter}
use timekpr_next_hub.Hub.Aggregate.Windows.{
  global_spent_wallclock_batch, global_spent_parallel_batch,
}
use timekpr_next_hub.Hub.Summaries.{get}
use timekpr_next_hub.Hub.Summaries.Spent.{IsListed, spent_by_user, spent_by_user-agrees}
use timekpr_next_hub.Hub.Sync.Retry.{sync_user-retry, noted_at}
use timekpr_next_hub.Hub.Sync.Answer.{answer-limits, spent_on_day}
use timekpr_next_hub.Core.Calendar.Days.{week_index}
use timekpr_next_hub.Core.Calendar.{days_before_year, days_before_month, days_in_month}
use timekpr_next_hub.Hub.Aggregate.Windows.Groups.{sum_days}
use timekpr_next_hub.Base.{◌*◌, ◌-◌, ◌+◌}
use timekpr_next_hub.Hub.Sync.Total.{HasUsers, asked, answered, sync_users-answers}

abbrev laptop : Device
laptop = record {
  id = 4;
  name = "laptop";
  machine_id = "m4";
  token_hash = "h4";
  status = active;
  enforcement = EnforcementMode.enforce;
  agent_version = "1.0";
  clock_skew_ms = none;
  enrolled_at = pos 0;
  last_seen_at = none;
  last_sync_at = none;
}

-- The seconds from a span's start to its end, for one span.
abbrev one_span : List (ℤ × ℤ) → Option ℤ
one_span [] = none
one_span ((start, end) ∷ rest) = some (end -ℤ start)

abbrev today : Date
today = record { year = 2026; month = 3; day = 9 }

today-IsDate : IsDate today
today-IsDate = record {
  year_low = omega arith;
  month_low = omega arith;
  month_high = omega arith;
  day_low = omega arith;
  day_high = omega arith;
}

abbrev context : Context
context = record {
  range_agg_s = one_span;
  digest = λ (p : PolicyPayload). p.note;
  holds = λ text. true;
  limits = record { grants = []; day_overrides = []; gate_releases = [] };
  hours = [];
  now = pos 5000;
  db_now = pos 5001;
  today = today;
}

abbrev no_tables : Tables
no_tables = record {
  accounts = record { users = []; aliases = []; policies = [] };
  counters = [];
  intervals = [];
}

abbrev drawn : NewIds
drawn = record { user_id = 1; policy_id = 7 }

abbrev drawn_again : NewIds
drawn_again = record { user_id = 2; policy_id = 8 }

abbrev report : SyncUserRequest
report = record {
  username = "ada";
  cumulative_spent_s = pos 120;
  times_read = true;
  active_spans = (pos 1000, pos 1090) ∷ [];
  activity_state = ActivityState.draining;
  policy_version_applied = 0;
  policy_revision_applied = none;
  policy_push_error = none;
}

drawn-AreFresh : AreFresh no_tables.accounts drawn
drawn-AreFresh = record { user_fresh = refl; policy_fresh = refl }

-- The account that the first report provisions.
abbrev ada : User
ada = record {
  id = 1;
  canonical_username = "ada";
  display_name = "ada";
  current_policy_id = some 7;
  accounting_mode = AccountingMode.wallclock;
  offline_policy = OfflinePolicy.capped;
  offline_grace_s = pos 900;
  offline_cap_s = pos 1800;
  gated_weekdays_json = [];
}

abbrev provisioned : Located
provisioned = record {
  accounts = record {
    users = ada ∷ [];
    aliases =
        record {
          user_id = 1;
          device_id = 4;
          local_username = "ada";
          policy_push_error = none;
          policy_push_error_at = none;
        }
        ∷ [];
    policies = initial_policy 7 1 none ∷ [];
  };
  user = ada;
  policy = initial_policy 7 1 none;
}

abbrev first_tables : Tables
first_tables = record_report context laptop.id provisioned no_tables report

abbrev first_answer : SyncUserResponse
first_answer = answer context laptop first_tables provisioned.user provisioned.policy report

first_report : sync_user context laptop no_tables drawn report ≡ some (first_tables, first_answer)
unfolding sync_user locate record_report initial_policy new_user
first_report = refl

first_numbers :
    (first_answer.global_spent_s ≡ pos 120)
    × (first_answer.effective_limit_today_s ≡ pos 3600)
    × (first_answer.effective_week_limit_s ≡ pos 25080)
unfolding answer record_report initial_policy global_spent window_spend ◌-ℤ◌ ◌+ℤ◌
first_numbers = (refl, refl, refl)

sync_user-retry_example :
    sync_user
      (record context { now = pos 9000; db_now = pos 9001 })
      laptop
      first_tables
      drawn_again
      report
    ≡ some (noted_at context laptop report (pos 9000) (pos 9001) first_tables, first_answer)
sync_user-retry_example =
    sync_user-retry context laptop no_tables drawn drawn_again report (pos 9000) (pos 9001)
      first_tables first_answer drawn-AreFresh first_report

sync_users-answers_example :
    (out : Tables × List SyncUserResponse) × (sync_users context laptop no_tables
        ((drawn, report) ∷ [])
      ≡ some out)
    × (answered out.1 ≡ asked ((drawn, report) ∷ []))
    × HasUsers out.0.accounts
sync_users-answers_example =
    sync_users-answers context laptop no_tables ((drawn, report) ∷ []) (refl, tt) tt

answer-limits_example :
    let out = answer context laptop first_tables ada provisioned.policy report in
    let monday = 7 * (week_index (toordinal today) - 1) + 1 in
    let first = days_before_year today.year + days_before_month today.year today.month + 1 in
    let week = sum_days (spent_on_day context first_tables ada) monday 7 in
    let month_spent =
      sum_days
        (spent_on_day context first_tables ada)
        first
        (days_in_month today.year today.month) in
    (out.effective_week_limit_s ≡ max_ℤ (pos 0) (provisioned.policy.weekly_limit_s -ℤ week))
    × (out.effective_month_limit_s
        ≡ max_ℤ (pos 0) (provisioned.policy.monthly_limit_s -ℤ month_spent))
    × (pos 0 ≤ℤ out.effective_limit_today_s)
answer-limits_example =
    answer-limits context laptop first_tables ada provisioned.policy report refl today-IsDate

-- A second user of the device, whose report counts more seconds than the column holds.
abbrev long_report : SyncUserRequest
long_report = record report {
  username = "bob";
  cumulative_spent_s = pos 10_000_000_000_000_000_000;
}

-- Two users, one in each mode, with time on two devices.
abbrev ana : User
ana = new_user 1 "ana"

abbrev ben : User
ben = record (new_user 2 "ben") { accounting_mode = AccountingMode.parallel }

abbrev counted : ℕ → ℕ → ℤ → UsageCounter
counted user_id device_id seconds = record {
  user_id = user_id;
  device_id = device_id;
  day = 739684;
  spent_seconds = seconds;
  activity_state = none;
  updated_at = pos 0;
}

abbrev busy_tables : Tables
busy_tables = record no_tables {
  counters = counted 1 4 (pos 600) ∷ counted 1 5 (pos 900) ∷ counted 2 4 (pos 60) ∷ [];
}

ana-IsListed : IsListed (ana ∷ ben ∷ []) ana
unfolding new_user
ana-IsListed = (refl, refl)

spent_by_user-agrees_example :
    get ana.id
      (pos 0)
      (spent_by_user one_span [] busy_tables.counters (ana ∷ ben ∷ []) (toordinal today))
    ≡ global_spent context busy_tables ana
spent_by_user-agrees_example =
    spent_by_user-agrees context busy_tables (ana ∷ ben ∷ []) ana refl ana-IsListed

-- In the parallel mode the devices' counters are added.
spent_in_parallel :
    get 2 (pos 0) (spent_by_user one_span [] busy_tables.counters (ana ∷ ben ∷ []) 739684) ≡ pos 60
unfolding spent_by_user new_user global_spent_wallclock_batch global_spent_parallel_batch ◌+ℤ◌
spent_in_parallel = refl
