-- ===== src/Hub/Tests.antt =====
-- The hub's theorems at concrete tables.
use timekpr_next_hub.Base.{
  ℕ, ◌≡◌, ◌≢◌, ◌+◌, ◌≤◌, ◌++◌, inr, refl, suc, String, true, false, Option, none, some, List, [],
  ◌∷◌, arith, str_eq, if◌then◌else◌, subst,
}
use timekpr_next_hub.Base.Int.{ℤ, pos, ◌≤ℤ◌}
use timekpr_next_hub.Core.Models.{
  Weekday, AccountingMode, OfflinePolicy, LockoutType, EnforcementMode, PolicyPayload,
}
use timekpr_next_hub.Core.EffectivePolicy.{
  Revision, policy_revision, materialize_allowed_hours, with_day_hour_override,
  unrestricted_wire_intervals,
}
use timekpr_next_hub.Hub.Summaries.{summary_limit}
use timekpr_next_hub.Hub.Summaries.Agree.{summary_limit-agrees}
use timekpr_next_hub.Base.{length, All}
use timekpr_next_hub.Hub.Summaries.History.{DayUsage, compute_usage_history}
use timekpr_next_hub.Hub.Summaries.History.Days.{IsTrue, compute_usage_history-IsTrue}
use timekpr_next_hub.Hub.Rows.{selected}
use timekpr_next_hub.Hub.Tables.{User, Policy, DayHourOverride}
use timekpr_next_hub.Hub.Limits.{LimitTables, override_of, effective_daily_limit}
use timekpr_next_hub.Hub.Limits.Refinement.{
  LimitCall, make_calls, no_rows, allow_all, nothing_allowed, allowed_seconds,
}
use timekpr_next_hub.Hub.Limits.Simulation.{make_calls-refines}
use timekpr_next_hub.Hub.Aggregate.{
  UsageCounter, ActivityInterval, upsert_usage_counter, global_spent_wallclock, record_spans,
}
use timekpr_next_hub.Hub.Aggregate.Counters.{
  CounterReport, upsert_all, spent_at, reported, occurs, upsert_all-same_values,
}
use timekpr_next_hub.Base.{keep}
use timekpr_next_hub.Hub.Aggregate.{active_on}
use timekpr_next_hub.Hub.Aggregate.Day.{IsCounted, record_spans-on_hub_day}
use timekpr_next_hub.Hub.Aggregate.Replay.{
  record_spans-replay, global_spent_wallclock-counts_report,
}
use timekpr_next_hub.Hub.Policy.{
  PolicyUpdate, get_current_policy, initial_policy, update_policy, default_playtime, seven,
  served_policy, day_hour_override, policy_to_payload,
}
use timekpr_next_hub.Hub.Policy.Versions.{IsVersioned, current_version, update_policy-appends}
use timekpr_next_hub.Hub.Policy.Served.{ordinary, special, served_policy-override}
use timekpr_next_hub.Hub.Enrollment.{OneTimeCode, Device, active}
use timekpr_next_hub.Hub.Enrollment.Once.{successes, claim_enrollment_code-once}

abbrev ada : User
ada = record {
  id = 1;
  canonical_username = "ada";
  display_name = "Ada";
  current_policy_id = some 7;
  accounting_mode = AccountingMode.wallclock;
  offline_policy = OfflinePolicy.capped;
  offline_grace_s = pos 900;
  offline_cap_s = pos 1800;
  gated_weekdays_json = Weekday.mon ∷ [];
}

abbrev bob : User
bob = record ada { id = 2; canonical_username = "bob"; current_policy_id = some 8 }

abbrev policy : Policy
policy = initial_policy 7 1 none

-- A Monday: 2026-03-09.
abbrev monday : ℕ
monday = 739684

abbrev tables : LimitTables
tables = record {
  grants = record { user_id = 1; day = monday; seconds = pos 900 } ∷ [];
  day_overrides =
      record { user_id = 1; day = monday; limit_seconds = pos 60; reason = ""; created_by = "" }
      ∷ [];
  gate_releases = record { user_id = 1; day = monday; released_by = "eve"; note = none } ∷ [];
}

-- Ada's Monday is overridden twice, granted more, released, and not released any more.
abbrev calls : List LimitCall
calls =
    LimitCall.override 1 monday (pos 60) "" "eve"
    ∷ LimitCall.grant 1 monday (pos 900)
    ∷ LimitCall.override 1 monday (pos 1800) "" "eve"
    ∷ LimitCall.release 1 monday "eve" ""
    ∷ LimitCall.clear 2 monday
    ∷ LimitCall.release_back 1 monday
    ∷ []

make_calls-refines_example :
    ((make_calls calls no_rows).0 ≡ (allow_all calls nothing_allowed).0)
    × (effective_daily_limit (make_calls calls no_rows).1 policy ada monday
        ≡ allowed_seconds (allow_all calls nothing_allowed).1 policy ada monday)
make_calls-refines_example = make_calls-refines calls policy ada monday

one_override : (day : ℕ) → selected (override_of 1 day) tables.day_overrides ≤ 1
one_override day = ground arith

-- A union of any intervals is taken for half an hour.
abbrev half_hour : List (ℤ × ℤ) → Option ℤ
half_hour [] = none
half_hour (span ∷ spans) = some (pos 1800)

-- Ada's devices have counted twenty minutes on the Monday, in an interval of half an hour.
abbrev counted : List UsageCounter
counted =
    record {
      user_id = 1;
      device_id = 4;
      day = monday;
      spent_seconds = pos 1200;
      activity_state = none;
      updated_at = pos 0;
    }
    ∷ []

abbrev active_spans : List ActivityInterval
active_spans =
    record {
      user_id = 1;
      device_id = 4;
      day = monday;
      start = pos 0;
      end = pos 1800;
      window_end_ts = pos 1800;
    }
    ∷ []

abbrev week : List DayUsage
week = compute_usage_history half_hour active_spans counted tables (some policy) ada 7 monday

compute_usage_history-IsTrue_example :
    (length week ≡ 7) × All (IsTrue half_hour active_spans counted tables policy ada) week
compute_usage_history-IsTrue_example =
    compute_usage_history-IsTrue half_hour active_spans counted tables policy ada 7 monday refl
      one_override (omega arith)

abbrev report : ℤ → CounterReport
report s = record {
  user_id = 1;
  device_id = 4;
  day = monday;
  spent_seconds = s;
  activity_state = none;
  at = pos 0;
}

same_values :
    (s : ℤ)
    → occurs s (reported 1 4 monday (report (pos 60) ∷ report (pos 90) ∷ report (pos 60) ∷ []))
      ≡ occurs s (reported 1 4 monday (report (pos 90) ∷ report (pos 60) ∷ []))
same_values s = ground arith

upsert_all-same_values_example :
    spent_at (upsert_all [] (report (pos 60) ∷ report (pos 90) ∷ report (pos 60) ∷ [])) 1 4 monday
    ≡ spent_at (upsert_all [] (report (pos 90) ∷ report (pos 60) ∷ [])) 1 4 monday
upsert_all-same_values_example =
    upsert_all-same_values [] (report (pos 60) ∷ report (pos 90) ∷ report (pos 60) ∷ [])
      (report (pos 90) ∷ report (pos 60) ∷ []) 1 4 monday same_values

abbrev sent : List (ℤ × ℤ)
sent = (pos 10, pos 40) ∷ (pos 70, pos 70) ∷ []

abbrev more : List (ℤ × ℤ)
more = (pos 40, pos 90) ∷ []

record_spans-replay_example :
    record_spans (record_spans [] 1 4 monday sent) 1 4 monday (sent ++ more)
    ≡ record_spans [] 1 4 monday (sent ++ more)
record_spans-replay_example = record_spans-replay 1 4 monday [] sent more

abbrev range_agg_s : List (ℤ × ℤ) → Option ℤ
range_agg_s [] = none
range_agg_s (s ∷ rest) = some (pos 30)

global_spent_wallclock-counts_report_example :
    pos 60
    ≤ℤ global_spent_wallclock range_agg_s []
        (upsert_usage_counter [] 1 4 monday (pos 60) none (pos 0))
        1
        monday
global_spent_wallclock-counts_report_example =
    global_spent_wallclock-counts_report 1 4 monday (pos 60) none (pos 0) range_agg_s [] []

abbrev update : PolicyUpdate
update = record {
  daily_limits_s = seven (pos 7200);
  weekly_limit_s = pos 40000;
  monthly_limit_s = pos 160000;
  allowed_weekdays = [];
  allowed_hours = [];
  lockout_type = LockoutType.terminate;
  wake_from = none;
  wake_to = none;
  track_inactive = true;
  hide_tray_icon = false;
  playtime = default_playtime;
  note = "spring";
}

abbrev policies : List Policy
policies = policy ∷ record policy { id = 8; user_id = 2 } ∷ []

update_policy-appends_example :
    let (policies', user', p) = update_policy policies 9 ada update "eve" in
    (policies' ≡ policies ++ p ∷ [])
    × (get_current_policy policies' user' ≡ some p)
    × (p.version ≡ suc (current_version (get_current_policy policies ada)))
    × IsVersioned policies' user'
unfolding get_current_policy initial_policy
update_policy-appends_example =
    update_policy-appends policies 9 ada update "eve" refl
      (inr (omega arith), (inr (omega arith), tt))

-- A hash that tells whether the first weekday of the payload has hours.
abbrev digest : PolicyPayload → String
digest p = elim p.allowed_hours [
  | [] ↦ "none"
  | (day, hours) ∷ rest ↦ elim hours [ [] ↦ "closed" | h ∷ hs ↦ "open" ]
]

abbrev monday_closed : DayHourOverride
monday_closed = record {
  user_id = 1;
  day = monday;
  intervals_json = [];
  reason = "";
  created_by = "eve";
}

abbrev overridden : List DayHourOverride
overridden = monday_closed ∷ []

abbrev IsOpen : String → Type 0
IsOpen s = if str_eq s "open" then Unit else ⊥

told_apart : digest (ordinary policy) ≢ digest (special policy monday_closed monday)
unfolding with_day_hour_override materialize_allowed_hours policy_to_payload initial_policy
    unrestricted_wire_intervals
told_apart e = subst IsOpen e tt

served_policy-override_example :
    let served : ℕ → PolicyPayload → Option PolicyPayload × Revision = λ on applied.
      served_policy digest overridden policy on (some (policy_revision digest applied)) 1 in
    let usual = ordinary policy in
    let changed = special policy monday_closed monday in
    (served monday usual ≡ (some changed, policy_revision digest changed))
    × (served monday changed ≡ (none, policy_revision digest changed))
    × (served (monday + 1) changed ≡ (some usual, policy_revision digest usual))
    × (served (monday + 1) usual ≡ (none, policy_revision digest usual))
unfolding day_hour_override initial_policy
served_policy-override_example =
    served_policy-override digest overridden policy monday (monday + 1) 1 monday_closed refl refl
      told_apart

abbrev codes : List OneTimeCode
codes = record { code = "ABCD"; expires_at = pos 100; used_at = none } ∷ []

claim_enrollment_code-once_example : successes codes "ABCD" (pos 50 ∷ pos 60 ∷ pos 200 ∷ []) ≤ 1
claim_enrollment_code-once_example =
    claim_enrollment_code-once codes "ABCD" (pos 50 ∷ pos 60 ∷ pos 200 ∷ []) (omega arith)

abbrev desktop : Device
desktop = record {
  id = 4;
  name = "desktop";
  machine_id = "m1";
  token_hash = "h1";
  status = active;
  enforcement = EnforcementMode.enforce;
  agent_version = "1.0";
  clock_skew_ms = none;
  enrolled_at = pos 0;
  last_seen_at = none;
  last_sync_at = none;
}

-- Two spans of the Sunday, which the device could send on the Monday only.
record_spans-on_hub_day_example :
    All (IsCounted 1 4 monday [] (record_spans [] 1 4 monday sent)) sent
    × (keep (active_on 1 739683) (record_spans [] 1 4 monday sent) ≡ keep (active_on 1 739683) [])
record_spans-on_hub_day_example =
    record_spans-on_hub_day 1 4 monday [] sent 1 739683 (λ e. omega (arith, e))

summary_limit-agrees_example :
    summary_limit tables (2 ∷ 1 ∷ []) policy ada monday
    ≡ effective_daily_limit tables policy ada monday
summary_limit-agrees_example =
    summary_limit-agrees tables (2 ∷ 1 ∷ []) policy ada monday refl (omega arith)
