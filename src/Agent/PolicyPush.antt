-- ===== src/Agent/PolicyPush.antt =====
-- agent/timekpr_hub_agent/policy_push.py: pushing a policy, one setter at a time, without the calls
-- that would change nothing.
pub mod Report
pub mod Labels
pub mod Tests
use native.Mathlib.Decide.{ℕ_discrete}
use mathlib.Core.Bool.{decide}
use timekpr_next_hub.Base.{
  ℕ, suc, ◌+◌, ◌-◌, String, Bool, true, false, not, ◌&&◌, Option, none, some, List, [], ◌∷◌, ◌++◌,
  map, ◌==◌, ◌≡◌, get_or, length, if◌then◌else◌, str_eq,
}
use timekpr_next_hub.Base.Int.{ℤ, pos}
use timekpr_next_hub.Base.Text.{String-discrete}
use timekpr_next_hub.Core.AllowedHours.{HourRecord}
use timekpr_next_hub.Core.Models.{
  Weekday, LockoutType, PlayTimeActivity, PlayTimePayload, PolicyPayload, weekday_tokens,
  iso_number,
}
use timekpr_next_hub.Agent.Timekpr.{
  Applied, Call, HourSlot, HourPayload, Timekpr, enforce, hours_to_dbus_payload, set_allowed_days,
  set_time_limit_for_days, set_time_limit_for_week, set_time_limit_for_month, set_track_inactive,
  set_hide_tray_icon, set_lockout_type, set_allowed_hours, set_playtime_enabled,
  set_playtime_limit_override, set_playtime_unaccounted_intervals_enabled,
  set_playtime_allowed_days, set_playtime_limits_for_days, set_playtime_activities,
}

-- The labels of the steps.
pub data Label : Type 0 where
  daily_limits_length allowed_days limit_for_days limit_for_week limit_for_month : Label
  track_inactive hide_tray_icon lockout_type : Label
  allowed_hours : Weekday → Label
  playtime_enabled playtime_limit_override playtime_unaccounted playtime_allowed_days : Label
  playtime_limits_for_days playtime_activities : Label

-- The lockout type with its wake window, as `_apply_lockout` compares them for 'suspendwake'.
pub record Lockout : Type 0 where
  pub kind : LockoutType
  pub wake_from : String
  pub wake_to : Option String

-- Equality of the values that are compared, as Python's `==` decides it.
pub days-discrete : Discrete (List Weekday)
days-discrete = hlevel

pub limits-discrete : Discrete (List ℤ)
limits-discrete = hlevel ℕ_discrete

pub limit-discrete : Discrete ℤ
limit-discrete = hlevel ℕ_discrete

pub flag-discrete : Discrete Bool
flag-discrete = hlevel

pub kind-discrete : Discrete LockoutType
kind-discrete = hlevel

pub hours-discrete : Discrete HourPayload
hours-discrete = hlevel ℕ_discrete

pub lockout-discrete : Discrete Lockout
lockout-discrete = hlevel String-discrete

pub activities-discrete : Discrete (List (String × String))
activities-discrete = hlevel String-discrete

-- `current is not _UNKNOWN and current == desired`
abbrev pub unchanged {ℓ} : {A : Type ℓ} → Discrete A → Option A → A → Bool
unchanged d none desired = false
unchanged d (some current) desired = decide (d current desired)

-- `_project_daily_limits_to_allowed_days`. The limits are seven, so no index is out of range.
unfoldable pub project_daily_limits_to_allowed_days : List ℤ → List Weekday → List ℤ
project_daily_limits_to_allowed_days daily_limits allowed_weekdays =
    map (λ day. get_or daily_limits (iso_number day - 1) (pos 0)) allowed_weekdays

-- One call of `_Push.step`: its label, whether the device already holds the value, and the setter.
pub record Step : Type 0 where
  pub label : Label
  pub holds : Bool
  pub call : Call

-- The fields of `_Push` that `step` changes, with the daemon's configuration.
pub record Push (Config : Type 0) : Type 0 where
  pub config : Config
  pub ok : Bool
  pub applied_count : ℕ
  pub skipped_count : ℕ
  pub failed : List Label

module _ (timekpr : Timekpr) (username : String) where
  unfoldable pub step : Push timekpr.Config → Step → Push timekpr.Config
  unfolding enforce
  step push s =
      if s.holds
      then record push { skipped_count = push.skipped_count + 1 }
      else let (config', accepted) = enforce timekpr push.config username s.call in
        record push {
          config = config';
          applied_count = push.applied_count + 1;
          ok = push.ok && accepted;
          failed = if accepted then push.failed else push.failed ++ s.label ∷ [];
        }

  unfoldable pub run_steps : Push timekpr.Config → List Step → Push timekpr.Config
  unfolding step
  run_steps push [] = push
  run_steps push (s ∷ rest) = run_steps (step push s) rest

-- A list from the payload, or all seven days where it is empty.
abbrev pub or_all_weekdays : List Weekday → List Weekday
or_all_weekdays [] = weekday_tokens
or_all_weekdays days = days

-- `policy.get(...) or default`: None and "" give the default.
abbrev pub or_default : Option String → String → String
or_default none default = default
or_default (some s) default = if str_eq s "" then default else s

-- The device's value for a field, where the snapshot was read and has it: `_Push.current`.
abbrev pub current {ℓ} : {A : Type ℓ} → Option Applied → (Applied → Option A) → Option A
current none field = none
current (some applied) field = field applied

-- A value that another step of the push has made incomparable is unknown.
abbrev pub unless {ℓ} : {A : Type ℓ} → Bool → Option A → Option A
unless true value = none
unless false value = value

-- `_apply_lockout`
abbrev pub lockout_holds : Option Applied → LockoutType → String → String → Bool
lockout_holds applied LockoutType.suspend_wake wake_from wake_to =
    elim (current applied (λ a. a.lockout_type)) [
      | none ↦ false
      | some kind ↦ elim (current applied (λ a. a.wakeup_hour_interval)) [
        | none ↦ false
        | some window ↦ decide (
            lockout-discrete (record { kind = kind; wake_from = window.0; wake_to = window.1 })
              (record {
                kind = LockoutType.suspend_wake;
                wake_from = wake_from;
                wake_to = some wake_to;
              }))
      ]
    ]
lockout_holds applied kind wake_from wake_to =
    unchanged kind-discrete (current applied (λ a. a.lockout_type)) kind

unfoldable pub lockout_step : Option Applied → PolicyPayload → Step
lockout_step applied policy =
    let wake_from = or_default policy.wake_from "0" in
    let wake_to = or_default policy.wake_to "23" in
    record {
      label = Label.lockout_type;
      holds = lockout_holds applied policy.lockout_type wake_from wake_to;
      call = set_lockout_type policy.lockout_type wake_from wake_to;
    }

-- `_push_hours_day`
unfoldable pub hours_step : Option Applied → Weekday × List HourRecord → Step
unfolding hours_to_dbus_payload
hours_step applied (day, intervals) =
    let payload = hours_to_dbus_payload intervals in
    record {
      label = Label.allowed_hours day;
      holds = unchanged hours-discrete (current applied (λ a. a.allowed_hours day)) payload;
      call = set_allowed_hours day payload;
    }

-- `_apply_playtime`
unfoldable pub playtime_steps : Option Applied → PlayTimePayload → List Step
unfolding project_daily_limits_to_allowed_days
playtime_steps applied playtime =
    let weekdays = or_all_weekdays playtime.allowed_weekdays in
    let days_hold =
      unchanged days-discrete (current applied (λ a. a.playtime_allowed_weekdays)) weekdays in
    let projected = project_daily_limits_to_allowed_days playtime.daily_limits_s weekdays in
    let activities = map (λ (a : PlayTimeActivity). (a.mask, a.description)) playtime.activities in
    record {
      label = Label.playtime_enabled;
      holds = unchanged flag-discrete (current applied (λ a. a.playtime_enabled)) playtime.enabled;
      call = set_playtime_enabled playtime.enabled;
    }
    ∷ record {
      label = Label.playtime_limit_override;
      holds =
          unchanged flag-discrete (current applied (λ a. a.playtime_limit_override_enabled))
            playtime.override_enabled;
      call = set_playtime_limit_override playtime.override_enabled;
    }
    ∷ record {
      label = Label.playtime_unaccounted;
      holds =
          unchanged flag-discrete (current applied (λ a. a.playtime_unaccounted_intervals_enabled))
            playtime.unaccounted_intervals_enabled;
      call = set_playtime_unaccounted_intervals_enabled playtime.unaccounted_intervals_enabled;
    }
    ∷ record {
      label = Label.playtime_allowed_days;
      holds = days_hold;
      call = set_playtime_allowed_days weekdays;
    }
    ∷ record {
      label = Label.playtime_limits_for_days;
      holds =
          unchanged limits-discrete
            (unless (not days_hold) (current applied (λ a. a.playtime_limits_per_weekdays)))
            projected;
      call = set_playtime_limits_for_days projected;
    }
    ∷ record {
      label = Label.playtime_activities;
      holds =
          unchanged activities-discrete (current applied (λ a. a.playtime_activities)) activities;
      call = set_playtime_activities activities;
    }
    ∷ []

-- The steps of `_apply_policy_push` before the lockout. The day set is written exactly when it is not
-- held, and the limits are positional within it.
unfoldable pub limit_steps : Option Applied → PolicyPayload → List Step
unfolding project_daily_limits_to_allowed_days
limit_steps applied policy =
    let weekdays = or_all_weekdays policy.allowed_weekdays in
    let days_hold = unchanged days-discrete (current applied (λ a. a.allowed_weekdays)) weekdays in
    let projected = project_daily_limits_to_allowed_days policy.daily_limits_s weekdays in
    record { label = Label.allowed_days; holds = days_hold; call = set_allowed_days weekdays }
    ∷ record {
      label = Label.limit_for_days;
      holds =
          unchanged limits-discrete
            (unless (not days_hold) (current applied (λ a. a.limits_per_weekdays))) projected;
      call = set_time_limit_for_days projected;
    }
    ∷ record {
      label = Label.limit_for_week;
      holds =
          unchanged limit-discrete (current applied (λ a. a.limit_per_week)) policy.weekly_limit_s;
      call = set_time_limit_for_week policy.weekly_limit_s;
    }
    ∷ record {
      label = Label.limit_for_month;
      holds =
          unchanged limit-discrete (current applied (λ a. a.limit_per_month))
            policy.monthly_limit_s;
      call = set_time_limit_for_month policy.monthly_limit_s;
    }
    ∷ record {
      label = Label.track_inactive;
      holds =
          unchanged flag-discrete (current applied (λ a. a.track_inactive)) policy.track_inactive;
      call = set_track_inactive policy.track_inactive;
    }
    ∷ record {
      label = Label.hide_tray_icon;
      holds =
          unchanged flag-discrete (current applied (λ a. a.hide_tray_icon)) policy.hide_tray_icon;
      call = set_hide_tray_icon policy.hide_tray_icon;
    }
    ∷ []

unfoldable pub policy_steps : Option Applied → PolicyPayload → List Step
unfolding limit_steps lockout_step hours_step playtime_steps
policy_steps applied policy =
    limit_steps applied policy
    ++ (lockout_step applied policy
        ∷ (map (hours_step applied) policy.allowed_hours ++ playtime_steps applied policy.playtime))

-- `_apply_policy_push`
unfoldable pub apply_policy_push :
    (timekpr : Timekpr) → timekpr.Config → String → PolicyPayload → Push timekpr.Config
unfolding run_steps policy_steps
apply_policy_push timekpr config username policy =
    if length policy.daily_limits_s == 7
    then run_steps timekpr username
        (record { config = config; ok = true; applied_count = 0; skipped_count = 0; failed = [] })
        (policy_steps (timekpr.applied_policy config username) policy)
    else record {
      config = config;
      ok = false;
      applied_count = 0;
      skipped_count = 0;
      failed = Label.daily_limits_length ∷ [];
    }
