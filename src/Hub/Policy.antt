-- ===== src/Hub/Policy.antt =====
-- hub/timekpr_hub/services/policy.py: the versions of a user's policy, and the payload that a device is
-- served on a day. The id of a new row (`uuid.uuid4`) is an argument.
pub mod Versions
pub mod Served
use mathlib.Core.Bool.{decide}
use timekpr_next_hub.Base.{
  ℕ, ◌+◌, ◌*◌, ◌%◌, ◌==◌, ◌&&◌, String, str_eq, Bool, true, false, Option, none, some, List, [],
  ◌∷◌, ◌++◌, map, find, if◌then◌else◌,
}
use timekpr_next_hub.Base.Int.{ℤ, pos, ◌+ℤ◌}
use timekpr_next_hub.Core.Models.{
  Weekday, LockoutType, AllowedHourInterval, PlayTimePayload, PolicyPayload, weekday_tokens,
}
use timekpr_next_hub.Core.EffectivePolicy.{
  Revision, Revision-discrete, hashed, legacy, WeekHours, materialize_allowed_hours,
  with_day_hour_override, policy_revision,
}
use timekpr_next_hub.Hub.Tables.{User, Policy, DayHourOverride, isoweekday}

-- The policies and the users' pointers to them, as far as these operations see them.
unfoldable pub get_current_policy : List Policy → User → Option Policy
get_current_policy policies user = elim user.current_policy_id [
  | none ↦ none
  | some id ↦ find (λ (p : Policy). p.id == id) policies
]

abbrev pub seven : ℤ → List ℤ
seven s = s ∷ s ∷ s ∷ s ∷ s ∷ s ∷ s ∷ []

-- `policy.playtime_daily_limits_json or [0] * 7`
abbrev pub or_zeros : List ℤ → List ℤ
or_zeros [] = seven (pos 0)
or_zeros (s ∷ rest) = s ∷ rest

-- `policy.note or ""`
abbrev pub or_empty : Option String → String
or_empty none = ""
or_empty (some note) = note

unfoldable pub policy_to_payload : Policy → PolicyPayload
policy_to_payload policy = record {
  version = policy.version;
  daily_limits_s = policy.daily_limits_json;
  allowed_hours = policy.allowed_hours_json;
  allowed_weekdays = policy.allowed_weekdays_json;
  weekly_limit_s = policy.weekly_limit_s;
  monthly_limit_s = policy.monthly_limit_s;
  lockout_type = policy.lockout_type;
  wake_from = policy.wake_from;
  wake_to = policy.wake_to;
  track_inactive = policy.track_inactive;
  hide_tray_icon = policy.hide_tray_icon;
  playtime = record policy.playtime { daily_limits_s = or_zeros policy.playtime.daily_limits_s };
  note = or_empty policy.note;
}

-- `LocalPolicySnapshot`
pub record LocalPolicySnapshot : Type 0 where
  pub daily_limits_s : List ℤ
  pub weekly_limit_s : ℤ
  pub monthly_limit_s : ℤ
  pub allowed_weekdays : List Weekday

abbrev pub sum_of : List ℤ → ℤ
sum_of [] = pos 0
sum_of (s ∷ rest) = s +ℤ sum_of rest

abbrev pub times_five : ℤ → ℤ
times_five s = s +ℤ s +ℤ s +ℤ s +ℤ s

-- `allowed_weekdays or list(WEEKDAY_TOKENS)`
abbrev pub or_all_weekdays : List Weekday → List Weekday
or_all_weekdays [] = weekday_tokens
or_all_weekdays (d ∷ days) = d ∷ days

-- The columns that `create_initial_policy` leaves to their defaults.
abbrev pub default_playtime : PlayTimePayload
default_playtime = record {
  enabled = false;
  override_enabled = false;
  unaccounted_intervals_enabled = true;
  allowed_weekdays = weekday_tokens;
  daily_limits_s = seven (pos 0);
  activities = [];
}

unfoldable pub initial_policy : ℕ → ℕ → Option LocalPolicySnapshot → Policy
initial_policy new_id user_id snapshot =
    let limits : List ℤ = elim snapshot [ none ↦ seven (pos 3600) | some s ↦ s.daily_limits_s ] in
    record {
      id = new_id;
      user_id = user_id;
      version = 1;
      created_by = elim snapshot [ none ↦ "system_default" | some s ↦ "seeded_from_device" ];
      daily_limits_json = limits;
      allowed_hours_json = [];
      allowed_weekdays_json = elim snapshot [
        | none ↦ weekday_tokens
        | some s ↦ or_all_weekdays s.allowed_weekdays
      ];
      weekly_limit_s = elim snapshot [ none ↦ sum_of limits | some s ↦ s.weekly_limit_s ];
      monthly_limit_s = elim snapshot [
        | none ↦ times_five (sum_of limits)
        | some s ↦ s.monthly_limit_s
      ];
      lockout_type = LockoutType.lock;
      wake_from = none;
      wake_to = none;
      track_inactive = false;
      hide_tray_icon = false;
      playtime = default_playtime;
      note = none;
    }

-- `create_initial_policy`: the policies with the new one, and the new one.
unfoldable pub create_initial_policy :
    List Policy → ℕ → ℕ → Option LocalPolicySnapshot → List Policy × Policy
unfolding initial_policy
create_initial_policy policies new_id user_id snapshot =
    let policy = initial_policy new_id user_id snapshot in (policies ++ policy ∷ [], policy)

-- `get_or_create_policy`, for a user whose row is locked: the policies, the user and the policy.
unfoldable pub get_or_create_policy :
    List Policy → ℕ → User → Option LocalPolicySnapshot → List Policy × User × Policy
unfolding get_current_policy create_initial_policy
get_or_create_policy policies new_id user snapshot = elim (get_current_policy policies user) [
  | some current ↦ (policies, user, current)
  | none ↦
      let (policies', policy) = create_initial_policy policies new_id user.id snapshot in
      (policies', record user { current_policy_id = some policy.id }, policy)
]

-- `PolicyUpdate`
pub record PolicyUpdate : Type 0 where
  pub daily_limits_s : List ℤ
  pub weekly_limit_s : ℤ
  pub monthly_limit_s : ℤ
  pub allowed_weekdays : List Weekday
  pub allowed_hours : WeekHours
  pub lockout_type : LockoutType
  pub wake_from : Option String
  pub wake_to : Option String
  pub track_inactive : Bool
  pub hide_tray_icon : Bool
  pub playtime : PlayTimePayload
  pub note : String

abbrev pub next_version : Option Policy → ℕ
next_version none = 1
next_version (some current) = current.version + 1

-- `update_policy`, for a user whose row is locked.
unfoldable pub update_policy :
    List Policy → ℕ → User → PolicyUpdate → String → List Policy × User × Policy
unfolding get_current_policy
update_policy policies new_id user update created_by =
    let policy : Policy = record {
      id = new_id;
      user_id = user.id;
      version = next_version (get_current_policy policies user);
      created_by = created_by;
      daily_limits_json = update.daily_limits_s;
      allowed_hours_json = update.allowed_hours;
      allowed_weekdays_json = update.allowed_weekdays;
      weekly_limit_s = update.weekly_limit_s;
      monthly_limit_s = update.monthly_limit_s;
      lockout_type = update.lockout_type;
      wake_from = update.wake_from;
      wake_to = update.wake_to;
      track_inactive = update.track_inactive;
      hide_tray_icon = update.hide_tray_icon;
      playtime = update.playtime;
      note = if str_eq update.note "" then none else some update.note;
    } in
    (policies ++ policy ∷ [], record user { current_policy_id = some new_id }, policy)

-- The token of a date's weekday, `str(day.isoweekday())`.
abbrev pub weekday_of : ℕ → Weekday
weekday_of day =
    let n = isoweekday day in
    if n == 1
    then Weekday.mon
    else if n == 2
    then Weekday.tue
    else if n == 3
    then Weekday.wed
    else if n == 4
    then Weekday.thu
    else if n == 5
    then Weekday.fri
    else if n == 6
    then Weekday.sat
    else Weekday.sun

abbrev pub hours_override_of : ℕ → ℕ → DayHourOverride → Bool
hours_override_of user_id day o = o.user_id == user_id && o.day == day

-- `day_hour_override` (hub/timekpr_hub/services/day_hours.py)
unfoldable pub day_hour_override : List DayHourOverride → ℕ → ℕ → Option DayHourOverride
day_hour_override overrides user_id day = find (hours_override_of user_id day) overrides

unfoldable pub effective_policy_payload :
    (PolicyPayload → String) → List DayHourOverride → Policy → ℕ → Bool → PolicyPayload × Revision
unfolding policy_to_payload materialize_allowed_hours with_day_hour_override policy_revision
    day_hour_override
effective_policy_payload digest overrides policy day apply_day_overrides =
    let standing = policy_to_payload policy in
    let materialized = record standing {
      allowed_hours = materialize_allowed_hours standing.allowed_hours;
    } in
    if apply_day_overrides
    then elim (day_hour_override overrides policy.user_id day) [
      | none ↦ (materialized, policy_revision digest materialized)
      | some o ↦
          let effective = with_day_hour_override materialized (weekday_of day) o.intervals_json in
          (effective, policy_revision digest effective)
    ]
    else (materialized, legacy materialized.version)

-- The part of `sync` (hub/timekpr_hub/api/sync.py) that decides whether to send the policy: a device
-- reports the revision that it has applied, or, if it is older, only the version.
unfoldable pub served_policy :
    (PolicyPayload → String)
    → List DayHourOverride
    → Policy
    → ℕ
    → Option Revision
    → ℕ
    → Option PolicyPayload × Revision
unfolding effective_policy_payload
served_policy digest overrides policy day revision_applied version_applied = elim revision_applied [
  | some applied ↦
      let (payload, revision) = effective_policy_payload digest overrides policy day true in
      (if decide (Revision-discrete applied revision) then none else some payload, revision)
  | none ↦
      let (payload, revision) = effective_policy_payload digest overrides policy day false in
      (if version_applied == policy.version then none else some payload, revision)
]
