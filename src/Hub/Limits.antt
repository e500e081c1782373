-- ===== src/Hub/Limits.antt =====
-- hub/timekpr_hub/services/limits.py: grants, one-day overrides and the chore gate, and the daily limit
-- that they make of a policy. `combine_limit` is called with what single queries find here, and with
-- what the batched queries find in the summaries.
pub mod Keyed
pub mod Refinement
pub mod Refines
pub mod Simulation
use timekpr_next_hub.Base.{
  ℕ, ◌-◌, ◌==◌, ◌&&◌, ◌||◌, not, String, str_eq, Bool, true, false, Option, none, some, List, [],
  ◌∷◌, map, get_or, keep, find, any, if◌then◌else◌,
}
use timekpr_next_hub.Base.Int.{ℤ, pos, ◌+ℤ◌, max_ℤ}
use timekpr_next_hub.Core.Models.{Weekday, iso_number}
use timekpr_next_hub.Hub.Rows.{insert_or_update, delete_one}
use timekpr_next_hub.Hub.Tables.{User, Policy, Grant, DayOverride, GateRelease, isoweekday}

-- The limits are seven.
unfoldable pub base_daily_limit : Policy → ℕ → ℤ
base_daily_limit policy day = get_or policy.daily_limits_json (isoweekday day - 1) (pos 0)

unfoldable pub is_gated_weekday : User → ℕ → Bool
is_gated_weekday user day =
    any (λ weekday. iso_number weekday == isoweekday day) user.gated_weekdays_json

unfoldable pub combine_limit : ℤ → ℤ → Bool → Bool → ℤ
unfolding max_ℤ
combine_limit base_s grants_s gated released =
    if gated && not released then pos 0 else max_ℤ (pos 0) (base_s +ℤ grants_s)

-- `SUM` with `COALESCE(..., 0)`
abbrev pub sum_seconds : List Grant → ℤ
sum_seconds [] = pos 0
sum_seconds (g ∷ rest) = g.seconds +ℤ sum_seconds rest

abbrev pub grant_of : ℕ → ℕ → Grant → Bool
grant_of user_id day g = g.user_id == user_id && g.day == day

unfoldable pub grants_total : List Grant → ℕ → ℕ → ℤ
grants_total grants user_id day = sum_seconds (keep (grant_of user_id day) grants)

abbrev pub override_of : ℕ → ℕ → DayOverride → Bool
override_of user_id day o = o.user_id == user_id && o.day == day

unfoldable pub day_override : List DayOverride → ℕ → ℕ → Option DayOverride
day_override overrides user_id day = find (override_of user_id day) overrides

unfoldable pub set_day_override : List DayOverride → ℕ → ℕ → ℤ → String → String → List DayOverride
unfolding insert_or_update
set_day_override overrides user_id day limit_seconds reason created_by =
    insert_or_update (override_of user_id day)
      (λ old. record old {
        limit_seconds = limit_seconds;
        reason = reason;
        created_by = created_by;
      })
      (record {
        user_id = user_id;
        day = day;
        limit_seconds = limit_seconds;
        reason = reason;
        created_by = created_by;
      })
      overrides

-- Whether a row was deleted, and the rows that are left.
unfoldable pub clear_day_override : List DayOverride → ℕ → ℕ → Bool × List DayOverride
unfolding day_override delete_one
clear_day_override overrides user_id day = elim (day_override overrides user_id day) [
  | none ↦ (false, overrides)
  | some existing ↦ (true, delete_one (override_of user_id day) overrides)
]

abbrev pub release_of : ℕ → ℕ → GateRelease → Bool
release_of user_id day r = r.user_id == user_id && r.day == day

unfoldable pub is_gate_released : List GateRelease → ℕ → ℕ → Bool
is_gate_released releases user_id day = any (release_of user_id day) releases

-- `note or None`
abbrev pub or_none : String → Option String
or_none note = if str_eq note "" then none else some note

unfoldable pub release_gate : List GateRelease → ℕ → ℕ → String → String → List GateRelease
unfolding insert_or_update
release_gate releases user_id day released_by note =
    insert_or_update (release_of user_id day)
      (λ old. record old { released_by = released_by; note = or_none note })
      (record { user_id = user_id; day = day; released_by = released_by; note = or_none note })
      releases

unfoldable pub unrelease_gate : List GateRelease → ℕ → ℕ → Bool × List GateRelease
unfolding delete_one
unrelease_gate releases user_id day = elim (find (release_of user_id day) releases) [
  | none ↦ (false, releases)
  | some existing ↦ (true, delete_one (release_of user_id day) releases)
]

pub record LimitTables : Type 0 where
  pub grants : List Grant
  pub day_overrides : List DayOverride
  pub gate_releases : List GateRelease

unfoldable pub effective_daily_limit : LimitTables → Policy → User → ℕ → ℤ
unfolding day_override base_daily_limit grants_total is_gated_weekday is_gate_released combine_limit
effective_daily_limit tables policy user day =
    let base_s : ℤ = elim (day_override tables.day_overrides user.id day) [
      | none ↦ base_daily_limit policy day
      | some o ↦ o.limit_seconds
    ] in
    let grants_s = grants_total tables.grants user.id day in
    let gated = is_gated_weekday user day in
    let released = if gated then is_gate_released tables.gate_releases user.id day else false in
    combine_limit base_s grants_s gated released
