-- ===== src/Core/EffectivePolicy.antt =====
-- core/timekpr_hub_core/effective_policy.py: a policy with all seven days' hours, and the one-day
-- replacement of one of them. The hash of a payload is a parameter, and a revision "version-hash" is
-- kept by its two parts.
pub mod Hours
use native.Mathlib.Decide.{ℕ_discrete}
use timekpr_next_hub.Base.{
  ℕ, ◌%◌, ◌==◌, String, Bool, true, false, Option, none, some, List, [], ◌∷◌, map, any,
  if◌then◌else◌,
}
use timekpr_next_hub.Base.Text.{String-discrete}
use timekpr_next_hub.Core.AllowedHours.{HourRecord, intervals_to_hours, unrestricted}
use timekpr_next_hub.Core.Models.{Weekday, PolicyPayload, weekday_tokens, same_weekday}

-- A dict from weekday tokens, in the order of insertion.
abbrev pub WeekHours : Type 0
WeekHours = List (Weekday × List HourRecord)

-- `allowed_hours.get(day)`
abbrev pub hours_of : Weekday → WeekHours → Option (List HourRecord)
hours_of day [] = none
hours_of day ((d, hours) ∷ rest) =
    let later = hours_of day rest in if same_weekday d day then some hours else later

unfoldable pub unrestricted_wire_intervals : List HourRecord
unfolding intervals_to_hours unrestricted
unrestricted_wire_intervals = intervals_to_hours unrestricted

-- `allowed_hours.get(day) or unrestricted_wire`
abbrev pub or_unrestricted : Option (List HourRecord) → List HourRecord
or_unrestricted none = unrestricted_wire_intervals
or_unrestricted (some []) = unrestricted_wire_intervals
or_unrestricted (some (r ∷ rest)) = r ∷ rest

unfoldable pub materialize_allowed_hours : WeekHours → WeekHours
materialize_allowed_hours allowed_hours =
    map (λ day. (day, or_unrestricted (hours_of day allowed_hours))) weekday_tokens

-- `{**materialized, weekday: list(intervals)}`
abbrev pub put_hours : Weekday → List HourRecord → WeekHours → WeekHours
put_hours weekday intervals [] = (weekday, intervals) ∷ []
put_hours weekday intervals ((d, hours) ∷ rest) =
    let later = put_hours weekday intervals rest in
    if same_weekday d weekday then (weekday, intervals) ∷ rest else (d, hours) ∷ later

-- `weekday in (payload.allowed_weekdays or WEEKDAY_TOKENS)`
abbrev pub is_allowed_weekday : Weekday → List Weekday → Bool
is_allowed_weekday weekday [] = any (λ w. same_weekday w weekday) weekday_tokens
is_allowed_weekday weekday (d ∷ days) = any (λ w. same_weekday w weekday) (d ∷ days)

unfoldable pub with_day_hour_override : PolicyPayload → Weekday → List HourRecord → PolicyPayload
unfolding materialize_allowed_hours
with_day_hour_override payload weekday intervals =
    let materialized = materialize_allowed_hours payload.allowed_hours in
    record payload {
      allowed_hours =
          if is_allowed_weekday weekday payload.allowed_weekdays
          then put_hours weekday intervals materialized
          else materialized;
    }

-- "version-hash", and the "version-legacy" of an agent that reports no revision.
pub data Revision : Type 0 where
  hashed : ℕ → String → Revision
  legacy : ℕ → Revision

pub Revision-discrete : Discrete Revision
Revision-discrete = hlevel (ℕ_discrete, String-discrete)

unfoldable pub policy_revision : (PolicyPayload → String) → PolicyPayload → Revision
policy_revision digest payload = hashed payload.version (digest payload)
